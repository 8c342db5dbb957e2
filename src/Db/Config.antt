-- ===== src/Db/Config.antt =====
-- crates/oxidarr-db/src/config.rs: `ConfigRepo`, and the instance API key. The random bytes that
-- `rand` fills in are a parameter.
pub mod Key
use oxidarr.Common.{
  ℕ, ◌+◌, ◌/◌, ◌%◌, Bool, true, false, Option, none, some, List, [], ◌∷◌, ◌++◌, any, find, codes,
  Text, text_eq, if◌then◌else◌, ltb, ◌≡◌,
}
use oxidarr.Common.Outcome.{Outcome, ok, err}
use oxidarr.Common.Act.{pure, fail, ◌>>=◌, ◌>>◌}
use oxidarr.Db.Kinds.{SqlxError, DbError, not_found}
use oxidarr.Db.Conn.{Tables, Conn, Disk, Query, statement}

abbrev pub api_key_config_key : Text
api_key_config_key = codes "instance_api_key"

-- SELECT value FROM config WHERE key = ?
unfoldable pub value_of : Text → List (Text × Text) → Option Text
value_of key [] = none
value_of key ((k, v) ∷ rest) = if text_eq k key then some v else value_of key rest

-- INSERT … ON CONFLICT(key) DO UPDATE
unfoldable pub put : Text → Text → List (Text × Text) → List (Text × Text)
put key value [] = (key, value) ∷ []
put key value ((k, v) ∷ rest) =
    if text_eq k key then (k, value) ∷ rest else (k, v) ∷ put key value rest

-- INSERT … ON CONFLICT(key) DO NOTHING
unfoldable pub put_if_absent : Text → Text → List (Text × Text) → List (Text × Text)
put_if_absent key value [] = (key, value) ∷ []
put_if_absent key value ((k, v) ∷ rest) =
    if text_eq k key then (k, v) ∷ rest else (k, v) ∷ put_if_absent key value rest

-- `{b:02x}`: two lowercase hexadecimal digits.
abbrev pub hex_digit : ℕ → ℕ
hex_digit n = if ltb n 10 then 48 + n else 87 + n

unfoldable pub hex : List ℕ → Text
hex [] = []
hex (b ∷ rest) = hex_digit (b / 16) ∷ hex_digit (b % 16) ∷ hex rest

module _ (disk : Disk) where
  unfoldable pub get : Text → Query (Option Text)
  unfolding value_of
  get key = statement disk (λ t. ok (value_of key t.config, t))

  unfoldable pub set : Text → Text → Query (Unit {0})
  unfolding put
  set key value = statement disk (λ t. ok (tt, record t { config = put key value t.config }))

  unfoldable pub or_missing : Option Text → Query Text
  or_missing none = fail (not_found "config" api_key_config_key)
  or_missing (some key) = pure key

  -- `bytes` are the 16 random bytes.
  unfoldable pub generate_and_persist_api_key : List ℕ → Query Text
  unfolding put_if_absent get or_missing hex
  generate_and_persist_api_key bytes = do
    statement disk
        (λ t. ok (tt, record t { config = put_if_absent api_key_config_key (hex bytes) t.config }))
    stored ← get api_key_config_key
    or_missing stored

  unfoldable pub key_or_generate : List ℕ → Option Text → Query Text
  unfolding generate_and_persist_api_key
  key_or_generate bytes (some key) = pure key
  key_or_generate bytes none = generate_and_persist_api_key bytes

  unfoldable pub api_key : List ℕ → Query Text
  unfolding get key_or_generate
  api_key bytes = do stored ← get api_key_config_key; key_or_generate bytes stored
