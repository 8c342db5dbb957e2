-- ===== src/Db/Config/Key.antt =====
-- `ConfigRepo`: that a value which was set is got back, and that the API key of the instance is made
-- once.
use oxidarr.Common.{
  same_left, same_right, ℕ, ◌+◌, ◌*◌, ◌≡◌, refl, List, [], ◌∷◌, Text, text_eq, arith, if◌then◌else◌,
  Option, none, some, length,
}
use oxidarr.Common.Outcome.{ok}
use oxidarr.Common.Act.{Yields, Yields-bind, Yields-pure, Yields-imp, Yields-self}
use oxidarr.Db.Conn.{Conn, Disk, statement, start, finish}
use oxidarr.Db.Statements.{statement-Yields}
use oxidarr.Db.Config.{
  api_key_config_key, value_of, put, put_if_absent, hex, get, or_missing,
  generate_and_persist_api_key, key_or_generate, api_key,
}

-- `set` writes one key of the config, seen as a partial function.
pub value_of-put :
    (key value : Text) (rows : List (Text × Text)) (other : Text)
    → value_of other (put key value rows)
      ≡ (if text_eq key other then some value else value_of other rows)
unfolding value_of put
value_of-put key value [] other = ground arith
value_of-put key value ((k, v) ∷ rest) other =
    ground (arith, same_left k key other, same_right k key other, value_of-put key value rest other)

-- The hexadecimal text of the random bytes has two digits for each.
pub length-hex : (bytes : List ℕ) → length (hex bytes) ≡ 2 * length bytes
unfolding hex
length-hex [] = refl
length-hex (b ∷ rest) = ground (arith, length-hex rest)

module _ (disk : Disk) where
  -- The key is in the config.
  abbrev Holds : Text → Conn → Type 0
  Holds key c = value_of api_key_config_key c.tables.config ≡ some key

  get-Holds :
      (conn : Conn)
      → Yields
          (get disk api_key_config_key)
          conn
          (λ found c. value_of api_key_config_key c.tables.config ≡ found)
  unfolding get
  get-Holds conn =
      Yields-imp _ (statement-Yields disk (λ t. ok (value_of api_key_config_key t.config, t)) conn)
        λ found c e. ground (arith, e)

  or_missing-Holds :
      (found : Option Text) (conn : Conn)
      → value_of api_key_config_key conn.tables.config ≡ found
      → Yields (or_missing disk found) conn Holds
  unfolding or_missing
  or_missing-Holds none conn h = record { at = λ a t e. cc }
  or_missing-Holds (some key) conn h = Yields-pure key h

  generate-Holds :
      (bytes : List ℕ) (conn : Conn) → Yields (generate_and_persist_api_key disk bytes) conn Holds
  unfolding generate_and_persist_api_key
  generate-Holds bytes conn =
      Yields-bind _ _
        (Yields-self (
          statement disk (λ t.
            ok (tt, record t { config = put_if_absent api_key_config_key (hex bytes) t.config }))))
        λ _ c1 _. Yields-bind _ _ (get-Holds c1) λ found c2 h. or_missing-Holds found c2 h

  key_or_generate-Holds :
      (bytes : List ℕ) (found : Option Text) (conn : Conn)
      → value_of api_key_config_key conn.tables.config ≡ found
      → Yields (key_or_generate disk bytes found) conn Holds
  unfolding key_or_generate
  key_or_generate-Holds bytes none conn h = generate-Holds bytes conn
  key_or_generate-Holds bytes (some key) conn h = Yields-pure key h

  api_key-Holds : (bytes : List ℕ) (conn : Conn) → Yields (api_key disk bytes) conn Holds
  unfolding api_key
  api_key-Holds bytes conn =
      Yields-bind _ _ (get-Holds conn) λ found c h. key_or_generate-Holds bytes found c h

  held_key :
      (bytes : List ℕ) (key : Text) (c : Conn)
      → disk c.queries ≡ none
      → Holds key c
      → api_key disk bytes c ≡ (ok key, record c { queries = c.queries + 1 })
  unfolding api_key get key_or_generate statement start finish
  held_key bytes key c quiet h = rw (quiet, h) refl

  -- Once `api_key` has returned a key, it returns that key again, whatever the random bytes are, if
  -- SQLite runs the query; the tables stay as they are.
  api_key-api_key :
      (bytes bytes' : List ℕ) (conn : Conn) (key : Text) (c : Conn)
      → api_key disk bytes conn ≡ (ok key, c)
      → disk c.queries ≡ none
      → api_key disk bytes' c ≡ (ok key, record c { queries = c.queries + 1 })
  api_key-api_key bytes bytes' conn key c e quiet =
      held_key bytes' key c quiet ((api_key-Holds bytes conn).at key c e)
