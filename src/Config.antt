-- ===== src/Config.antt =====
-- crates/oxidarr-prowl/src/config.rs: the configuration of an instance, from the environment, a file and defaults.
pub mod Layers
use oxidarr.Common.{
  ℕ, zero, suc, ◌+◌, ◌-◌, ◌^◌, ◌==◌, Bool, true, false, ◌&&◌, leb, Option, none, some, List, [],
  ◌∷◌, ◌++◌, map, any, Text, codes, text_eq, if◌then◌else◌,
}
use oxidarr.Common.Outcome.{Outcome, ok, err, ◌>>=◌, map_err}
use oxidarr.Common.Numerals.{from_str_radix}

-- With addresses in `A` and URLs in `U`.
pub record Config (A U : Type 0) : Type 0 where
  pub bind : A
  pub data_dir : Text
  pub external_url : U
  pub proxy : Option Text
  pub log : Text
  pub definitions_auto_update : Bool
  pub definitions_interval : ℕ
  pub definitions_url : Text

pub data ConfigError : Type 0 where
  io : Text → Text → ConfigError
  toml : Text → Text → ConfigError
  bind : Text → Text → ConfigError
  external_url : Text → Text → ConfigError
  definitions_interval : ℕ → ConfigError
  definitions_interval_parse : Text → ConfigError
  definitions_auto_update_parse : Text → ConfigError

pub record FileConfig : Type 0 where
  pub bind : Option Text
  pub data_dir : Option Text
  pub external_url : Option Text
  pub proxy : Option Text
  pub log : Option Text
  pub definitions_auto_update : Option Bool
  pub definitions_interval : Option ℕ
  pub definitions_url : Option Text

abbrev pub default_file : FileConfig
default_file = record {
  bind = none;
  data_dir = none;
  external_url = none;
  proxy = none;
  log = none;
  definitions_auto_update = none;
  definitions_interval = none;
  definitions_url = none;
}

-- `ErrorKind::NotFound`, and the other errors of a read by their texts.
pub data ReadError : Type 0 where
  not_found : ReadError
  other : Text → ReadError

-- `FromStr` of `SocketAddr` and `Url`, the `toml` crate, and the file system, with the texts of
-- their errors.
pub record Parsers (A U : Type 0) : Type 0 where
  pub parse_addr : Text → Outcome Text A
  pub parse_url : Text → Outcome Text U
  pub parse_toml : Text → Outcome Text FileConfig
  pub read_to_string : Text → Outcome ReadError Text

abbrev ascii_lower : ℕ → ℕ
ascii_lower c = if leb 65 c && leb c 90 then c + 32 else c

unfoldable pub parse_bool_flag : Text → Option Bool
parse_bool_flag value =
    let flag = map ascii_lower value in
    if any (text_eq flag) (codes "true" ∷ codes "1" ∷ codes "yes" ∷ codes "on" ∷ [])
    then some true
    else if any (text_eq flag) (codes "false" ∷ codes "0" ∷ codes "no" ∷ codes "off" ∷ [])
    then some false
    else none

abbrev pub or_else : {B : Type 0} → Option B → Option B → Option B
or_else none later = later
or_else (some b) later = some b

abbrev pub unwrap_or : {B : Type 0} → B → Option B → B
unwrap_or default none = default
unwrap_or default (some b) = b

abbrev pub default_interval : ℕ
default_interval = 86400

abbrev u64_max : ℕ
u64_max = 2 ^ 64 - 1

unfoldable pub parse_u64 : Text → Option ℕ
unfolding from_str_radix
parse_u64 value = from_str_radix 10 u64_max value

abbrev flag_of : Text → Option Bool → Outcome ConfigError Bool
flag_of value none = err (definitions_auto_update_parse value)
flag_of value (some b) = ok b

unfoldable pub auto_update : Option Text → Option Bool → Outcome ConfigError Bool
unfolding parse_bool_flag
auto_update (some value) file = flag_of value (parse_bool_flag value)
auto_update none file = ok (unwrap_or true file)

abbrev seconds_of : Text → Option ℕ → Outcome ConfigError ℕ
seconds_of value none = err (definitions_interval_parse value)
seconds_of value (some n) = ok n

unfoldable pub interval : Option Text → Option ℕ → Outcome ConfigError ℕ
unfolding parse_u64
interval (some value) file = seconds_of value (parse_u64 value)
interval none file = ok (unwrap_or default_interval file)

abbrev pub nonzero : ℕ → Outcome ConfigError ℕ
nonzero zero = err (definitions_interval 0)
nonzero (suc n) = ok (suc n)

module _ {A U : Type 0} (parsers : Parsers A U) where
  abbrev parsed_file : Text → Outcome ReadError Text → Outcome ConfigError FileConfig
  parsed_file path (ok text) = map_err (toml path) (parsers.parse_toml text)
  parsed_file path (err not_found) = ok default_file
  parsed_file path (err (other e)) = err (io path e)

  unfoldable pub read_file_config : Text → Outcome ConfigError FileConfig
  read_file_config path = parsed_file path (parsers.read_to_string path)

  abbrev file_of : Option Text → Outcome ConfigError FileConfig
  unfolding read_file_config
  file_of none = ok default_file
  file_of (some path) = read_file_config path

  module _ (env : Text → Option Text) where
    abbrev pub layered : Text → Text → Option Text → Text
    layered name default file = unwrap_or default (or_else (env name) file)

    -- What a file and the environment give.
    unfoldable pub merge : FileConfig → Outcome ConfigError (Config A U)
    unfolding auto_update interval
    merge file =
        let bind_value = layered (codes "OXIDARR_BIND") (codes "0.0.0.0:9696") file.bind in
        let url_value =
          layered (codes "OXIDARR_EXTERNAL_URL") (codes "http://" ++ bind_value)
            file.external_url in
        map_err (bind bind_value) (parsers.parse_addr bind_value) >>= λ address.
        map_err (external_url url_value) (parsers.parse_url url_value) >>= λ url.
        auto_update (env (codes "OXIDARR_DEFINITIONS_AUTO_UPDATE")) file.definitions_auto_update
        >>= λ update.
            (interval (env (codes "OXIDARR_DEFINITIONS_INTERVAL")) file.definitions_interval
              >>= nonzero)
            >>= λ seconds. ok (record {
              bind = address;
              data_dir = layered (codes "OXIDARR_DATA_DIR") (codes "./data") file.data_dir;
              external_url = url;
              proxy = or_else (env (codes "OXIDARR_PROXY")) file.proxy;
              log = layered (codes "OXIDARR_LOG") (codes "info") file.log;
              definitions_auto_update = update;
              definitions_interval = seconds;
              definitions_url =
                  layered (codes "OXIDARR_DEFINITIONS_URL")
                    (codes "https://github.com/Prowlarr/Indexers/archive/refs/heads/master.tar.gz")
                    file.definitions_url;
            })

    unfoldable pub load_config : Option Text → Outcome ConfigError (Config A U)
    unfolding merge file_of
    load_config path = file_of path >>= merge
