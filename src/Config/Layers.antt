-- ===== src/Config/Layers.antt =====
-- The layers of the configuration in crates/oxidarr-prowl/src/config.rs.
use oxidarr.Common.{ℕ, ◌≡◌, refl, Bool, Option, none, some, Text, codes}
use oxidarr.Config.{
  FileConfig, Parsers, parse_bool_flag, parse_u64, or_else, auto_update, interval, merge,
}

-- What a variable says, if it is set: it must parse.
abbrev pub Reads : {B : Type 0} → (Text → Option B) → Option Text → Option B → Type 0
Reads parse none value = value ≡ none
Reads parse (some text) value = (parse text ≡ value) × ((b : _) × (value ≡ some b))

abbrev pub no_env : Text → Option Text
no_env name = none

-- The file with the variables of the environment written into it.
abbrev pub overlaid : (Text → Option Text) → Option Bool → Option ℕ → FileConfig → FileConfig
overlaid env update seconds file = record {
  bind = or_else (env (codes "OXIDARR_BIND")) file.bind;
  data_dir = or_else (env (codes "OXIDARR_DATA_DIR")) file.data_dir;
  external_url = or_else (env (codes "OXIDARR_EXTERNAL_URL")) file.external_url;
  proxy = or_else (env (codes "OXIDARR_PROXY")) file.proxy;
  log = or_else (env (codes "OXIDARR_LOG")) file.log;
  definitions_auto_update = or_else update file.definitions_auto_update;
  definitions_interval = or_else seconds file.definitions_interval;
  definitions_url = or_else (env (codes "OXIDARR_DEFINITIONS_URL")) file.definitions_url;
}

auto_update-none :
    (variable : Option Text) (update file : Option Bool)
    → Reads parse_bool_flag variable update
    → auto_update variable file ≡ auto_update none (or_else update file)
unfolding auto_update
auto_update-none none update file h = rw h refl
auto_update-none (some text) update file (h, (b, e)) = rw (h, e) refl

interval-none :
    (variable : Option Text) (seconds file : Option ℕ)
    → Reads parse_u64 variable seconds
    → interval variable file ≡ interval none (or_else seconds file)
unfolding interval
interval-none none seconds file h = rw h refl
interval-none (some text) seconds file (h, (n, e)) = rw (h, e) refl

module _ {A U : Type 0} (parsers : Parsers A U) where
  -- The environment counts as if its variables stood in the file, in place of what is there, if
  -- those that are not text parse.
  pub merge-overlaid :
      (env : Text → Option Text) (file : FileConfig) (update : Option Bool) (seconds : Option ℕ)
      → Reads parse_bool_flag (env (codes "OXIDARR_DEFINITIONS_AUTO_UPDATE")) update
      → Reads parse_u64 (env (codes "OXIDARR_DEFINITIONS_INTERVAL")) seconds
      → merge parsers env file ≡ merge parsers no_env (overlaid env update seconds file)
  unfolding merge
  merge-overlaid env file update seconds h k =
      rw
        (
          auto_update-none (env (codes "OXIDARR_DEFINITIONS_AUTO_UPDATE")) update
              file.definitions_auto_update h,
          interval-none (env (codes "OXIDARR_DEFINITIONS_INTERVAL")) seconds
              file.definitions_interval k,
        )
        refl
