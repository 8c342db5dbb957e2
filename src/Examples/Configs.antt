-- ===== src/Examples/Configs.antt =====
-- The theorem on the configuration, at a concrete environment and file.
use oxidarr.Common.{◌≡◌, refl, false, Option, none, some, Text, codes, text_eq, if◌then◌else◌}
use oxidarr.Common.Outcome.{ok, err}
use oxidarr.Config.{
  FileConfig, default_file, Parsers, not_found, parse_bool_flag, parse_u64, merge, load_config,
  definitions_interval,
}
use oxidarr.Config.Layers as Layers
use oxidarr.Config.Layers.{no_env, overlaid}

-- Addresses and URLs are their texts, and there is no file.
abbrev parsers : Parsers Text Text
parsers = record {
  parse_addr = ok;
  parse_url = ok;
  parse_toml = λ s. ok default_file;
  read_to_string = λ path. err not_found;
}

abbrev env : Text → Option Text
env name =
    if text_eq name (codes "OXIDARR_DEFINITIONS_AUTO_UPDATE")
    then some (codes "Off")
    else if text_eq name (codes "OXIDARR_DEFINITIONS_INTERVAL")
    then some (codes "60")
    else if text_eq name (codes "OXIDARR_BIND")
    then some (codes "[::]:80")
    else none

abbrev file : FileConfig
file = record default_file { log = some (codes "debug"); definitions_interval = some 0 }

-- A zero in the file is refused, and a variable overrides it.
refused_zero : merge parsers no_env file ≡ err (definitions_interval 0)
unfolding merge
refused_zero = refl

loaded_config :
    load_config parsers env (some (codes "data/config.toml"))
    ≡ ok (record {
      bind = codes "[::]:80";
      data_dir = codes "./data";
      external_url = codes "http://[::]:80";
      proxy = none;
      log = codes "info";
      definitions_auto_update = false;
      definitions_interval = 60;
      definitions_url =
          codes "https://github.com/Prowlarr/Indexers/archive/refs/heads/master.tar.gz";
    })
unfolding load_config
loaded_config = refl

off_flag : parse_bool_flag (codes "Off") ≡ some false
unfolding parse_bool_flag
off_flag = refl

sixty_seconds : parse_u64 (codes "60") ≡ some 60
unfolding parse_u64
sixty_seconds = refl

merge-overlaid_example :
    merge parsers env file ≡ merge parsers no_env (overlaid env (some false) (some 60) file)
merge-overlaid_example =
    Layers.merge-overlaid parsers env file (some false) (some 60) (off_flag, (false, refl))
      (sixty_seconds, (60, refl))
