-- ===== src/Db/Rows.antt =====
-- The typed rows of crates/oxidarr-db/src/{indexer,application,mapping}.rs, the rows as the tables
-- of migrations/ store them, and the decoding of one into the other. An id that SQLite assigns is a
-- natural number; a remote id and a priority are signed. `serde_json` and `chrono` are `Codec`.
use oxidarr.Common.{ℕ, String, Bool, Text, leb, if◌then◌else◌}
use oxidarr.Common.Int.{ℤ, i32_max, fits_i32}
use oxidarr.Common.Outcome.{Outcome, ok, err, ◌>>=◌, map_err}
use oxidarr.Common.Json.{Fields}
use oxidarr.Db.Kinds.{
  IndexerKind, AppKind, SyncLevel, DbError, corrupt, library_message, out_of_range,
  indexer_kind_from_stored, app_kind_from_stored, sync_level_from_stored,
}

-- `DateTime<Utc>`: nanoseconds since the epoch.
abbrev pub Instant : Type 0
Instant = ℕ

-- What the code takes from `serde_json` and `chrono`: a settings map and an instant, as text and
-- back.
pub record Codec : Type 0 where
  pub encode_settings : Fields → Outcome String String
  pub decode_settings : String → Outcome String Fields
  pub to_rfc3339 : Instant → String
  pub parse_rfc3339 : String → Outcome String Instant

-- The tables' columns.
pub record StoredIndexer : Type 0 where
  pub id : ℕ
  pub name : Text
  pub definition_id : Text
  pub kind : String
  pub enabled : Bool
  pub settings : String
  pub priority : ℤ
  pub added : String

pub record StoredApplication : Type 0 where
  pub id : ℕ
  pub name : Text
  pub kind : String
  pub base_url : Text
  pub api_key : Text
  pub sync_level : String
  pub added : String

pub record StoredMapping : Type 0 where
  pub app_id : ℕ
  pub indexer_id : ℕ
  pub remote_indexer_id : ℤ

pub record MappingRow : Type 0 where
  pub app_id : ℕ
  pub indexer_id : ℕ
  pub remote_indexer_id : ℤ

-- `i32::try_from` of a rowid.
unfoldable pub row_id_to_i32 : ℕ → String → Outcome DbError ℕ
row_id_to_i32 id field = if leb id i32_max then ok id else err (corrupt field out_of_range)

unfoldable pub remote_id_to_i32 : ℤ → String → Outcome DbError ℤ
remote_id_to_i32 id field = if fits_i32 id then ok id else err (corrupt field out_of_range)

unfoldable pub row_to_mapping : StoredMapping → Outcome DbError MappingRow
unfolding row_id_to_i32 remote_id_to_i32
row_to_mapping row = do
  app ← row_id_to_i32 row.app_id "app_indexer_map.app_id"
  indexer ← row_id_to_i32 row.indexer_id "app_indexer_map.indexer_id"
  remote ← remote_id_to_i32 row.remote_indexer_id "app_indexer_map.remote_indexer_id"
  ok (record { app_id = app; indexer_id = indexer; remote_indexer_id = remote })

pub record NewIndexer : Type 0 where
  pub name : Text
  pub definition_id : Text
  pub kind : IndexerKind
  pub enabled : Bool
  pub settings : Fields
  pub priority : ℤ

pub record IndexerRow : Type 0 where
  pub id : ℕ
  pub added : Instant
  pub name : Text
  pub definition_id : Text
  pub kind : IndexerKind
  pub enabled : Bool
  pub settings : Fields
  pub priority : ℤ

pub record NewApplication : Type 0 where
  pub name : Text
  pub kind : AppKind
  pub base_url : Text
  pub api_key : Text
  pub sync_level : SyncLevel

pub record ApplicationRow : Type 0 where
  pub id : ℕ
  pub added : Instant
  pub name : Text
  pub kind : AppKind
  pub base_url : Text
  pub api_key : Text
  pub sync_level : SyncLevel

module _ (codec : Codec) where
  open codec use {decode_settings, parse_rfc3339}

  unfoldable pub parse_added : String → String → Outcome DbError Instant
  parse_added field value =
      map_err (λ reason. corrupt field (library_message reason)) (parse_rfc3339 value)

  unfoldable pub decode : String → Outcome DbError Fields
  decode value =
      map_err (λ reason. corrupt "indexers.settings" (library_message reason))
        (decode_settings value)

  unfoldable pub row_to_indexer : StoredIndexer → Outcome DbError IndexerRow
  unfolding row_id_to_i32 parse_added decode indexer_kind_from_stored
  row_to_indexer row = do
    id ← row_id_to_i32 row.id "indexers.id"
    added ← parse_added "indexers.added" row.added
    kind ← indexer_kind_from_stored row.kind
    settings ← decode row.settings
    ok (record {
      id = id;
      added = added;
      name = row.name;
      definition_id = row.definition_id;
      kind = kind;
      enabled = row.enabled;
      settings = settings;
      priority = row.priority;
    })

  unfoldable pub row_to_application : StoredApplication → Outcome DbError ApplicationRow
  unfolding row_id_to_i32 parse_added app_kind_from_stored sync_level_from_stored
  row_to_application row = do
    id ← row_id_to_i32 row.id "applications.id"
    added ← parse_added "applications.added" row.added
    kind ← app_kind_from_stored row.kind
    sync_level ← sync_level_from_stored row.sync_level
    ok (record {
      id = id;
      added = added;
      name = row.name;
      kind = kind;
      base_url = row.base_url;
      api_key = row.api_key;
      sync_level = sync_level;
    })
