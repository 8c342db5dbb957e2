-- ===== src/Examples/Run.antt =====
-- A full sync of one application: one indexer is created, and the mapping of a disabled one goes.
use oxidarr.Sync.Run.{
  sync_enabled, delete_pass, delete_stale, delete_one, still_enabled, sync_rows, sync_kind,
  sync_mapped, after_put, categories_for, categories_of, create, mapping_of, post_and_map, sync_at,
  update, sync_application,
}
use oxidarr.Db.Indexers as Indexers
use oxidarr.Db.Conn.{statement, order_by, finish, insert_by, start}
use oxidarr.Db.Rows.{
  row_to_indexer, row_to_mapping, decode, parse_added, remote_id_to_i32, row_id_to_i32,
}
use oxidarr.Db.Mappings as Mappings
use oxidarr.Sync.Remote.{
  delete_indexer, ensure_success, indexer_url, parse_remote_id, post_indexer, put_indexer,
  remote_error,
}
use oxidarr.CategoryMap.{category_named, from_definition, newznab_ids}
use oxidarr.Common.{digits_fuel, show_nat}
use oxidarr.Common.Json.{as_i64, get_field, get_key}
use oxidarr.Db.Kinds.{indexer_kind_from_stored}
use oxidarr.Definitions.{
  cache_insert, cached, contains_pair, held_or_load, is_plain_stem, load_and_insert,
  load_definition, loaded, or_insert, parsed, path_of, validate_id,
}
use oxidarr.Definitions as Definitions
use oxidarr.Sync.Payload.{
  build_indexer_payload, display_name, numbers, show_int, torznab_base_url, trim_end_matches,
}
use oxidarr.Sync.World.{execute}
use oxidarr.Common.{ℕ, ◌≡◌, refl, codes, []}
use oxidarr.Common.Outcome.{Outcome, ok}
use oxidarr.Db.Kinds.{full_sync}
use oxidarr.Sync.World.{World, SyncReport, SyncError}
use oxidarr.Examples.Data.{services, world, app_at, external_url}

abbrev pub run : Outcome SyncError SyncReport × World ℕ
run = sync_application services (app_at full_sync) external_url (codes "k") world

abbrev pub report : SyncReport
report = record { created = 1; updated = 0; deleted = 1; skipped = [] }

abbrev pub after : World ℕ
after = run.1

pub run_ok : run ≡ (ok report, after)
unfolding sync_application sync_enabled delete_pass delete_stale delete_one still_enabled sync_rows
    sync_kind sync_mapped after_put categories_for categories_of create mapping_of post_and_map
    sync_at update Indexers.list statement order_by finish insert_by start row_to_indexer
    row_to_mapping decode parse_added remote_id_to_i32 row_id_to_i32 Mappings.for_app
    Mappings.delete Mappings.remove_pair Mappings.overwrite Mappings.set Mappings.upsert
    delete_indexer ensure_success indexer_url parse_remote_id post_indexer put_indexer remote_error
    category_named from_definition newznab_ids digits_fuel show_nat as_i64 get_field get_key
    indexer_kind_from_stored cache_insert cached contains_pair held_or_load is_plain_stem
    load_and_insert load_definition loaded or_insert parsed path_of validate_id Definitions.get
    build_indexer_payload display_name numbers show_int torznab_base_url trim_end_matches execute
run_ok = refl
