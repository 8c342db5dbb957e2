-- ===== src/Sync/Run.antt =====
-- crates/oxidarr-prowl/src/sync.rs: `sync_application`, `sync_all` and `categories_for`.
use oxidarr.Common.{
  ℕ, ◌+◌, ◌==◌, ◌&&◌, Bool, Option, none, some, List, [], ◌∷◌, ◌++◌, any, find, filter, codes, Text,
  if◌then◌else◌,
}
use oxidarr.Common.Int.{ℤ}
use oxidarr.Common.Outcome.{Outcome, ok, err}
use oxidarr.Common.Act.{pure, lift, ◌>>=◌, ◌>>◌}
use oxidarr.CategoryMap.{from_definition, newznab_ids}
use oxidarr.Db.Kinds.{
  IndexerKind, cardigann, newznab, torznab, SyncLevel, disabled, add_only, full_sync,
}
use oxidarr.Db.Rows.{IndexerRow, ApplicationRow, MappingRow}
use oxidarr.Db.Indexers as Indexers
use oxidarr.Db.Applications as Applications
use oxidarr.Db.Mappings as Mappings
use oxidarr.Definitions as Definitions
use oxidarr.Http.{Url, HttpResponse}
use oxidarr.Sync.World.{
  Services, World, Sync, SyncReport, SyncError, definition, empty_report, in_db, in_definitions,
}
use oxidarr.Sync.Payload.{build_indexer_payload}
use oxidarr.Sync.Remote.{ensure_success, post_indexer, put_indexer, delete_indexer}

-- `rows.iter().any(|row| row.id == mapping.indexer_id && row.enabled)`
unfoldable pub still_enabled : List IndexerRow → MappingRow → Bool
still_enabled rows mapping = any (λ row. row.id == mapping.indexer_id && row.enabled) rows

unfoldable pub mapping_of : List MappingRow → IndexerRow → Option MappingRow
mapping_of mappings row = find (λ mapping. mapping.indexer_id == row.id) mappings

abbrev pub count_deleted : SyncReport → SyncReport
count_deleted report = record report { deleted = report.deleted + 1 }

abbrev pub count_created : SyncReport → SyncReport
count_created report = record report { created = report.created + 1 }

abbrev pub count_updated : SyncReport → SyncReport
count_updated report = record report { updated = report.updated + 1 }

abbrev pub skip : Text → SyncReport → SyncReport
skip reason report = record report { skipped = report.skipped ++ reason ∷ [] }

module _ {R : Type 0} (services : Services R) where
  unfoldable pub categories_of : IndexerKind → IndexerRow → Sync R (List ℕ)
  categories_of cardigann row = do
    def ←
        in_definitions (definition row.definition_id)
          (Definitions.get services.files row.definition_id)
    pure (newznab_ids (from_definition def.categorymappings))
  categories_of newznab row = pure []
  categories_of torznab row = pure []

  unfoldable pub categories_for : IndexerRow → Sync R (List ℕ)
  unfolding categories_of
  categories_for row = categories_of row.kind row

  module _ (app : ApplicationRow) (external_url : Url) (instance_key : Text) where
    -- One round of the `fullSync` pass over the mappings.
    unfoldable pub delete_one : List IndexerRow → MappingRow → SyncReport → Sync R SyncReport
    delete_one rows mapping report = if still_enabled rows mapping then pure report else do
      delete_indexer services app mapping.remote_indexer_id
      in_db (Mappings.delete services.disk app.id mapping.indexer_id)
      pure (count_deleted report)

    unfoldable pub delete_stale : List IndexerRow → List MappingRow → SyncReport → Sync R SyncReport
    delete_stale rows [] report = pure report
    delete_stale rows (mapping ∷ rest) report = do
      report' ← delete_one rows mapping report
      delete_stale rows rest report'

    abbrev row_for : IndexerRow → ℤ → MappingRow
    row_for row remote_id = record {
      app_id = app.id;
      indexer_id = row.id;
      remote_indexer_id = remote_id;
    }

    -- A `POST` and the mapping of the id that it returns: a creation, and the fallback of a `PUT`
    -- that finds nothing.
    unfoldable pub post_and_map : IndexerRow → List ℕ → Sync R (Unit {0})
    post_and_map row categories = do
      remote_id ←
          post_indexer services app
            (build_indexer_payload row external_url instance_key categories none)
      in_db (Mappings.set services.disk (row_for row remote_id))

    unfoldable pub create : IndexerRow → SyncReport → Sync R SyncReport
    create row report = do
      categories ← categories_for row
      post_and_map row categories
      pure (count_created report)

    unfoldable pub after_put : IndexerRow → List ℕ → HttpResponse → Sync R (Unit {0})
    after_put row categories resp =
        if resp.status == 404
        then post_and_map row categories
        else lift (ensure_success services app resp)

    unfoldable pub update : IndexerRow → MappingRow → SyncReport → Sync R SyncReport
    update row mapping report = do
      categories ← categories_for row
      resp ← put_indexer services app mapping.remote_indexer_id (
          build_indexer_payload row external_url instance_key categories
            (some mapping.remote_indexer_id))
      after_put row categories resp
      pure (count_updated report)

    -- The `match mapping` of one row.
    unfoldable pub sync_mapped :
        SyncLevel → Option MappingRow → IndexerRow → SyncReport → Sync R SyncReport
    sync_mapped level none row report = create row report
    sync_mapped add_only (some mapping) row report =
        pure (skip (row.name ++ codes ": already synced (addOnly)") report)
    sync_mapped _ (some mapping) row report = update row mapping report

    -- `matches!(row.kind, IndexerKind::Newznab | IndexerKind::Torznab)` skips the row.
    unfoldable pub sync_kind :
        IndexerKind → List MappingRow → IndexerRow → SyncReport → Sync R SyncReport
    sync_kind cardigann mappings row report =
        sync_mapped app.sync_level (mapping_of mappings row) row report
    sync_kind _ mappings row report = pure (
        skip (row.name ++ codes ": no categories available for Newznab/Torznab indexers, skipped")
          report)

    unfoldable pub sync_rows : List MappingRow → List IndexerRow → SyncReport → Sync R SyncReport
    sync_rows mappings [] report = pure report
    sync_rows mappings (row ∷ rest) report = do
      report' ← sync_kind row.kind mappings row report
      sync_rows mappings rest report'

    -- The `if app.sync_level == SyncLevel::FullSync` block.
    unfoldable pub delete_pass : SyncLevel → List IndexerRow → List MappingRow → Sync R SyncReport
    delete_pass full_sync rows mappings = delete_stale rows mappings empty_report
    delete_pass _ rows mappings = pure empty_report

    unfoldable pub sync_enabled : Sync R SyncReport
    sync_enabled = do
      rows ← in_db (Indexers.list services.codec services.disk)
      mappings ← in_db (Mappings.for_app services.disk app.id)
      report ← delete_pass app.sync_level rows mappings
      sync_rows mappings (filter (λ row. row.enabled) rows) report

    unfoldable pub sync_at : SyncLevel → Sync R SyncReport
    sync_at disabled = pure empty_report
    sync_at _ = sync_enabled

    unfoldable pub sync_application : Sync R SyncReport
    unfolding sync_at
    sync_application = sync_at app.sync_level

  -- The result of each application's sync, beside its id.
  abbrev pub Results : Type 0
  Results = List (ℕ × Outcome SyncError SyncReport)

  abbrev pub prepend : ℕ × Outcome SyncError SyncReport → Results × World R → Results × World R
  prepend r (rs, w) = (r ∷ rs, w)

  unfoldable pub sync_each : Url → Text → List ApplicationRow → World R → Results × World R
  sync_each external_url instance_key [] w = ([], w)
  sync_each external_url instance_key (app ∷ rest) w =
      let (result, w') = sync_application app external_url instance_key w in
      prepend (app.id, result) (sync_each external_url instance_key rest w')

  -- `ApplicationRepo::list().await.unwrap_or_default()`, then each application in turn.
  abbrev pub or_default : {E A : Type 0} → Outcome E (List A) → List A
  or_default (ok xs) = xs
  or_default (err e) = []

  unfoldable pub sync_all : Url → Text → World R → Results × World R
  unfolding sync_each
  sync_all external_url instance_key w =
      let (apps, w') = in_db {R = R} (Applications.list services.codec services.disk) w in
      sync_each external_url instance_key (or_default apps) w'
