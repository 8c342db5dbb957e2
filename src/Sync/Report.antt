-- ===== src/Sync/Report.antt =====
-- What the report of a successful sync counts.
use oxidarr.Common.{
  ℕ, ◌+◌, ◌≡◌, refl, Text, Option, none, some, not, List, [], ◌∷◌, ◌++◌, arith, filter, length,
  if◌then◌else◌,
}
use oxidarr.Common.Outcome.{Outcome, ok, err}
use oxidarr.Common.Act.{
  pure, Yields, Yields-pure, Yields-bind, Yields-any, Yields-self, Yields-imp, Yields-if,
}
use oxidarr.Db.Kinds.{
  IndexerKind, cardigann, newznab, torznab, SyncLevel, disabled, add_only, full_sync,
}
use oxidarr.Db.Rows.{IndexerRow, ApplicationRow, MappingRow}
use oxidarr.Db.Indexers as Indexers
use oxidarr.Db.Mappings as Mappings
use oxidarr.Http.{Url}
use oxidarr.Sync.World.{Services, World, SyncReport, SyncError, empty_report, in_db}
use oxidarr.Sync.Payload.{build_indexer_payload}
use oxidarr.Sync.Remote.{put_indexer, delete_indexer}
use oxidarr.Sync.Run.{
  categories_for, post_and_map, after_put, skip, count_created, count_updated, count_deleted,
  still_enabled, delete_one, delete_stale, create, update, sync_mapped, sync_kind, sync_rows,
  delete_pass, sync_enabled,
}

-- The rows that a report accounts for.
abbrev pub handled : SyncReport → ℕ
handled report = report.created + report.updated + length report.skipped

length-append_one : (xs : List Text) (x : Text) → length (xs ++ x ∷ []) ≡ length xs + 1
length-append_one [] x = refl
length-append_one (y ∷ ys) x = ground (arith, length-append_one ys x)

-- So many more rows handled, and none deleted.
abbrev pub Counts : SyncReport → ℕ → SyncReport → Type 0
Counts before n after = (handled after ≡ handled before + n) × (after.deleted ≡ before.deleted)

-- So many more mappings deleted, and no row handled.
abbrev pub Deletes : SyncReport → ℕ → SyncReport → Type 0
Deletes before n after = (handled after ≡ handled before) × (after.deleted ≡ before.deleted + n)

module _ {R : Type 0} (services : Services R) (app : ApplicationRow) (external_url : Url)
    (instance_key : Text) where
  create-Counts :
      (row : IndexerRow) (report : SyncReport) (w : World R)
      → Yields
          (create services app external_url instance_key row report)
          w
          (λ report' w'. Counts report 1 report')
  unfolding create
  create-Counts row report w =
      Yields-bind _ _ (Yields-any (categories_for services row)) λ categories _ _.
        Yields-bind _ _
          (Yields-any (post_and_map services app external_url instance_key row categories))
          λ _ _ _. Yields-pure (count_created report) (ground arith)

  update-Counts :
      (row : IndexerRow) (mapping : MappingRow) (report : SyncReport) (w : World R)
      → Yields
          (update services app external_url instance_key row mapping report)
          w
          (λ report' w'. Counts report 1 report')
  unfolding update
  update-Counts row mapping report w =
      Yields-bind _ _ (Yields-any (categories_for services row)) λ categories _ _.
        Yields-bind _ _
          (Yields-any (
            put_indexer services app mapping.remote_indexer_id (
              build_indexer_payload row external_url instance_key categories
                (some mapping.remote_indexer_id))))
          λ resp _ _.
            Yields-bind _ _
              (Yields-any (after_put services app external_url instance_key row categories resp))
              λ _ _ _. Yields-pure (count_updated report) (ground arith)

  skip-Counts :
      (reason : Text) (report : SyncReport) (w : World R)
      → Yields {E = SyncError} (pure (skip reason report)) w (λ report' w'. Counts report 1 report')
  skip-Counts reason report w =
      Yields-pure (skip reason report) (ground (arith, length-append_one report.skipped reason))

  sync_mapped-Counts :
      (level : SyncLevel) (found : Option MappingRow) (row : IndexerRow) (report : SyncReport)
      (w : World R)
      → Yields
          (sync_mapped services app external_url instance_key level found row report)
          w
          (λ report' w'. Counts report 1 report')
  unfolding sync_mapped
  sync_mapped-Counts level none row report w = create-Counts row report w
  sync_mapped-Counts add_only (some m) row report w = skip-Counts _ report w
  sync_mapped-Counts full_sync (some m) row report w = update-Counts row m report w
  sync_mapped-Counts disabled (some m) row report w = update-Counts row m report w

  sync_kind-Counts :
      (kind : IndexerKind) (ms : List MappingRow) (row : IndexerRow) (report : SyncReport)
      (w : World R)
      → Yields
          (sync_kind services app external_url instance_key kind ms row report)
          w
          (λ report' w'. Counts report 1 report')
  unfolding sync_kind
  sync_kind-Counts cardigann ms row report w = sync_mapped-Counts _ _ row report w
  sync_kind-Counts newznab ms row report w = skip-Counts _ report w
  sync_kind-Counts torznab ms row report w = skip-Counts _ report w

  sync_rows-Counts :
      (ms : List MappingRow) (rows : List IndexerRow) (report : SyncReport) (w : World R)
      → Yields
          (sync_rows services app external_url instance_key ms rows report)
          w
          (λ report' w'. Counts report (length rows) report')
  unfolding sync_rows
  sync_rows-Counts ms [] report w = Yields-pure report (ground arith)
  sync_rows-Counts ms (row ∷ rest) report w =
      Yields-bind _ _ (sync_kind-Counts row.kind ms row report w) λ report1 w1 h.
        Yields-imp _ (sync_rows-Counts ms rest report1 w1) λ report2 w2 k. ground (arith, h, k)

  delete_one-Deletes :
      (rows : List IndexerRow) (m : MappingRow) (report : SyncReport) (w : World R)
      → Yields
          (delete_one services app external_url instance_key rows m report)
          w
          (λ report' w'. Deletes report (if still_enabled rows m then 0 else 1) report')
  unfolding delete_one
  delete_one-Deletes rows m report w =
      Yields-if (still_enabled rows m) _ _ (λ e. Yields-pure report (ground (arith, e)))
        (λ e.
          Yields-bind _ _ (Yields-any (delete_indexer services app m.remote_indexer_id)) λ _ _ _.
            Yields-bind _ _ (Yields-any (in_db (Mappings.delete services.disk app.id m.indexer_id)))
              λ _ _ _. Yields-pure (count_deleted report) (ground (arith, e)))

  delete_stale-Deletes :
      (rows : List IndexerRow) (ms : List MappingRow) (report : SyncReport) (w : World R)
      → Yields (delete_stale services app external_url instance_key rows ms report) w (λ report' w'.
        Deletes report (length (filter (λ m. not (still_enabled rows m)) ms)) report')
  unfolding delete_stale
  delete_stale-Deletes rows [] report w = Yields-pure report (ground arith)
  delete_stale-Deletes rows (m ∷ rest) report w =
      Yields-bind _ _ (delete_one-Deletes rows m report w) λ report1 w1 h.
        Yields-imp _ (delete_stale-Deletes rows rest report1 w1)
          λ report2 w2 k. ground (arith, h, k)

  -- How many mappings the pass that deletes removes.
  abbrev pub stale : SyncLevel → List IndexerRow → List MappingRow → ℕ
  stale full_sync rows ms = length (filter (λ m. not (still_enabled rows m)) ms)
  stale _ rows ms = 0

  delete_pass-Deletes :
      (level : SyncLevel) (rows : List IndexerRow) (ms : List MappingRow) (w : World R)
      → Yields
          (delete_pass services app external_url instance_key level rows ms)
          w
          (λ report' w'. Deletes empty_report (stale level rows ms) report')
  unfolding delete_pass
  delete_pass-Deletes full_sync rows ms w = delete_stale-Deletes rows ms _ w
  delete_pass-Deletes add_only rows ms w = Yields-pure empty_report (ground arith)
  delete_pass-Deletes disabled rows ms w = Yields-pure empty_report (ground arith)

  -- The two lists that a sync reads at its start.
  abbrev listed : Outcome SyncError (List IndexerRow) × World R → List IndexerRow
  listed (ok rows, w) = rows
  listed (err e, w) = []

  abbrev pub rows_at : World R → List IndexerRow
  rows_at w = listed (in_db (Indexers.list services.codec services.disk) w)

  abbrev mapped : Outcome SyncError (List MappingRow) × World R → List MappingRow
  mapped (ok ms, w) = ms
  mapped (err e, w) = []

  abbrev pub mappings_at : World R → List MappingRow
  mappings_at w = mapped (
      in_db {R = R} (Mappings.for_app services.disk app.id)
        (in_db (Indexers.list services.codec services.disk) w).1)

  -- The report accounts for every enabled indexer, and for every mapping that had none.
  pub record Accounted (w : World R) (report : SyncReport) : Type 0 where
    pub each_row : handled report ≡ length (filter (λ row. row.enabled) (rows_at w))
    pub each_stale : report.deleted ≡ stale app.sync_level (rows_at w) (mappings_at w)

  pub sync_enabled-Accounted :
      (w : World R)
      → Yields
          (sync_enabled services app external_url instance_key)
          w
          (λ report w'. Accounted w report)
  unfolding sync_enabled
  sync_enabled-Accounted w =
      Yields-bind _ _ (Yields-self (in_db (Indexers.list services.codec services.disk)))
        λ rows w1 e1.
          Yields-bind _ _ (Yields-self (in_db (Mappings.for_app services.disk app.id))) λ ms w2 e2.
            Yields-bind _ _ (delete_pass-Deletes app.sync_level rows ms w2) λ report1 w3 h.
              Yields-imp _ (sync_rows-Counts ms (filter (λ row. row.enabled) rows) report1 w3)
                λ report w4 k. record {
                  each_row = rw e1 (ground (arith, h, k));
                  each_stale = rw (e1, e2) (ground (arith, h, k));
                }
