-- ===== src/Sync/Outcomes.antt =====
-- The passes of `sync_application`: which indexers are mapped after each.
use oxidarr.Common.{
  ℕ, ◌≡◌, refl, ◌∙◌, sym, ap, Text, Bool, true, not, ◌&&◌, ◌||◌, List, [], ◌∷◌, arith, filter, ◌==◌,
  ==_refl, All, All-of-mem, filter-mem, any-of-mem,
}
use oxidarr.Common.NoTwo.{All-imp}
use oxidarr.Common.Outcome.{Outcome, ok, err}
use oxidarr.Common.Act.{Yields, Yields-pure, Yields-bind, Yields-imp, Yields-if, Yields-all}
use oxidarr.Db.Kinds.{SyncLevel, disabled, add_only, full_sync}
use oxidarr.Db.Rows.{IndexerRow, ApplicationRow, MappingRow}
use oxidarr.Db.Indexers as Indexers
use oxidarr.Db.Mappings as Mappings
use oxidarr.Db.Mappings.Held.{delete-holds, for_app-holds}
use oxidarr.Db.Statements.{list_keeps}
use oxidarr.Http.{Url}
use oxidarr.Sync.World.{Services, World, SyncReport, SyncError, empty_report, in_db, Yields-in_db}
use oxidarr.Sync.OnTables.{delete_indexer-InWorld, read-InWorld}
use oxidarr.Sync.Mapped.{
  is_enabled, has_cardigann, lists, maps, same, quiet, unmoved, sync_kind-maps,
}
use oxidarr.Sync.Report.{rows_at}
use oxidarr.Sync.Run.{still_enabled, delete_one, delete_stale, sync_rows, delete_pass, sync_enabled}

is_enabled-same :
    (rows : List IndexerRow) (i j : ℕ) → (i == j) ≡ true → is_enabled rows i ≡ is_enabled rows j
is_enabled-same [] i j e = refl
is_enabled-same (row ∷ rest) i j e = ground (arith, is_enabled-same rest i j)

-- What the pass that deletes leaves of a mapping, by the sync level.
abbrev pub kept : SyncLevel → List IndexerRow → ℕ → Bool → Bool
kept full_sync rows indexer before = before && is_enabled rows indexer
kept _ rows indexer before = before

kept_enabled :
    (level : SyncLevel) (rows : List IndexerRow) (indexer : ℕ) (before : Bool)
    → is_enabled rows indexer ≡ true
    → kept level rows indexer before ≡ before
kept_enabled full_sync rows indexer before e = ground (arith, e)
kept_enabled add_only rows indexer before e = refl
kept_enabled disabled rows indexer before e = refl

-- Whether an indexer is mapped after a sync: at every level if it is an enabled Cardigann indexer,
-- and otherwise if it was mapped before and, at full sync, is enabled.
abbrev pub mapped_after : SyncLevel → List IndexerRow → ℕ → Bool → Bool
mapped_after level rows indexer before =
    has_cardigann (filter (λ row. row.enabled) rows) indexer || kept level rows indexer before

module _ {R : Type 0} (services : Services R) (app : ApplicationRow) (external_url : Url)
    (instance_key : Text) where
  -- Each listed mapping of a row of the list is in the table.
  abbrev Known : List MappingRow → List IndexerRow → World R → Type 0
  Known ms rows w =
      All
        (λ row.
          lists ms row.id ≡ true → maps services app external_url instance_key w row.id ≡ true)
        rows

  sync_rows-maps :
      (ms : List MappingRow) (rows : List IndexerRow) (report : SyncReport) (indexer : ℕ)
      (w : World R)
      → Known ms rows w
      → Yields (sync_rows services app external_url instance_key ms rows report) w (λ r w'.
        maps services app external_url instance_key w' indexer
        ≡ (has_cardigann rows indexer || maps services app external_url instance_key w indexer))
  unfolding sync_rows
  sync_rows-maps ms [] report indexer w known = Yields-pure _ refl
  sync_rows-maps ms (row ∷ rest) report indexer w known =
      Yields-bind _ _
        (Yields-all _ w (λ i.
          sync_kind-maps services app external_url instance_key row.kind ms row report i w known.0))
        λ report1 w1 h.
          Yields-imp _
            (sync_rows-maps ms rest report1 indexer w1
              (All-imp _ _ rest (λ r there l. ground (arith, h r.id, there l)) known.1))
            λ r w2 k. ground (arith, h indexer, k)

  unmap-maps :
      (removed indexer : ℕ) (w : World R)
      → Yields (in_db (Mappings.delete services.disk app.id removed)) w (λ _ w'.
        maps services app external_url instance_key w' indexer ≡ (
          not (app.id == app.id && removed == indexer)
          && maps services app external_url instance_key w indexer))
  unmap-maps removed indexer w =
      Yields-in_db _ w (delete-holds services.disk w.conn app.id removed app.id indexer)

  delete_one-maps :
      (rows : List IndexerRow) (m : MappingRow) (report : SyncReport) (indexer : ℕ) (w : World R)
      → Yields (delete_one services app external_url instance_key rows m report) w (λ r w'.
        maps services app external_url instance_key w' indexer ≡ (
          maps services app external_url instance_key w indexer
          && (is_enabled rows indexer || not (m.indexer_id == indexer))))
  unfolding delete_one still_enabled
  delete_one-maps rows m report indexer w =
      Yields-if (still_enabled rows m) _ _
        (λ e. Yields-pure _ (ground (arith, e, is_enabled-same rows m.indexer_id indexer)))
        (λ e.
          Yields-bind _ _
            (quiet services app external_url instance_key _ w
              (delete_indexer-InWorld same services app m.remote_indexer_id))
            λ _ w1 f. Yields-bind _ _ (unmap-maps m.indexer_id indexer w1) λ _ w2 h. Yields-pure _ (
              ground (
                arith,
                e,
                h,
                unmoved services app external_url instance_key w w1 f indexer,
                is_enabled-same rows m.indexer_id indexer,
                ==_refl app.id,
              )))

  delete_stale-maps :
      (rows : List IndexerRow) (ms : List MappingRow) (report : SyncReport) (indexer : ℕ)
      (w : World R)
      → Yields (delete_stale services app external_url instance_key rows ms report) w (λ r w'.
        maps services app external_url instance_key w' indexer ≡ (
          maps services app external_url instance_key w indexer
          && (is_enabled rows indexer || not (lists ms indexer))))
  unfolding delete_stale
  delete_stale-maps rows [] report indexer w = Yields-pure _ (ground arith)
  delete_stale-maps rows (m ∷ rest) report indexer w =
      Yields-bind _ _ (delete_one-maps rows m report indexer w) λ report1 w1 h.
        Yields-imp _ (delete_stale-maps rows rest report1 indexer w1) λ r w2 k. ground (arith, h, k)

  delete_pass-maps :
      (level : SyncLevel) (rows : List IndexerRow) (ms : List MappingRow) (indexer : ℕ)
      (w : World R)
      → lists ms indexer ≡ maps services app external_url instance_key w indexer
      → Yields (delete_pass services app external_url instance_key level rows ms) w (λ r w'.
        maps services app external_url instance_key w' indexer
        ≡ kept level rows indexer (maps services app external_url instance_key w indexer))
  unfolding delete_pass
  delete_pass-maps full_sync rows ms indexer w listed =
      Yields-imp _ (delete_stale-maps rows ms empty_report indexer w)
        λ r w' h. ground (arith, h, listed)
  delete_pass-maps add_only rows ms indexer w listed = Yields-pure _ refl
  delete_pass-maps disabled rows ms indexer w listed = Yields-pure _ refl

  enabled-Known :
      (level : SyncLevel) (rows : List IndexerRow) (ms : List MappingRow) (w w' : World R)
      → ((i : ℕ) → lists ms i ≡ maps services app external_url instance_key w i)
      → ((i : ℕ)
          → maps services app external_url instance_key w' i
            ≡ kept level rows i (maps services app external_url instance_key w i))
      → Known ms (filter (λ row. row.enabled) rows) w'
  enabled-Known level rows ms w w' listed after =
      All-of-mem _ (filter (λ row. row.enabled) rows) λ row m l.
        let (there, on) = filter-mem (λ r. r.enabled) rows m in
        let enabled : is_enabled rows row.id ≡ true =
          any-of-mem (λ r. r.id == row.id && r.enabled) rows there
            (ground (arith, on, ==_refl row.id)) in
        after row.id ∙ kept_enabled level rows row.id _ enabled ∙ sym (listed row.id) ∙ l

  -- The two queries at the start.
  rows_read :
      (w : World R)
      → Yields (in_db (Indexers.list services.codec services.disk)) w (λ rows w'.
        (in_db (Indexers.list services.codec services.disk) w ≡ (ok rows, w'))
        × (w'.conn.tables ≡ w.conn.tables))
  rows_read w = record {
    at = λ rows w' e. (
      e,
      (quiet services app external_url instance_key _ w
            (read-InWorld same _ (list_keeps services.disk services.codec))).at
          rows w' e,
    );
  }

  mappings_read :
      (w : World R)
      → Yields (in_db (Mappings.for_app services.disk app.id)) w (λ ms w'.
        (w'.conn.tables ≡ w.conn.tables)
        × ((i : ℕ) → lists ms i ≡ maps services app external_url instance_key w i))
  mappings_read w = Yields-in_db _ w (for_app-holds services.disk w.conn app.id)

  pub sync_enabled-maps :
      (indexer : ℕ) (w : World R)
      → Yields (sync_enabled services app external_url instance_key) w (λ r w'.
        maps services app external_url instance_key w' indexer
        ≡ mapped_after app.sync_level
            (rows_at services app external_url instance_key w)
            indexer
            (maps services app external_url instance_key w indexer))
  unfolding sync_enabled
  sync_enabled-maps indexer w = Yields-bind _ _ (rows_read w) λ rows w1 (e, same1).
      Yields-bind _ _ (mappings_read w1) λ ms w2 (same2, listed).
        Yields-bind _ _
          (Yields-all _ w2 (λ i.
            delete_pass-maps app.sync_level rows ms i w2
              (listed i ∙ sym (unmoved services app external_url instance_key w1 w2 same2 i))))
          λ report1 w3 h.
            Yields-imp _
              (sync_rows-maps ms (filter (λ row. row.enabled) rows) report1 indexer w3 (
                enabled-Known app.sync_level rows ms w2 w3
                  (λ i.
                    listed i ∙ sym (unmoved services app external_url instance_key w1 w2 same2 i))
                  h))
              λ r w4 k.
                k
                ∙ ap (λ b. has_cardigann (filter (λ row. row.enabled) rows) indexer || b)
                    (h indexer
                      ∙ ap (kept app.sync_level rows indexer) (
                          unmoved services app external_url instance_key w1 w2 same2 indexer
                          ∙ unmoved services app external_url instance_key w w1 same1 indexer))
                ∙ ap
                    (λ rs.
                      mapped_after app.sync_level rs indexer
                        (maps services app external_url instance_key w indexer))
                    (sym (ap listed_rows e))
    where
      listed_rows : Outcome SyncError (List IndexerRow) × World R → List IndexerRow
      listed_rows (ok rows, w) = rows
      listed_rows (err x, w) = []
