-- ===== src/Sync/Results.antt =====
-- `sync_application` and `sync_all`: the mappings and the report after a successful sync, a disabled
-- one, and the results of all.
use oxidarr.Common.{ℕ, ◌≡◌, ◌≢◌, refl, ◌∙◌, sym, ap, Text, List, [], ◌∷◌, map}
use oxidarr.Common.Outcome.{ok}
use oxidarr.Db.Kinds.{SyncLevel, disabled, add_only, full_sync}
use oxidarr.Db.Rows.{ApplicationRow}
use oxidarr.Http.{Url}
use oxidarr.Sync.World.{Services, World, SyncReport, empty_report, in_db}
use oxidarr.Sync.Mapped.{maps}
use oxidarr.Sync.Report.{Accounted, rows_at, sync_enabled-Accounted}
use oxidarr.Sync.Run.{sync_enabled, sync_at, sync_application, sync_each}
use oxidarr.Sync.Outcomes.{mapped_after, sync_enabled-maps}
use oxidarr.Sync.Run.{or_default, sync_all}
use oxidarr.Db.Applications as Applications

module _ {R : Type 0} (services : Services R) (app : ApplicationRow) (external_url : Url)
    (instance_key : Text) where
  enabled_level :
      (level : SyncLevel)
      → level ≢ disabled
      → sync_at services app external_url instance_key level
        ≡ sync_enabled services app external_url instance_key
  unfolding sync_at
  enabled_level full_sync on = refl
  enabled_level add_only on = refl
  enabled_level disabled on = absurd (on refl)

  runs_enabled :
      (w : World R)
      → app.sync_level ≢ disabled
      → sync_application services app external_url instance_key w
        ≡ sync_enabled services app external_url instance_key w
  unfolding sync_application
  runs_enabled w on = ap (λ f. f w) (enabled_level app.sync_level on)

  -- After a successful sync that is not disabled, an indexer is mapped to the application if it is
  -- an enabled Cardigann indexer, and otherwise just if it was mapped before and, at full sync, is
  -- enabled.
  pub sync_application-maps :
      (indexer : ℕ) (w : World R) (report : SyncReport) (w' : World R)
      → app.sync_level ≢ disabled
      → sync_application services app external_url instance_key w ≡ (ok report, w')
      → maps services app external_url instance_key w' indexer
        ≡ mapped_after app.sync_level
            (rows_at services app external_url instance_key w)
            indexer
            (maps services app external_url instance_key w indexer)
  sync_application-maps indexer w report w' on e =
      (sync_enabled-maps services app external_url instance_key indexer w).at report w'
        (sym (runs_enabled w on) ∙ e)

  -- The report of a successful sync that is not disabled accounts for every enabled indexer, once
  -- created, updated or skipped, and at full sync for every mapping of an indexer that is not
  -- enabled, deleted.
  pub sync_application-Accounted :
      (w : World R) (report : SyncReport) (w' : World R)
      → app.sync_level ≢ disabled
      → sync_application services app external_url instance_key w ≡ (ok report, w')
      → Accounted services app external_url instance_key w report
  sync_application-Accounted w report w' on e =
      (sync_enabled-Accounted services app external_url instance_key w).at report w'
        (sym (runs_enabled w on) ∙ e)

  -- A disabled application is not synced: the report is empty and nothing is read, sent or written.
  pub sync_application-disabled :
      (w : World R)
      → app.sync_level ≡ disabled
      → sync_application services app external_url instance_key w ≡ (ok empty_report, w)
  unfolding sync_application
  sync_application-disabled w e =
      ap (λ level. sync_at services app external_url instance_key level w) e ∙ idle
    where
      idle : sync_at services app external_url instance_key disabled w ≡ (ok empty_report, w)
      idle = refl

module _ {R : Type 0} (services : Services R) (external_url : Url) (instance_key : Text) where
  sync_each-ids :
      (apps : List ApplicationRow) (w : World R)
      → map (λ r. r.0) (sync_each services external_url instance_key apps w).0
        ≡ map (λ a. a.id) apps
  unfolding sync_each
  sync_each-ids [] w = refl
  sync_each-ids (app ∷ rest) w =
      ap (λ ids. app.id ∷ ids)
        (sync_each-ids rest (sync_application services app external_url instance_key w).1)

  -- `sync_all` gives one result for each application that it can list, in the order of the list,
  -- whatever the results are, and none when it cannot list them.
  pub sync_all-ids :
      (w : World R)
      → map (λ r. r.0) (sync_all services external_url instance_key w).0
        ≡ map
            (λ a. a.id)
            (or_default services
              (in_db {R = R} (Applications.list services.codec services.disk) w).0)
  unfolding sync_all
  sync_all-ids w = sync_each-ids _ _
