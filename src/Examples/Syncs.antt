-- ===== src/Examples/Syncs.antt =====
-- The theorems on the application sync, at that run.
use oxidarr.Common.{ℕ, ◌≡◌, ◌≢◌, codes, map}
use oxidarr.Db.Kinds.{disabled, full_sync}
use oxidarr.Db.Integrity.{IsIntact}
use oxidarr.Sync.World.{in_db}
use oxidarr.Sync.Run.{sync_all, or_default}
use oxidarr.Db.Applications as Applications
use oxidarr.Sync.Mapped.{maps}
use oxidarr.Sync.Report.{Accounted, rows_at}
use oxidarr.Sync.Outcomes.{mapped_after}
use oxidarr.Sync.Requests.{SendsOnly, IsSyncRequest}
use oxidarr.Sync.Requests as Requests
use oxidarr.Sync.Frame as Frame
use oxidarr.Sync.Frame.{OnlyMappingsOf}
use oxidarr.Sync.Results as Results
use oxidarr.Examples.Data.{services, world, tables-IsIntact, app_at, external_url}
use oxidarr.Examples.Run.{report, after, run_ok}

is_on : full_sync ≢ disabled
is_on e = cc

sync_application-maps_example :
    maps services (app_at full_sync) external_url (codes "k") after 2
    ≡ mapped_after full_sync
        (rows_at services (app_at full_sync) external_url (codes "k") world)
        2
        (maps services (app_at full_sync) external_url (codes "k") world 2)
sync_application-maps_example =
    Results.sync_application-maps services (app_at full_sync) external_url (codes "k") 2 world
      report after is_on run_ok

sync_application-Accounted_example :
    Accounted services (app_at full_sync) external_url (codes "k") world report
sync_application-Accounted_example =
    Results.sync_application-Accounted services (app_at full_sync) external_url (codes "k") world
      report after is_on run_ok

sync_all-ids_example :
    map (λ r. r.0) (sync_all services external_url (codes "k") world).0
    ≡ map
        (λ a. a.id)
        (or_default services
          (in_db {R = ℕ} (Applications.list services.codec services.disk) world).0)
sync_all-ids_example = Results.sync_all-ids services external_url (codes "k") world

sync_application-OnlyMappingsOf_example : OnlyMappingsOf 1 world.conn.tables after.conn.tables
sync_application-OnlyMappingsOf_example =
    Frame.sync_application-OnlyMappingsOf services (app_at full_sync) external_url (codes "k") world

sync_application-IsIntact_example : IsIntact after.conn.tables
sync_application-IsIntact_example =
    Frame.sync_application-IsIntact services (app_at full_sync) external_url (codes "k") world
      tables-IsIntact

sync_application-Sends_example : SendsOnly (IsSyncRequest services (app_at full_sync)) world after
sync_application-Sends_example =
    Requests.sync_application-Sends services (app_at full_sync) external_url (codes "k") world
