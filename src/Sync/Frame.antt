-- ===== src/Sync/Frame.antt =====
-- What a sync leaves alone in the database, whatever its outcome.
use oxidarr.Common.{none, Option, ◌==◌, if◌then◌else◌, ℕ, ◌≡◌, refl, ◌∙◌, Text, arith, ◌==◌}
use oxidarr.Common.Int.{ℤ}
use oxidarr.Common.Outcome.{ok}
use oxidarr.Common.Act.{IsPreorder}
use oxidarr.Db.Rows.{ApplicationRow, MappingRow}
use oxidarr.Db.Conn.{Tables}
use oxidarr.Db.Mappings.{upsert, remove_pair}
use oxidarr.Db.Mappings.View.{remote_id, remote_id-upsert, remote_id-remove_pair}
use oxidarr.Db.Integrity.{IsIntact, upsert-IsIntact, remove_pair-IsIntact}
use oxidarr.Http.{Url}
use oxidarr.Sync.World.{Services, World}
use oxidarr.Sync.Run.{sync_application}
use oxidarr.Sync.OnTables.{sync_application-InWorld}

-- The mappings of every application but one.
abbrev pub other_remote_id : ℕ → Tables → ℕ → ℕ → Option ℤ
other_remote_id app t other indexer =
    if app == other then none else remote_id t.mappings other indexer

-- The tables differ in the mappings of one application at most.
pub record OnlyMappingsOf (app : ℕ) (t t' : Tables) : Type 0 where
  pub indexers : t'.indexers ≡ t.indexers
  pub applications : t'.applications ≡ t.applications
  pub config : t'.config ≡ t.config
  pub last_indexer : t'.last_indexer ≡ t.last_indexer
  pub last_application : t'.last_application ≡ t.last_application
  pub others :
      (other indexer : ℕ)
      → other_remote_id app t' other indexer ≡ other_remote_id app t other indexer

OnlyMappingsOf-IsPreorder : (app : ℕ) → IsPreorder (OnlyMappingsOf app)
OnlyMappingsOf-IsPreorder app = record {
  stay = λ t. record {
    indexers = refl;
    applications = refl;
    config = refl;
    last_indexer = refl;
    last_application = refl;
    others = λ other indexer. refl;
  };
  step = λ h k. record {
    indexers = k.indexers ∙ h.indexers;
    applications = k.applications ∙ h.applications;
    config = k.config ∙ h.config;
    last_indexer = k.last_indexer ∙ h.last_indexer;
    last_application = k.last_application ∙ h.last_application;
    others = λ other indexer. k.others other indexer ∙ h.others other indexer;
  };
}

upsert-OnlyMappingsOf :
    (row : MappingRow) (t : Tables) (u : Unit {0}) (t' : Tables)
    → upsert row t ≡ ok (u, t')
    → OnlyMappingsOf row.app_id t t'
unfolding upsert
upsert-OnlyMappingsOf row t u t' h = record {
  indexers = same.0;
  applications = same.1;
  config = same.2;
  last_indexer = same.3;
  last_application = same.4;
  others = λ other indexer. ground (arith, remote_id-upsert row t other indexer h);
}
  where
    same :
        (t'.indexers ≡ t.indexers)
        × (t'.applications ≡ t.applications)
        × (t'.config ≡ t.config)
        × (t'.last_indexer ≡ t.last_indexer)
        × (t'.last_application ≡ t.last_application)
    same = ground (arith, h)

remove_pair-OnlyMappingsOf :
    (app indexer : ℕ) (t : Tables) (u : Unit {0}) (t' : Tables)
    → remove_pair app indexer t ≡ ok (u, t')
    → OnlyMappingsOf app t t'
unfolding remove_pair
remove_pair-OnlyMappingsOf app indexer t u t' h = record {
  indexers = ground (arith, h);
  applications = ground (arith, h);
  config = ground (arith, h);
  last_indexer = ground (arith, h);
  last_application = ground (arith, h);
  others = λ other i. ground (arith, h, remote_id-remove_pair app indexer t.mappings other i);
}

module _ {R : Type 0} (services : Services R) (app : ApplicationRow) (external_url : Url)
    (instance_key : Text) where
  -- Whatever its outcome, a sync of an application leaves the indexers, the applications, the
  -- config and the id counters alone, and the mappings of every other application.
  pub sync_application-OnlyMappingsOf :
      (w : World R)
      → OnlyMappingsOf app.id w.conn.tables
          (sync_application services app external_url instance_key w).1.conn.tables
  sync_application-OnlyMappingsOf w =
      (sync_application-InWorld (OnlyMappingsOf-IsPreorder app.id) services app external_url
          instance_key (λ indexer remote. upsert-OnlyMappingsOf _)
          (λ indexer. remove_pair-OnlyMappingsOf app.id indexer)).at
        w

  -- Whatever its outcome, a sync keeps the invariant of the tables.
  pub sync_application-IsIntact :
      (w : World R)
      → IsIntact w.conn.tables
      → IsIntact (sync_application services app external_url instance_key w).1.conn.tables
  sync_application-IsIntact w =
      (sync_application-InWorld {P = λ t t'. IsIntact t → IsIntact t'}
          (record { stay = λ t i. i; step = λ h k i. k (h i) }) services app external_url
          instance_key (λ indexer remote t u t' e i. upsert-IsIntact _ t u t' i e)
          (λ indexer t u t' e i. remove_pair-IsIntact app.id indexer t u t' i e)).at
        w
