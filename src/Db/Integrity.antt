-- ===== src/Db/Integrity.antt =====
-- The invariant of the tables of crates/oxidarr-db/migrations, and that each statement of the
-- repositories keeps it.
pub mod Indexers
pub mod Applications
use oxidarr.Common.{
  ℕ, suc, ◌+◌, ◌≤◌, ◌≡◌, refl, String, Bool, true, false, not, ◌&&◌, ◌||◌, List, [], ◌∷◌, ◌++◌, map,
  any, filter, length, All, All-append, arith, ◌==◌, ==_iff, Text, text_eq, if◌then◌else◌,
  Bool-cases, inl, inr, subst,
}
use oxidarr.Common.Unique.{any-append, any-filter}
use oxidarr.Common.NoTwo.{
  NoTwo, any-filter-false, NoTwo-filter, NoTwo-append, NoTwo-map, All-filter, All-imp, All-map,
  NoTwo-rename,
}
use oxidarr.Common.Int.{ℤ}
use oxidarr.Common.Outcome.{Outcome, ok, err}
use oxidarr.Db.Kinds.{SqlxError}
use oxidarr.Db.Rows.{
  StoredIndexer, StoredApplication, StoredMapping, MappingRow, NewIndexer, IndexerRow,
  NewApplication, ApplicationRow,
}
use oxidarr.Db.Conn.{Tables}
use oxidarr.Db.Mappings.{is_pair, has_app, has_indexer, upsert, remove_pair, overwrite, to_stored}

abbrev pub same_pair : StoredMapping → StoredMapping → Bool
same_pair m = is_pair m.app_id m.indexer_id

abbrev pub same_indexer : StoredIndexer → StoredIndexer → Bool
same_indexer r s = s.id == r.id

abbrev pub same_application : StoredApplication → StoredApplication → Bool
same_application r s = s.id == r.id

abbrev pub Linked : Tables → StoredMapping → Type 0
Linked t m = (has_app t m.app_id ≡ true) × (has_indexer t m.indexer_id ≡ true)

-- Ids and names are unique, no id is above its AUTOINCREMENT counter, a pair has one mapping, and
-- each mapping names an application and an indexer that are there.
pub record IsIntact (t : Tables) : Type 0 where
  pub indexer_ids : NoTwo same_indexer t.indexers
  pub indexer_bound : All (λ r. r.id ≤ t.last_indexer) t.indexers
  pub indexer_names : NoTwo (λ r s. text_eq s.name r.name) t.indexers
  pub application_ids : NoTwo same_application t.applications
  pub application_bound : All (λ r. r.id ≤ t.last_application) t.applications
  pub application_names : NoTwo (λ r s. text_eq s.name r.name) t.applications
  pub pairs : NoTwo same_pair t.mappings
  pub links : All (Linked t) t.mappings

any-overwrite :
    (row : MappingRow) (app indexer : ℕ) (ms : List StoredMapping)
    → any (is_pair app indexer) (overwrite row ms) ≡ any (is_pair app indexer) ms
unfolding overwrite
any-overwrite row app indexer [] = refl
any-overwrite row app indexer (m ∷ rest) = ground (arith, any-overwrite row app indexer rest)

NoTwo-overwrite :
    (row : MappingRow) (ms : List StoredMapping)
    → NoTwo same_pair ms
    → NoTwo same_pair (overwrite row ms)
unfolding overwrite
NoTwo-overwrite row [] d = tt
NoTwo-overwrite row (m ∷ rest) d =
    ground (arith, any-overwrite row m.app_id m.indexer_id rest, NoTwo-overwrite row rest d.1)

All-overwrite :
    (t : Tables) (row : MappingRow) (ms : List StoredMapping)
    → All (Linked t) ms
    → All (Linked t) (overwrite row ms)
unfolding overwrite
All-overwrite t row [] a = tt
All-overwrite t row (m ∷ rest) a = ground (arith, All-overwrite t row rest a.1)

appended_pair :
    (row : MappingRow) (ms : List StoredMapping)
    → any (is_pair row.app_id row.indexer_id) ms ≡ false
    → any (λ m. same_pair m (to_stored row)) ms ≡ false
appended_pair row [] h = refl
appended_pair row (m ∷ rest) h = ground (arith, appended_pair row rest)

-- `MappingRepo::set` keeps the invariant: a new row needs both of the rows that it refers to.
pub upsert-IsIntact :
    (row : MappingRow) (t : Tables) (u : Unit {0}) (t' : Tables)
    → IsIntact t
    → upsert row t ≡ ok (u, t')
    → IsIntact t'
unfolding upsert
upsert-IsIntact row t u t' i h =
    elim (Bool-cases (any (is_pair row.app_id row.indexer_id) t.mappings)) [
      | inl e ↦ subst IsIntact (ground (arith, h, e)) (
          rebuilt (overwrite row t.mappings) (NoTwo-overwrite row t.mappings i.pairs)
            (All-overwrite t row t.mappings i.links))
      | inr e ↦ elim (Bool-cases (has_app t row.app_id && has_indexer t row.indexer_id)) [
        | inl there ↦ subst IsIntact (ground (arith, h, e, there)) (
            rebuilt (t.mappings ++ to_stored row ∷ [])
              (NoTwo-append same_pair t.mappings (to_stored row) i.pairs
                (appended_pair row t.mappings e))
              (All-append (Linked t) t.mappings (to_stored row ∷ []) i.links
                (ground (arith, there))))
        | inr missing ↦ absurd (ground (arith, h, e, missing))
      ]
    ]
  where
    rebuilt :
        (ms : List StoredMapping)
        → NoTwo same_pair ms
        → All (Linked t) ms
        → IsIntact (record t { mappings = ms })
    rebuilt ms d a = record {
      indexer_ids = i.indexer_ids;
      indexer_bound = i.indexer_bound;
      indexer_names = i.indexer_names;
      application_ids = i.application_ids;
      application_bound = i.application_bound;
      application_names = i.application_names;
      pairs = d;
      links = a;
    }

-- `MappingRepo::delete` keeps the invariant.
pub remove_pair-IsIntact :
    (app indexer : ℕ) (t : Tables) (u : Unit {0}) (t' : Tables)
    → IsIntact t
    → remove_pair app indexer t ≡ ok (u, t')
    → IsIntact t'
unfolding remove_pair
remove_pair-IsIntact app indexer t u t' i h =
    subst IsIntact
      {x = record t { mappings = filter (λ m. not (is_pair app indexer m)) t.mappings }}
      (ground (arith, h))
      (record {
        indexer_ids = i.indexer_ids;
        indexer_bound = i.indexer_bound;
        indexer_names = i.indexer_names;
        application_ids = i.application_ids;
        application_bound = i.application_bound;
        application_names = i.application_names;
        pairs = NoTwo-filter same_pair (λ m. not (is_pair app indexer m)) t.mappings i.pairs;
        links = All-filter (Linked t) (Linked t) _ t.mappings (λ m l _. l) i.links;
      })
