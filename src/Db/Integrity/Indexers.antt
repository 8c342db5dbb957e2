-- ===== src/Db/Integrity/Indexers.antt =====
-- `IndexerRepo`: that each of its statements keeps the invariant of the tables.
use oxidarr.Common.{
  ℕ, suc, ◌≤◌, ◌≡◌, refl, String, true, false, not, List, [], ◌∷◌, ◌++◌, map, any, filter, length,
  All, All-append, arith, ◌==◌, Text, text_eq, if◌then◌else◌, Bool-cases, inl, inr, subst,
  text_eq_sym,
}
use oxidarr.Common.Unique.{any-append}
use oxidarr.Common.NoTwo.{
  NoTwo-filter, NoTwo-append, NoTwo-map, All-filter, All-imp, All-map, NoTwo-rename,
}
use oxidarr.Common.Outcome.{ok}
use oxidarr.Db.Rows.{StoredIndexer, StoredMapping, NewIndexer, IndexerRow}
use oxidarr.Db.Conn.{Tables}
use oxidarr.Db.Mappings.{has_indexer}
use oxidarr.Db.Indexers.{
  has_id, takes_name, new_row, rewrite_row, insert_row, update_row, delete_row,
}
use oxidarr.Db.Integrity.{IsIntact, Linked, same_pair, same_indexer}

fresh_id :
    (id : ℕ) (bound : ℕ) (rows : List StoredIndexer)
    → All (λ r. r.id ≤ bound) rows
    → suc bound ≤ id
    → any (λ r. id == r.id) rows ≡ false
fresh_id id bound [] h lt = refl
fresh_id id bound (r ∷ rest) h lt = ground (arith, fresh_id id bound rest h.1)

name_free :
    (n : Text) (rows : List StoredIndexer)
    → any (λ r. text_eq r.name n) rows ≡ false
    → any (λ r. text_eq n r.name) rows ≡ false
name_free n [] h = refl
name_free n (r ∷ rest) h = ground (arith, text_eq_sym n r.name, name_free n rest)

-- `insert` keeps the invariant, and the id that it assigns was no row's.
pub insert_row-IsIntact :
    (new : NewIndexer) (settings : String) (added : String) (t : Tables) (id : ℕ) (t' : Tables)
    → IsIntact t
    → insert_row new settings added t ≡ ok (id, t')
    → IsIntact t' × (any (has_id id) t.indexers ≡ false)
unfolding insert_row
insert_row-IsIntact new settings added t id t' i h =
    elim (Bool-cases (any (λ r. text_eq r.name new.name) t.indexers)) [
      | inl taken ↦ absurd (ground (arith, h, taken))
      | inr free ↦ (
        subst IsIntact {x = grown} (ground (arith, h, free)) (record {
          indexer_ids = NoTwo-append same_indexer t.indexers row i.indexer_ids (
              fresh_id (suc t.last_indexer) t.last_indexer t.indexers i.indexer_bound
                (omega arith));
          indexer_bound =
              All-append (λ r. r.id ≤ suc t.last_indexer) t.indexers (row ∷ [])
                (All-imp (λ r. r.id ≤ t.last_indexer) _ t.indexers (λ r le. omega arith)
                  i.indexer_bound)
                (omega arith);
          indexer_names =
              NoTwo-append (λ r s. text_eq s.name r.name) t.indexers row i.indexer_names
                (name_free new.name t.indexers free);
          application_ids = i.application_ids;
          application_bound = i.application_bound;
          application_names = i.application_names;
          pairs = i.pairs;
          links =
              All-imp (Linked t) (Linked grown) t.mappings
                (λ m l. (
                  l.0,
                  ground (arith, l.1, any-append (λ r. r.id == m.indexer_id) t.indexers (row ∷ [])),
                ))
                i.links;
        }),
        rw (assigned free) (no_row t.indexers i.indexer_bound),
      )
    ]
  where
    row : StoredIndexer
    row = new_row new settings added (suc t.last_indexer)

    grown : Tables
    grown = record t { indexers = t.indexers ++ row ∷ []; last_indexer = suc t.last_indexer }

    assigned : any (λ r. text_eq r.name new.name) t.indexers ≡ false → id ≡ suc t.last_indexer
    assigned free = ground (arith, h, free)

    no_row :
        (rows : List StoredIndexer)
        → All (λ r. r.id ≤ t.last_indexer) rows
        → any (has_id (suc t.last_indexer)) rows ≡ false
    no_row [] a = refl
    no_row (r ∷ rest) a = ground (arith, no_row rest a.1)

-- `delete` keeps the invariant: the mappings of the row go with it.
pub delete_row-IsIntact :
    (id : ℕ) (t : Tables) (n : ℕ) (t' : Tables)
    → IsIntact t
    → delete_row id t ≡ ok (n, t')
    → IsIntact t'
unfolding delete_row
delete_row-IsIntact id t n t' i h = subst IsIntact {x = shrunk} (ground (arith, h)) (record {
  indexer_ids = NoTwo-filter same_indexer _ t.indexers i.indexer_ids;
  indexer_bound =
      All-filter (λ r. r.id ≤ t.last_indexer) _ _ t.indexers (λ r le _. le) i.indexer_bound;
  indexer_names = NoTwo-filter (λ r s. text_eq s.name r.name) _ t.indexers i.indexer_names;
  application_ids = i.application_ids;
  application_bound = i.application_bound;
  application_names = i.application_names;
  pairs = NoTwo-filter same_pair _ t.mappings i.pairs;
  links =
      All-filter (Linked t) (Linked shrunk) _ t.mappings (λ m l kept. (l.0, still m l.1 kept))
        i.links;
})
  where
    shrunk : Tables
    shrunk = record t {
      indexers = filter (λ r. not (has_id id r)) t.indexers;
      mappings = filter (λ m. not (m.indexer_id == id)) t.mappings;
    }

    found_elsewhere :
        (key : ℕ) (rows : List StoredIndexer)
        → (key == id) ≡ false
        → any (λ r. r.id == key) rows ≡ true
        → any (λ r. r.id == key) (filter (λ r. not (has_id id r)) rows) ≡ true
    found_elsewhere key [] ne e = cc
    found_elsewhere key (r ∷ rest) ne e = ground (arith, found_elsewhere key rest ne)

    still :
        (m : StoredMapping)
        → has_indexer t m.indexer_id ≡ true
        → not (m.indexer_id == id) ≡ true
        → has_indexer shrunk m.indexer_id ≡ true
    still m there kept = found_elsewhere m.indexer_id t.indexers (ground (arith, kept)) there

-- `update` keeps the invariant: the new name is no other row's.
pub update_row-IsIntact :
    (row : IndexerRow) (settings : String) (t : Tables) (n : ℕ) (t' : Tables)
    → IsIntact t
    → update_row row settings t ≡ ok (n, t')
    → IsIntact t'
unfolding update_row
update_row-IsIntact row settings t n t' i h =
    elim (Bool-cases (length (filter (has_id row.id) t.indexers) == 0)) [
      | inl nothing ↦ subst IsIntact (ground (arith, h, nothing)) i
      | inr some_row ↦ elim (Bool-cases (any (takes_name row.id row.name) t.indexers)) [
        | inl taken ↦ absurd (ground (arith, h, some_row, taken))
        | inr free ↦ subst IsIntact {x = changed} (ground (arith, h, some_row, free)) (record {
          indexer_ids =
              NoTwo-map same_indexer change t.indexers (λ r s. rw (keeps_id r, keeps_id s) refl)
                i.indexer_ids;
          indexer_bound =
              All-map (λ r. r.id ≤ t.last_indexer) change t.indexers
                (All-imp (λ r. r.id ≤ t.last_indexer) _ t.indexers (λ r le. rw (keeps_id r) le)
                  i.indexer_bound);
          indexer_names =
              NoTwo-rename (λ r. r.id) (λ r. r.name) row.id row.name change (λ r e. rw e refl)
                (λ r e. rw e refl) t.indexers i.indexer_ids i.indexer_names free;
          application_ids = i.application_ids;
          application_bound = i.application_bound;
          application_names = i.application_names;
          pairs = i.pairs;
          links =
              All-imp (Linked t) (Linked changed) t.mappings
                (λ m l. (l.0, still_there m.indexer_id t.indexers l.1)) i.links;
        })
      ]
    ]
  where
    change : StoredIndexer → StoredIndexer
    change r = if has_id row.id r then rewrite_row row settings r else r

    changed : Tables
    changed = record t { indexers = map change t.indexers }

    keeps_id : (r : StoredIndexer) → (change r).id ≡ r.id
    keeps_id r = ground arith

    still_there :
        (key : ℕ) (rows : List StoredIndexer)
        → any (λ r. r.id == key) rows ≡ true
        → any (λ r. r.id == key) (map change rows) ≡ true
    still_there key [] e = e
    still_there key (r ∷ rest) e = ground (arith, keeps_id r, still_there key rest)
