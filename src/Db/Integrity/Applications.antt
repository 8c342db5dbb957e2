-- ===== src/Db/Integrity/Applications.antt =====
-- `ApplicationRepo`: that each of its statements keeps the invariant of the tables.
use oxidarr.Common.{
  ℕ, suc, ◌≤◌, ◌≡◌, refl, String, true, false, not, List, [], ◌∷◌, ◌++◌, map, any, filter, length,
  All, All-append, arith, ◌==◌, Text, text_eq, if◌then◌else◌, Bool-cases, inl, inr, subst,
  text_eq_sym,
}
use oxidarr.Common.Unique.{any-append}
use oxidarr.Common.NoTwo.{
  NoTwo-filter, NoTwo-append, NoTwo-map, All-filter, All-imp, All-map, NoTwo-rename,
}
use oxidarr.Common.Outcome.{ok}
use oxidarr.Db.Rows.{StoredApplication, StoredMapping, NewApplication, ApplicationRow}
use oxidarr.Db.Conn.{Tables}
use oxidarr.Db.Mappings.{has_app}
use oxidarr.Db.Applications.{
  has_id, takes_name, new_row, rewrite_row, insert_row, update_row, delete_row,
}
use oxidarr.Db.Integrity.{IsIntact, Linked, same_pair, same_application}

fresh_id :
    (id : ℕ) (bound : ℕ) (rows : List StoredApplication)
    → All (λ r. r.id ≤ bound) rows
    → suc bound ≤ id
    → any (λ r. id == r.id) rows ≡ false
fresh_id id bound [] h lt = refl
fresh_id id bound (r ∷ rest) h lt = ground (arith, fresh_id id bound rest h.1)

name_free :
    (n : Text) (rows : List StoredApplication)
    → any (λ r. text_eq r.name n) rows ≡ false
    → any (λ r. text_eq n r.name) rows ≡ false
name_free n [] h = refl
name_free n (r ∷ rest) h = ground (arith, text_eq_sym n r.name, name_free n rest)

-- `insert` keeps the invariant, and the id that it assigns was no row's.
pub insert_row-IsIntact :
    (new : NewApplication) (added : String) (t : Tables) (id : ℕ) (t' : Tables)
    → IsIntact t
    → insert_row new added t ≡ ok (id, t')
    → IsIntact t' × (any (has_id id) t.applications ≡ false)
unfolding insert_row
insert_row-IsIntact new added t id t' i h =
    elim (Bool-cases (any (λ r. text_eq r.name new.name) t.applications)) [
      | inl taken ↦ absurd (ground (arith, h, taken))
      | inr free ↦ (
        subst IsIntact {x = grown} (ground (arith, h, free)) (record {
          application_ids = NoTwo-append same_application t.applications row i.application_ids (
              fresh_id (suc t.last_application) t.last_application t.applications
                i.application_bound (omega arith));
          application_bound =
              All-append (λ r. r.id ≤ suc t.last_application) t.applications (row ∷ [])
                (All-imp (λ r. r.id ≤ t.last_application) _ t.applications (λ r le. omega arith)
                  i.application_bound)
                (omega arith);
          application_names =
              NoTwo-append (λ r s. text_eq s.name r.name) t.applications row i.application_names
                (name_free new.name t.applications free);
          indexer_ids = i.indexer_ids;
          indexer_bound = i.indexer_bound;
          indexer_names = i.indexer_names;
          pairs = i.pairs;
          links =
              All-imp (Linked t) (Linked grown) t.mappings
                (λ m l. (
                  ground (arith, l.0, any-append (λ r. r.id == m.app_id) t.applications (row ∷ [])),
                  l.1,
                ))
                i.links;
        }),
        rw (assigned free) (no_row t.applications i.application_bound),
      )
    ]
  where
    row : StoredApplication
    row = new_row new added (suc t.last_application)

    grown : Tables
    grown = record t {
      applications = t.applications ++ row ∷ [];
      last_application = suc t.last_application;
    }

    assigned :
        any (λ r. text_eq r.name new.name) t.applications ≡ false → id ≡ suc t.last_application
    assigned free = ground (arith, h, free)

    no_row :
        (rows : List StoredApplication)
        → All (λ r. r.id ≤ t.last_application) rows
        → any (has_id (suc t.last_application)) rows ≡ false
    no_row [] a = refl
    no_row (r ∷ rest) a = ground (arith, no_row rest a.1)

-- `delete` keeps the invariant: the mappings of the row go with it.
pub delete_row-IsIntact :
    (id : ℕ) (t : Tables) (n : ℕ) (t' : Tables)
    → IsIntact t
    → delete_row id t ≡ ok (n, t')
    → IsIntact t'
unfolding delete_row
delete_row-IsIntact id t n t' i h = subst IsIntact {x = shrunk} (ground (arith, h)) (record {
  application_ids = NoTwo-filter same_application _ t.applications i.application_ids;
  application_bound =
      All-filter (λ r. r.id ≤ t.last_application) _ _ t.applications (λ r le _. le)
        i.application_bound;
  application_names =
      NoTwo-filter (λ r s. text_eq s.name r.name) _ t.applications i.application_names;
  indexer_ids = i.indexer_ids;
  indexer_bound = i.indexer_bound;
  indexer_names = i.indexer_names;
  pairs = NoTwo-filter same_pair _ t.mappings i.pairs;
  links =
      All-filter (Linked t) (Linked shrunk) _ t.mappings (λ m l kept. (still m l.0 kept, l.1))
        i.links;
})
  where
    shrunk : Tables
    shrunk = record t {
      applications = filter (λ r. not (has_id id r)) t.applications;
      mappings = filter (λ m. not (m.app_id == id)) t.mappings;
    }

    found_elsewhere :
        (key : ℕ) (rows : List StoredApplication)
        → (key == id) ≡ false
        → any (λ r. r.id == key) rows ≡ true
        → any (λ r. r.id == key) (filter (λ r. not (has_id id r)) rows) ≡ true
    found_elsewhere key [] ne e = cc
    found_elsewhere key (r ∷ rest) ne e = ground (arith, found_elsewhere key rest ne)

    still :
        (m : StoredMapping)
        → has_app t m.app_id ≡ true
        → not (m.app_id == id) ≡ true
        → has_app shrunk m.app_id ≡ true
    still m there kept = found_elsewhere m.app_id t.applications (ground (arith, kept)) there

-- `update` keeps the invariant: the new name is no other row's.
pub update_row-IsIntact :
    (row : ApplicationRow) (t : Tables) (n : ℕ) (t' : Tables)
    → IsIntact t
    → update_row row t ≡ ok (n, t')
    → IsIntact t'
unfolding update_row
update_row-IsIntact row t n t' i h =
    elim (Bool-cases (length (filter (has_id row.id) t.applications) == 0)) [
      | inl nothing ↦ subst IsIntact (ground (arith, h, nothing)) i
      | inr some_row ↦ elim (Bool-cases (any (takes_name row.id row.name) t.applications)) [
        | inl taken ↦ absurd (ground (arith, h, some_row, taken))
        | inr free ↦ subst IsIntact {x = changed} (ground (arith, h, some_row, free)) (record {
          application_ids =
              NoTwo-map same_application change t.applications
                (λ r s. rw (keeps_id r, keeps_id s) refl) i.application_ids;
          application_bound =
              All-map (λ r. r.id ≤ t.last_application) change t.applications
                (All-imp (λ r. r.id ≤ t.last_application) _ t.applications
                  (λ r le. rw (keeps_id r) le) i.application_bound);
          application_names =
              NoTwo-rename (λ r. r.id) (λ r. r.name) row.id row.name change (λ r e. rw e refl)
                (λ r e. rw e refl) t.applications i.application_ids i.application_names free;
          indexer_ids = i.indexer_ids;
          indexer_bound = i.indexer_bound;
          indexer_names = i.indexer_names;
          pairs = i.pairs;
          links =
              All-imp (Linked t) (Linked changed) t.mappings
                (λ m l. (still_there m.app_id t.applications l.0, l.1)) i.links;
        })
      ]
    ]
  where
    change : StoredApplication → StoredApplication
    change r = if has_id row.id r then rewrite_row row r else r

    changed : Tables
    changed = record t { applications = map change t.applications }

    keeps_id : (r : StoredApplication) → (change r).id ≡ r.id
    keeps_id r = ground arith

    still_there :
        (key : ℕ) (rows : List StoredApplication)
        → any (λ r. r.id == key) rows ≡ true
        → any (λ r. r.id == key) (map change rows) ≡ true
    still_there key [] e = e
    still_there key (r ∷ rest) e = ground (arith, keeps_id r, still_there key rest)
