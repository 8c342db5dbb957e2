-- ===== src/Db/Mappings/View.antt =====
-- The mapping table as a partial function: to each application and indexer, the remote id.
use oxidarr.Common.{
  ℕ, ◌≡◌, refl, false, not, ◌&&◌, Option, none, some, List, [], ◌∷◌, ◌++◌, any, filter, ◌==◌, arith,
  if◌then◌else◌,
}
use oxidarr.Common.Int.{ℤ}
use oxidarr.Common.Outcome.{ok}
use oxidarr.Db.Rows.{StoredMapping, MappingRow}
use oxidarr.Db.Conn.{Tables}
use oxidarr.Db.Mappings.{is_pair, overwrite, to_stored, upsert}

abbrev pub remote_id : List StoredMapping → ℕ → ℕ → Option ℤ
remote_id [] app indexer = none
remote_id (m ∷ rest) app indexer =
    if is_pair app indexer m then some m.remote_indexer_id else remote_id rest app indexer

-- The function with one value written.
abbrev pub written : MappingRow → List StoredMapping → ℕ → ℕ → Option ℤ
written row ms app indexer =
    if row.app_id == app && row.indexer_id == indexer
    then some row.remote_indexer_id
    else remote_id ms app indexer

-- Overwriting touches the row of the pair, if there is one, and no other pair.
remote_id-overwrite :
    (row : MappingRow) (ms : List StoredMapping) (app indexer : ℕ)
    → remote_id (overwrite row ms) app indexer ≡ (
        if any (is_pair row.app_id row.indexer_id) ms
        then written row ms app indexer
        else remote_id ms app indexer)
unfolding overwrite
remote_id-overwrite row [] app indexer = refl
remote_id-overwrite row (m ∷ rest) app indexer =
    ground (arith, remote_id-overwrite row rest app indexer)

remote_id-append :
    (row : MappingRow) (ms : List StoredMapping) (app indexer : ℕ)
    → any (is_pair row.app_id row.indexer_id) ms ≡ false
    → remote_id (ms ++ to_stored row ∷ []) app indexer ≡ written row ms app indexer
remote_id-append row [] app indexer h = refl
remote_id-append row (m ∷ rest) app indexer h =
    ground (arith, remote_id-append row rest app indexer)

-- A successful `set` writes the function at its pair: a new remote id replaces the old one.
pub remote_id-upsert :
    (row : MappingRow) (t : Tables) {u : Unit {0}} {t' : Tables} (app indexer : ℕ)
    → upsert row t ≡ ok (u, t')
    → remote_id t'.mappings app indexer ≡ written row t.mappings app indexer
unfolding upsert
remote_id-upsert row t app indexer h = ground (
  arith,
  h,
  remote_id-overwrite row t.mappings app indexer,
  remote_id-append row t.mappings app indexer,
)

-- `delete` clears the function at its pair, and nowhere else.
pub remote_id-remove_pair :
    (app' indexer' : ℕ) (ms : List StoredMapping) (app indexer : ℕ)
    → remote_id (filter (λ m. not (is_pair app' indexer' m)) ms) app indexer
      ≡ (if app' == app && indexer' == indexer then none else remote_id ms app indexer)
remote_id-remove_pair app' indexer' [] app indexer = ground arith
remote_id-remove_pair app' indexer' (m ∷ rest) app indexer =
    ground (arith, remote_id-remove_pair app' indexer' rest app indexer)
