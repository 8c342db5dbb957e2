-- ===== src/Db/Mappings/Held.antt =====
-- Which pairs of an application and an indexer the mapping table holds.
use oxidarr.Common.{
  ℕ, ◌≡◌, refl, Bool, true, not, ◌&&◌, ◌||◌, List, [], ◌∷◌, any, filter, ◌==◌, arith, ◌∙◌, ap,
  subst,
}
use oxidarr.Common.Outcome.{ok, map_all, >>=-eq-ok}
use oxidarr.Common.Act.{Yields, Yields-bind, Yields-imp, Yields-lift}
use oxidarr.Common.Unique.{any-append}
use oxidarr.Db.Rows.{StoredMapping, MappingRow, row_to_mapping, row_id_to_i32, remote_id_to_i32}
use oxidarr.Db.Conn.{Tables, Conn, Disk, order_by, insert_by}
use oxidarr.Db.Statements.{statement-Yields}
use oxidarr.Db.Mappings.{is_pair, overwrite, to_stored, upsert, remove_pair, set, delete, for_app}

abbrev pub holds : Tables → ℕ → ℕ → Bool
holds t app indexer = any (is_pair app indexer) t.mappings

held-overwrite :
    (row : MappingRow) (ms : List StoredMapping) (app indexer : ℕ)
    → any (is_pair app indexer) (overwrite row ms) ≡ any (is_pair app indexer) ms
unfolding overwrite
held-overwrite row [] app indexer = refl
held-overwrite row (m ∷ rest) app indexer = ground (arith, held-overwrite row rest app indexer)

pair_found :
    (ms : List StoredMapping) (app indexer app' indexer' : ℕ)
    → (app == app' && indexer == indexer') ≡ true
    → any (is_pair app indexer) ms ≡ any (is_pair app' indexer') ms
pair_found [] app indexer app' indexer' h = refl
pair_found (m ∷ ms) app indexer app' indexer' h =
    ground (arith, pair_found ms app indexer app' indexer')

pub holds-upsert :
    (row : MappingRow) (t : Tables) (u : Unit {0}) (t' : Tables) (app indexer : ℕ)
    → upsert row t ≡ ok (u, t')
    → holds t' app indexer ≡ (row.app_id == app && row.indexer_id == indexer || holds t app indexer)
unfolding upsert
holds-upsert row t u t' app indexer h = ground (
  arith,
  h,
  held-overwrite row t.mappings app indexer,
  pair_found t.mappings row.app_id row.indexer_id app indexer,
  any-append (is_pair app indexer) t.mappings (to_stored row ∷ []),
)

pub holds-remove_pair :
    (app' indexer' : ℕ) (ms : List StoredMapping) (app indexer : ℕ)
    → any (is_pair app indexer) (filter (λ m. not (is_pair app' indexer' m)) ms)
      ≡ (not (app' == app && indexer' == indexer) && any (is_pair app indexer) ms)
holds-remove_pair app' indexer' [] app indexer = ground arith
holds-remove_pair app' indexer' (m ∷ rest) app indexer =
    ground (arith, holds-remove_pair app' indexer' rest app indexer)

any-insert_by :
    {A : Type 0} (key : A → ℕ) (p : A → Bool) (a : A) (xs : List A)
    → any p (insert_by key a xs) ≡ (p a || any p xs)
unfolding insert_by
any-insert_by key p a [] = refl
any-insert_by key p a (b ∷ xs) = ground (arith, any-insert_by key p a xs)

pub any-order_by :
    {A : Type 0} (key : A → ℕ) (p : A → Bool) (xs : List A) → any p (order_by key xs) ≡ any p xs
unfolding order_by
any-order_by key p [] = refl
any-order_by key p (a ∷ xs) =
    any-insert_by key p a (order_by key xs) ∙ ap (λ b. p a || b) (any-order_by key p xs)

any-filter_app :
    (app indexer : ℕ) (ms : List StoredMapping)
    → any (λ m. m.indexer_id == indexer) (filter (λ m. m.app_id == app) ms)
      ≡ any (is_pair app indexer) ms
any-filter_app app indexer [] = refl
any-filter_app app indexer (m ∷ ms) = ground (arith, any-filter_app app indexer ms)

same_indexer :
    (m : StoredMapping) (row : MappingRow)
    → row_to_mapping m ≡ ok row
    → row.indexer_id ≡ m.indexer_id
unfolding row_to_mapping row_id_to_i32 remote_id_to_i32
same_indexer m row h = ground (arith, h)

row_to_mapping-any :
    (indexer : ℕ) (ms : List StoredMapping) (rows : List MappingRow)
    → map_all row_to_mapping ms ≡ ok rows
    → any (λ m. m.indexer_id == indexer) rows ≡ any (λ m. m.indexer_id == indexer) ms
row_to_mapping-any indexer [] rows h = ground (arith, h)
row_to_mapping-any indexer (m ∷ ms) rows h =
    let (row, e, h1) = >>=-eq-ok (row_to_mapping m) _ h in
    let (rest, f, h2) = >>=-eq-ok (map_all row_to_mapping ms) _ h1 in
    ground (arith, h2, same_indexer m row e, row_to_mapping-any indexer ms rest f)

module _ (disk : Disk) (conn : Conn) where
  -- The mappings that a successful `for_app` lists are those that the table holds, and it only
  -- reads.
  pub for_app-holds :
      (app : ℕ)
      → Yields (for_app disk app) conn (λ rows c.
        (c.tables ≡ conn.tables)
        × ((indexer : ℕ) → any (λ m. m.indexer_id == indexer) rows ≡ holds conn.tables app indexer))
  unfolding for_app
  for_app-holds app =
      Yields-bind _ _ (statement-Yields disk (λ t. ok (selected t, t)) conn) λ stored c e.
        Yields-lift (map_all row_to_mapping stored) λ rows f. (
          ground (arith, e),
          λ indexer.
              row_to_mapping-any indexer stored rows f
              ∙ subst (λ xs. any (λ m. m.indexer_id == indexer) xs ≡ holds conn.tables app indexer)
                  {x = selected conn.tables} (ground (arith, e))
                  (any-order_by (λ m. m.indexer_id) (λ m. m.indexer_id == indexer)
                      (filter (λ m. m.app_id == app) conn.tables.mappings)
                    ∙ any-filter_app app indexer conn.tables.mappings),
        )
    where
      selected : Tables → List StoredMapping
      selected t = order_by (λ m. m.indexer_id) (filter (λ m. m.app_id == app) t.mappings)

  pub set-holds :
      (row : MappingRow) (app indexer : ℕ)
      → Yields (set disk row) conn (λ u c.
        holds c.tables app indexer
        ≡ (row.app_id == app && row.indexer_id == indexer || holds conn.tables app indexer))
  unfolding set
  set-holds row app indexer =
      Yields-imp _ (statement-Yields disk (upsert row) conn)
        λ u c e. holds-upsert row conn.tables u c.tables app indexer e

  pub delete-holds :
      (app' indexer' app indexer : ℕ)
      → Yields (delete disk app' indexer') conn (λ u c.
        holds c.tables app indexer
        ≡ (not (app' == app && indexer' == indexer) && holds conn.tables app indexer))
  unfolding delete remove_pair
  delete-holds app' indexer' app indexer =
      Yields-imp _ (statement-Yields disk (remove_pair app' indexer') conn)
        λ u c e. ground (arith, e, holds-remove_pair app' indexer' conn.tables.mappings app indexer)
