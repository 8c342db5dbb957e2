-- ===== src/Db/Mappings.antt =====
-- crates/oxidarr-db/src/mapping.rs: `MappingRepo`.
pub mod View
pub mod Held
use oxidarr.Common.{
  ℕ, Bool, true, false, ◌&&◌, not, ◌≡◌, refl, Option, none, some, List, [], ◌∷◌, ◌++◌, map, any,
  find, filter, ◌==◌, if◌then◌else◌,
}
use oxidarr.Common.Outcome.{Outcome, ok, err, map_all}
use oxidarr.Common.Act.{pure, lift, ◌>>=◌}
use oxidarr.Db.Kinds.{SqlxError, foreign_key_violation, DbError}
use oxidarr.Db.Rows.{StoredMapping, MappingRow, row_to_mapping}
use oxidarr.Db.Conn.{Tables, Conn, Disk, Query, statement, order_by}

-- The row is the one of this pair: the UNIQUE (app_id, indexer_id).
abbrev pub is_pair : ℕ → ℕ → StoredMapping → Bool
is_pair app indexer m = m.app_id == app && m.indexer_id == indexer

-- A list of ids contains the id: REFERENCES applications(id), REFERENCES indexers(id).
abbrev pub has_app : Tables → ℕ → Bool
has_app t id = any (λ a. a.id == id) t.applications

abbrev pub has_indexer : Tables → ℕ → Bool
has_indexer t id = any (λ i. i.id == id) t.indexers

unfoldable pub overwrite : MappingRow → List StoredMapping → List StoredMapping
overwrite row [] = []
overwrite row (m ∷ rest) =
    (if is_pair row.app_id row.indexer_id m
      then record m { remote_indexer_id = row.remote_indexer_id }
      else m)
    ∷ overwrite row rest

abbrev pub to_stored : MappingRow → StoredMapping
to_stored row = record {
  app_id = row.app_id;
  indexer_id = row.indexer_id;
  remote_indexer_id = row.remote_indexer_id;
}

-- INSERT … ON CONFLICT(app_id, indexer_id) DO UPDATE
unfoldable pub upsert : MappingRow → Tables → Outcome SqlxError (Unit {0} × Tables)
unfolding overwrite
upsert row t =
    if any (is_pair row.app_id row.indexer_id) t.mappings
    then ok (tt, record t { mappings = overwrite row t.mappings })
    else if has_app t row.app_id && has_indexer t row.indexer_id
    then ok (tt, record t { mappings = t.mappings ++ to_stored row ∷ [] })
    else err foreign_key_violation

unfoldable pub remove_pair : ℕ → ℕ → Tables → Outcome SqlxError (Unit {0} × Tables)
remove_pair app indexer t =
    ok (tt, record t { mappings = filter (λ m. not (is_pair app indexer m)) t.mappings })

module _ (disk : Disk) where
  unfoldable pub set : MappingRow → Query (Unit {0})
  set row = statement disk (upsert row)

  decode_optional : Option StoredMapping → Query (Option MappingRow)
  decode_optional none = pure none
  decode_optional (some m) = do row ← lift (row_to_mapping m); pure (some row)

  unfoldable pub get : ℕ → ℕ → Query (Option MappingRow)
  unfolding decode_optional
  get app indexer = do
    row ← statement disk (λ t. ok (find (is_pair app indexer) t.mappings, t))
    decode_optional row

  unfoldable pub for_app : ℕ → Query (List MappingRow)
  for_app app = do
    rows ←
        statement disk
          (λ t. ok (order_by (λ m. m.indexer_id) (filter (λ m. m.app_id == app) t.mappings), t))
    lift (map_all row_to_mapping rows)

  unfoldable pub for_indexer : ℕ → Query (List MappingRow)
  for_indexer indexer = do
    rows ←
        statement disk
          (λ t. ok (order_by (λ m. m.app_id) (filter (λ m. m.indexer_id == indexer) t.mappings), t))
    lift (map_all row_to_mapping rows)

  unfoldable pub delete : ℕ → ℕ → Query (Unit {0})
  delete app indexer = statement disk (remove_pair app indexer)
