-- ===== src/Db/Indexers.antt =====
-- crates/oxidarr-db/src/indexer.rs: `IndexerRepo`. `codec` stands for `serde_json` and `chrono`,
-- and `now` for the clock, read once for each row that is inserted.
pub mod Stored
use oxidarr.Common.{
  ℕ, suc, ◌+◌, String, Bool, true, false, ◌&&◌, not, Option, none, some, List, [], ◌∷◌, ◌++◌, map,
  any, find, filter, ◌==◌, if◌then◌else◌, Text, text_eq, show_nat, length,
}
use oxidarr.Common.Outcome.{Outcome, ok, err, map_err, map_all}
use oxidarr.Common.Act.{pure, fail, lift, ◌>>=◌, ◌>>◌}
use oxidarr.Common.Json.{Fields}
use oxidarr.Db.Kinds.{
  SqlxError, unique_violation, DbError, corrupt, not_found, library_message, indexer_kind_as_str,
  app_kind_as_str, sync_level_as_str,
}
use oxidarr.Db.Rows.{
  Codec, Instant, StoredIndexer, NewIndexer, IndexerRow, row_to_indexer, parse_added, row_id_to_i32,
}
use oxidarr.Db.Conn.{Tables, Conn, Disk, Query, statement, order_by}

abbrev pub has_id : ℕ → StoredIndexer → Bool
has_id id row = row.id == id

-- Another row has this name: UNIQUE on `name`.
abbrev pub takes_name : ℕ → Text → StoredIndexer → Bool
takes_name id name row = not (row.id == id) && text_eq row.name name

abbrev pub new_row : NewIndexer → String → String → ℕ → StoredIndexer
new_row new settings added id = record {
  id = id;
  name = new.name;
  definition_id = new.definition_id;
  kind = indexer_kind_as_str new.kind;
  enabled = new.enabled;
  settings = settings;
  priority = new.priority;
  added = added;
}

-- INSERT INTO indexers … RETURNING id
unfoldable pub insert_row : NewIndexer → String → String → Tables → Outcome SqlxError (ℕ × Tables)
insert_row new settings added t =
    let id = suc t.last_indexer in
    if any (λ r. text_eq r.name new.name) t.indexers
    then err unique_violation
    else ok (
      id,
      record t { indexers = t.indexers ++ new_row new settings added id ∷ []; last_indexer = id },
    )

abbrev pub rewrite_row : IndexerRow → String → StoredIndexer → StoredIndexer
rewrite_row row settings stored = record stored {
  name = row.name;
  definition_id = row.definition_id;
  kind = indexer_kind_as_str row.kind;
  enabled = row.enabled;
  settings = settings;
  priority = row.priority;
}

-- UPDATE indexers SET … WHERE id = ?, with `rows_affected`
unfoldable pub update_row : IndexerRow → String → Tables → Outcome SqlxError (ℕ × Tables)
update_row row settings t =
    let affected = length (filter (has_id row.id) t.indexers) in
    if affected == 0
    then ok (0, t)
    else if any (takes_name row.id row.name) t.indexers
    then err unique_violation
    else ok (
      affected,
      record t {
        indexers = map (λ r. if has_id row.id r then rewrite_row row settings r else r) t.indexers;
      },
    )

-- DELETE FROM indexers WHERE id = ?, with ON DELETE CASCADE of `app_indexer_map`
unfoldable pub delete_row : ℕ → Tables → Outcome SqlxError (ℕ × Tables)
delete_row id t = ok (
  length (filter (has_id id) t.indexers),
  record t {
    indexers = filter (λ r. not (has_id id r)) t.indexers;
    mappings = filter (λ m. not (m.indexer_id == id)) t.mappings;
  },
)

missing : ℕ → DbError
missing id = not_found "indexer" (show_nat id)

module _ (codec : Codec) (disk : Disk) where
  unfoldable pub encode : Fields → Outcome DbError String
  encode settings =
      map_err (λ reason. corrupt "indexers.settings" (library_message reason))
        (codec.encode_settings settings)

  unfoldable pub insert : Instant → NewIndexer → Query IndexerRow
  unfolding encode
  insert now new = do
    settings ← lift (encode new.settings)
    let added = codec.to_rfc3339 now
    rowid ← statement disk (insert_row new settings added)
    id ← lift (row_id_to_i32 rowid "indexers.id")
    instant ← lift (parse_added codec "indexers.added" added)
    pure (record {
      id = id;
      added = instant;
      name = new.name;
      definition_id = new.definition_id;
      kind = new.kind;
      enabled = new.enabled;
      settings = new.settings;
      priority = new.priority;
    })

  unfoldable pub found : ℕ → Option StoredIndexer → Query IndexerRow
  unfolding missing
  found id none = fail (missing id)
  found id (some row) = lift (row_to_indexer codec row)

  unfoldable pub get : ℕ → Query IndexerRow
  unfolding found
  get id = do row ← statement disk (λ t. ok (find (has_id id) t.indexers, t)); found id row

  unfoldable pub list : Query (List IndexerRow)
  list = do
    rows ← statement disk (λ t. ok (order_by (λ r. r.id) t.indexers, t))
    lift (map_all (row_to_indexer codec) rows)

  -- `if result.rows_affected() == 0`
  check_affected : ℕ → ℕ → Query (Unit {0})
  unfolding missing
  check_affected id affected = if affected == 0 then fail (missing id) else pure tt

  unfoldable pub update : IndexerRow → Query (Unit {0})
  unfolding encode check_affected
  update row = do
    settings ← lift (encode row.settings)
    affected ← statement disk (update_row row settings)
    check_affected row.id affected

  unfoldable pub delete : ℕ → Query (Unit {0})
  unfolding check_affected
  delete id = do affected ← statement disk (delete_row id); check_affected id affected
