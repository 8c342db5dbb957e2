-- ===== src/Db/Applications.antt =====
-- crates/oxidarr-db/src/application.rs: `ApplicationRepo`. `codec` stands for `serde_json` and `chrono`,
-- and `now` for the clock, read once for each row that is inserted.
use oxidarr.Common.{
  ℕ, suc, String, Bool, ◌&&◌, not, Option, none, some, List, [], ◌∷◌, ◌++◌, map, any, find, filter,
  ◌==◌, if◌then◌else◌, Text, text_eq, show_nat, length,
}
use oxidarr.Common.Outcome.{Outcome, ok, err, map_all}
use oxidarr.Common.Act.{pure, fail, lift, ◌>>=◌}
use oxidarr.Db.Kinds.{
  SqlxError, unique_violation, DbError, not_found, app_kind_as_str, sync_level_as_str,
}
use oxidarr.Db.Rows.{
  Codec, Instant, StoredApplication, NewApplication, ApplicationRow, row_to_application,
  parse_added, row_id_to_i32,
}
use oxidarr.Db.Conn.{Tables, Disk, Query, statement, order_by}

abbrev pub has_id : ℕ → StoredApplication → Bool
has_id id row = row.id == id

-- Another row has this name: UNIQUE on `name`.
abbrev pub takes_name : ℕ → Text → StoredApplication → Bool
takes_name id name row = not (row.id == id) && text_eq row.name name

abbrev pub new_row : NewApplication → String → ℕ → StoredApplication
new_row new added id = record {
  id = id;
  name = new.name;
  kind = app_kind_as_str new.kind;
  base_url = new.base_url;
  api_key = new.api_key;
  sync_level = sync_level_as_str new.sync_level;
  added = added;
}

-- INSERT INTO applications … RETURNING id
unfoldable pub insert_row : NewApplication → String → Tables → Outcome SqlxError (ℕ × Tables)
insert_row new added t =
    let id = suc t.last_application in
    if any (λ r. text_eq r.name new.name) t.applications
    then err unique_violation
    else ok (
      id,
      record t {
        applications = t.applications ++ new_row new added id ∷ [];
        last_application = id;
      },
    )

abbrev pub rewrite_row : ApplicationRow → StoredApplication → StoredApplication
rewrite_row row stored = record stored {
  name = row.name;
  kind = app_kind_as_str row.kind;
  base_url = row.base_url;
  api_key = row.api_key;
  sync_level = sync_level_as_str row.sync_level;
}

-- UPDATE applications SET … WHERE id = ?, with `rows_affected`
unfoldable pub update_row : ApplicationRow → Tables → Outcome SqlxError (ℕ × Tables)
update_row row t =
    let affected = length (filter (has_id row.id) t.applications) in
    if affected == 0
    then ok (0, t)
    else if any (takes_name row.id row.name) t.applications
    then err unique_violation
    else ok (
      affected,
      record t {
        applications = map (λ r. if has_id row.id r then rewrite_row row r else r) t.applications;
      },
    )

-- DELETE FROM applications WHERE id = ?, with ON DELETE CASCADE of `app_indexer_map`
unfoldable pub delete_row : ℕ → Tables → Outcome SqlxError (ℕ × Tables)
delete_row id t = ok (
  length (filter (has_id id) t.applications),
  record t {
    applications = filter (λ r. not (has_id id r)) t.applications;
    mappings = filter (λ m. not (m.app_id == id)) t.mappings;
  },
)

missing : ℕ → DbError
missing id = not_found "application" (show_nat id)

module _ (codec : Codec) (disk : Disk) where
  unfoldable pub insert : Instant → NewApplication → Query ApplicationRow
  insert now new = do
    let added = codec.to_rfc3339 now
    rowid ← statement disk (insert_row new added)
    id ← lift (row_id_to_i32 rowid "applications.id")
    instant ← lift (parse_added codec "applications.added" added)
    pure (record {
      id = id;
      added = instant;
      name = new.name;
      kind = new.kind;
      base_url = new.base_url;
      api_key = new.api_key;
      sync_level = new.sync_level;
    })

  found : ℕ → Option StoredApplication → Query ApplicationRow
  unfolding missing
  found id none = fail (missing id)
  found id (some row) = lift (row_to_application codec row)

  unfoldable pub get : ℕ → Query ApplicationRow
  unfolding found
  get id = do row ← statement disk (λ t. ok (find (has_id id) t.applications, t)); found id row

  unfoldable pub list : Query (List ApplicationRow)
  list = do
    rows ← statement disk (λ t. ok (order_by (λ r. r.id) t.applications, t))
    lift (map_all (row_to_application codec) rows)

  -- `if result.rows_affected() == 0`
  check_affected : ℕ → ℕ → Query (Unit {0})
  unfolding missing
  check_affected id affected = if affected == 0 then fail (missing id) else pure tt

  unfoldable pub update : ApplicationRow → Query (Unit {0})
  unfolding check_affected
  update row = do affected ← statement disk (update_row row); check_affected row.id affected

  unfoldable pub delete : ℕ → Query (Unit {0})
  unfolding check_affected
  delete id = do affected ← statement disk (delete_row id); check_affected id affected
