-- ===== src/Db/Conn.antt =====
-- The tables of crates/oxidarr-db/migrations, and how a statement runs on them. SQLite is the
-- parameter `disk`: which of the statements fail for a reason of its own, such as an I/O error.
-- The constraints of the schema are modelled. A statement that fails leaves the tables alone.
use oxidarr.Common.{ℕ, ◌+◌, Option, none, some, List, [], ◌∷◌, Text, leb, if◌then◌else◌}
use oxidarr.Common.Outcome.{Outcome, ok, err}
use oxidarr.Common.Act.{Act}
use oxidarr.Db.Kinds.{SqlxError, DbError, sqlx}
use oxidarr.Db.Rows.{StoredIndexer, StoredApplication, StoredMapping}

-- `last_indexer` and `last_application` are the counters of AUTOINCREMENT.
pub record Tables : Type 0 where
  pub indexers : List StoredIndexer
  pub applications : List StoredApplication
  pub mappings : List StoredMapping
  pub config : List (Text × Text)
  pub last_indexer : ℕ
  pub last_application : ℕ

pub record Conn : Type 0 where
  pub tables : Tables
  pub open tables use *
  pub queries : ℕ

abbrev pub Disk : Type 0
Disk = ℕ → Option SqlxError

abbrev pub Query : Type 0 → Type 0
Query A = Act Conn DbError A

unfoldable pub finish :
    {A : Type 0} → Conn → Outcome SqlxError (A × Tables) → Outcome DbError A × Conn
finish conn (ok (a, t)) = (ok a, record { tables = t; queries = conn.queries + 1 })
finish conn (err e) = (err (sqlx e), record conn { queries = conn.queries + 1 })

unfoldable pub start :
    {A : Type 0}
    → (Tables → Outcome SqlxError (A × Tables))
    → Conn
    → Option SqlxError
    → Outcome DbError A × Conn
unfolding finish
start run conn (some e) = finish conn (err e)
start run conn none = finish conn (run conn.tables)

-- One SQL statement.
unfoldable pub statement : {A : Type 0} → Disk → (Tables → Outcome SqlxError (A × Tables)) → Query A
unfolding start finish
statement disk run conn = start run conn (disk conn.queries)

-- ORDER BY a numeric column.
module _ {A : Type 0} (key : A → ℕ) where
  unfoldable pub insert_by : A → List A → List A
  insert_by a [] = a ∷ []
  insert_by a (b ∷ r) = if leb (key a) (key b) then a ∷ b ∷ r else b ∷ insert_by a r

  unfoldable pub order_by : List A → List A
  unfolding insert_by
  order_by [] = []
  order_by (a ∷ r) = insert_by a (order_by r)
