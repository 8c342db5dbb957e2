-- ===== src/Db/Statements.antt =====
-- How the operations of crates/oxidarr-db move the tables: rules for a relation between the tables
-- before and after, whatever the outcome.
use oxidarr.Common.{ℕ, ◌≡◌, refl, ◌∙◌, Option, none, some, arith, filter, ◌==◌}
use oxidarr.Common.Outcome.{Outcome, ok, err, map_all}
use oxidarr.Common.Act.{Yields, Relates, IsPreorder, Relates-lift, Relates-bind}
use oxidarr.Db.Kinds.{SqlxError}
use oxidarr.Db.Rows.{Codec, row_to_indexer, row_to_application, row_to_mapping}
use oxidarr.Db.Conn.{Tables, Conn, Disk, statement, start, finish, order_by}
use oxidarr.Db.Indexers as Indexers
use oxidarr.Db.Applications as Applications
use oxidarr.Db.Mappings as Mappings

abbrev pub OnTables : (Tables → Tables → Type 0) → Conn → Conn → Type 0
OnTables P c c' = P c.tables c'.tables

abbrev pub SameTables : Conn → Conn → Type 0
SameTables = OnTables (λ t t'. t' ≡ t)

pub SameTables-IsPreorder : IsPreorder SameTables
SameTables-IsPreorder = record { stay = λ c. refl; step = λ e f. f ∙ e }

module _ (disk : Disk) {A : Type 0} (P : Tables → Tables → Type 0) (stay : (t : Tables) → P t t)
    (run : Tables → Outcome SqlxError (A × Tables))
    (moves : (t : Tables) (a : A) (t' : Tables) → run t ≡ ok (a, t') → P t t') where
  finish_moves :
      (conn : Conn) (r : Outcome SqlxError (A × Tables))
      → run conn.tables ≡ r
      → P conn.tables (finish conn r).1.tables
  unfolding finish
  finish_moves conn (ok (a, t)) e = moves conn.tables a t e
  finish_moves conn (err x) e = stay conn.tables

  start_moves :
      (conn : Conn) (fault : Option SqlxError) → P conn.tables (start run conn fault).1.tables
  unfolding start
  start_moves conn (some x) = stay conn.tables
  start_moves conn none = finish_moves conn (run conn.tables) refl

  -- A statement moves the tables as its successful runs do, or not at all.
  pub statement_moves : Relates (OnTables P) (statement disk run)
  unfolding statement
  statement_moves = record { at = λ conn. start_moves conn (disk conn.queries) }

-- A successful statement ran on the tables.
pub statement-Yields :
    (disk : Disk) {A : Type 0} (run : Tables → Outcome SqlxError (A × Tables)) (conn : Conn)
    → Yields (statement disk run) conn (λ a c. run conn.tables ≡ ok (a, c.tables))
unfolding statement start finish
statement-Yields disk {A} run conn = record { at = λ a c e. started (disk conn.queries) a c e }
  where
    finished :
        (r : Outcome SqlxError (A × Tables)) (a : A) (c : Conn)
        → finish conn r ≡ (ok a, c)
        → r ≡ ok (a, c.tables)
    finished (ok (b, t)) a c e = ground (arith, e)
    finished (err x) a c e = cc

    started :
        (fault : Option SqlxError) (a : A) (c : Conn)
        → start run conn fault ≡ (ok a, c)
        → run conn.tables ≡ ok (a, c.tables)
    started none a c e = finished (run conn.tables) a c e
    started (some x) a c e = cc

module _ (disk : Disk) where
  -- A SELECT leaves the tables alone.
  pub select_keeps :
      {A : Type 0} (f : Tables → A) → Relates SameTables (statement disk (λ t. ok (f t, t)))
  select_keeps f =
      statement_moves disk (λ t t'. t' ≡ t) (λ t. refl) (λ t. ok (f t, t))
        (λ t a t' e. ground (arith, e))

  pub list_keeps : (codec : Codec) → Relates SameTables (Indexers.list codec disk)
  unfolding Indexers.list
  list_keeps codec =
      Relates-bind SameTables-IsPreorder _ _ (select_keeps (λ t. order_by (λ r. r.id) t.indexers))
        (λ rows. Relates-lift SameTables-IsPreorder (map_all (row_to_indexer codec) rows))

  pub list_applications_keeps : (codec : Codec) → Relates SameTables (Applications.list codec disk)
  unfolding Applications.list
  list_applications_keeps codec =
      Relates-bind SameTables-IsPreorder _ _
        (select_keeps (λ t. order_by (λ r. r.id) t.applications))
        (λ rows. Relates-lift SameTables-IsPreorder (map_all (row_to_application codec) rows))

  pub for_app_keeps : (app : ℕ) → Relates SameTables (Mappings.for_app disk app)
  unfolding Mappings.for_app
  for_app_keeps app =
      Relates-bind SameTables-IsPreorder _ _
        (select_keeps
          (λ t. order_by (λ m. m.indexer_id) (filter (λ m. m.app_id == app) t.mappings)))
        (λ rows. Relates-lift SameTables-IsPreorder (map_all row_to_mapping rows))
