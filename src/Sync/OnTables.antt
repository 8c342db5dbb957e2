-- ===== src/Sync/OnTables.antt =====
-- The rules of a sync for a relation on the database's tables alone: it has to hold of the writes
-- to the mapping table, since every other query reads and a request does not reach the database.
use oxidarr.Common.{ℕ, ◌≡◌, sym, subst, Text, none, some}
use oxidarr.Common.Int.{ℤ}
use oxidarr.Common.Json.{Json}
use oxidarr.Common.Outcome.{Outcome, ok, err}
use oxidarr.Common.Act.{lift, Relates, IsPreorder, Relates-lift, Relates-bind}
use oxidarr.Db.Conn.{Tables, Query}
use oxidarr.Db.Statements.{SameTables, list_keeps, for_app_keeps, statement_moves}
use oxidarr.Db.Rows.{ApplicationRow}
use oxidarr.Db.Mappings as Mappings
use oxidarr.Definitions as Definitions
use oxidarr.Http.{Url, HttpRequest, HttpResponse, HttpError}
use oxidarr.Sync.World.{
  Services, World, definition, answered, execute, in_db, Relates-in_db, Relates-in_definitions,
}
use oxidarr.Sync.Remote.{
  indexer_url, ensure_success, parse_remote_id, post_indexer, put_indexer, delete_indexer,
}
use oxidarr.Sync.Run.{sync_application}
use oxidarr.Sync.Rules.{Allows, sync_application-Relates}

module _ {R : Type 0} {P : Tables → Tables → Type 0} (pre : IsPreorder P) where
  abbrev pub InWorld : World R → World R → Type 0
  InWorld w w' = P w.conn.tables w'.conn.tables

  pub InWorld-IsPreorder : IsPreorder InWorld
  InWorld-IsPreorder = record { stay = λ w. pre.stay w.conn.tables; step = λ h k. pre.step h k }

  pub read-InWorld : {A : Type 0} (q : Query A) → Relates SameTables q → Relates InWorld (in_db q)
  read-InWorld q same =
      Relates-in_db q (λ w. subst (P w.conn.tables) (sym (same.at w.conn)) (pre.stay w.conn.tables))

  module _ (services : Services R) where
    execute-InWorld : (req : HttpRequest) → Relates InWorld (execute services req)
    unfolding execute
    execute-InWorld req = record { at = λ w. kept w (services.http req w.server) }
      where
        kept :
            (w : World R) (r : Outcome HttpError HttpResponse × R) → InWorld w (answered req w r).1
        kept w (ok resp, r) = pre.stay w.conn.tables
        kept w (err e, r) = pre.stay w.conn.tables

    module _ (app : ApplicationRow) where
      pub post_indexer-InWorld :
          (payload : Json) → Relates InWorld (post_indexer services app payload)
      unfolding post_indexer
      post_indexer-InWorld payload =
          Relates-bind InWorld-IsPreorder (lift (indexer_url services app none)) _
            (Relates-lift InWorld-IsPreorder (indexer_url services app none))
            λ url. Relates-bind InWorld-IsPreorder _ _ (execute-InWorld _) λ resp.
              Relates-bind InWorld-IsPreorder (lift (ensure_success services app resp))
                (λ _. lift (parse_remote_id services app resp))
                (Relates-lift InWorld-IsPreorder (ensure_success services app resp))
                (λ _. Relates-lift InWorld-IsPreorder (parse_remote_id services app resp))

      pub put_indexer-InWorld :
          (remote : ℤ) (payload : Json) → Relates InWorld (put_indexer services app remote payload)
      unfolding put_indexer
      put_indexer-InWorld remote payload =
          Relates-bind InWorld-IsPreorder (lift (indexer_url services app (some remote))) _
            (Relates-lift InWorld-IsPreorder (indexer_url services app (some remote)))
            (λ url. execute-InWorld _)

      pub delete_indexer-InWorld :
          (remote : ℤ) → Relates InWorld (delete_indexer services app remote)
      unfolding delete_indexer
      delete_indexer-InWorld remote =
          Relates-bind InWorld-IsPreorder (lift (indexer_url services app (some remote))) _
            (Relates-lift InWorld-IsPreorder (indexer_url services app (some remote)))
            λ url.
              Relates-bind InWorld-IsPreorder _ _ (execute-InWorld _)
                (λ resp. Relates-lift InWorld-IsPreorder _)

      module _ (external_url : Url) (instance_key : Text)
          (set_moves : (indexer : ℕ) (remote : ℤ) (t : Tables) (u : Unit {0}) (t' : Tables)
            → Mappings.upsert
                (record { app_id = app.id; indexer_id = indexer; remote_indexer_id = remote })
                t
              ≡ ok (u, t')
            → P t t')
          (delete_moves : (indexer : ℕ) (t : Tables) (u : Unit {0}) (t' : Tables)
            → Mappings.remove_pair app.id indexer t ≡ ok (u, t')
            → P t t') where
        maps :
            (indexer : ℕ) (remote : ℤ)
            → Relates InWorld (
                in_db (
                  Mappings.set services.disk
                    (record { app_id = app.id; indexer_id = indexer; remote_indexer_id = remote })))
        unfolding Mappings.set
        maps indexer remote =
            Relates-in_db _ (λ w.
              (statement_moves services.disk P pre.stay _ (set_moves indexer remote)).at w.conn)

        unmaps :
            (indexer : ℕ) → Relates InWorld (in_db (Mappings.delete services.disk app.id indexer))
        unfolding Mappings.delete
        unmaps indexer =
            Relates-in_db _
              (λ w. (statement_moves services.disk P pre.stay _ (delete_moves indexer)).at w.conn)

        table_rules : Allows services app external_url instance_key InWorld
        table_rules = record {
          pre = InWorld-IsPreorder;
          lists = read-InWorld _ (list_keeps services.disk services.codec);
          reads = read-InWorld _ (for_app_keeps services.disk app.id);
          maps = maps;
          unmaps = λ full indexer. unmaps indexer;
          loads = λ id.
              Relates-in_definitions (definition id) (Definitions.get services.files id)
                (λ w. pre.stay w.conn.tables);
          posts = λ on row categories. post_indexer-InWorld _;
          puts = λ full row categories remote. put_indexer-InWorld remote _;
          deletes = λ full remote. delete_indexer-InWorld remote;
        }

        -- A sync moves the tables as its writes to the mapping table do, whatever its outcome.
        pub sync_application-InWorld :
            Relates InWorld (sync_application services app external_url instance_key)
        sync_application-InWorld =
            sync_application-Relates services app external_url instance_key table_rules
