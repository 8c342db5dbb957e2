-- ===== src/Sync/Requests.antt =====
-- Every request that `sync_application` of crates/oxidarr-prowl/src/sync.rs sends, whatever its
-- outcome.
use mathlib.Core.List.{append-nil, append_assoc}
use oxidarr.Common.{
  ◌≢◌, ◌≡◌, refl, sym, ◌∙◌, ap, Option, none, some, List, [], ◌∷◌, ◌++◌, Text, All, All-append,
}
use oxidarr.Common.Int.{ℤ}
use oxidarr.Common.Json.{Json, int, get_key}
use oxidarr.Common.Outcome.{Outcome, ok, err}
use oxidarr.Common.Act.{lift, Relates, IsPreorder, Relates-lift, Relates-bind, Relates-lift_bind}
use oxidarr.Db.Kinds.{SyncLevel, full_sync, disabled}
use oxidarr.Db.Rows.{ApplicationRow}
use oxidarr.Http.{Url, Method, Body, HttpRequest, HttpResponse, HttpError}
use oxidarr.Sync.World.{
  Services, World, definition, answered, execute, in_db, Relates-in_db, Relates-in_definitions,
}
use oxidarr.Db.Conn.{Query}
use oxidarr.Db.Indexers as Indexers
use oxidarr.Db.Mappings as Mappings
use oxidarr.Definitions as Definitions
use oxidarr.Sync.Payload.{build_indexer_payload}
use oxidarr.Sync.Remote.{
  api_key_header, indexer_url, ensure_success, parse_remote_id, request, post_indexer, put_indexer,
  delete_indexer,
}
use oxidarr.Sync.Run.{sync_application}
use oxidarr.Sync.Rules.{Allows, sync_application-Relates}

-- The log of requests has grown by requests of which `P` holds.
abbrev pub SendsOnly : {R : Type 0} → (HttpRequest → Type 0) → World R → World R → Type 0
SendsOnly P w w' = (new : List HttpRequest) × (w'.sent ≡ w.sent ++ new) × All P new

module _ {R : Type 0} {P : HttpRequest → Type 0} where
  silent : (w w' : World R) → w'.sent ≡ w.sent → SendsOnly P w w'
  silent w w' e = ([], e ∙ sym (append-nil w.sent), tt)

  SendsOnly-IsPreorder : IsPreorder (SendsOnly {R = R} P)
  SendsOnly-IsPreorder = record {
    stay = λ s. silent s s refl;
    step = λ {s} (xs, e, h) (ys, f, k).
        (xs ++ ys, f ∙ ap (λ l. l ++ ys) e ∙ append_assoc s.sent xs ys, All-append P xs ys h k);
  }

  execute-SendsOnly :
      (services : Services R) (req : HttpRequest)
      → P req
      → Relates (SendsOnly P) (execute services req)
  unfolding execute
  execute-SendsOnly services req h = record { at = λ w. logged w (services.http req w.server) }
    where
      logged :
          (w : World R) (r : Outcome HttpError HttpResponse × R)
          → SendsOnly P w (answered req w r).1
      logged w (ok resp, r) = (req ∷ [], refl, (h, tt))
      logged w (err e, r) = (req ∷ [], refl, (h, tt))

-- The shape of each kind of request: `POST` of a body without an id unless the sync is disabled,
-- and at full sync also `PUT` of a body with the id of its URL, and `DELETE`.
abbrev pub Shape : SyncLevel → Method → Option ℤ → Option Body → Type 0
Shape level Method.post none (some (Body.json p)) = (get_key "id" p ≡ none) × (level ≢ disabled)
Shape level Method.put (some id) (some (Body.json p)) =
    (get_key "id" p ≡ some (int id)) × (level ≡ full_sync)
Shape level Method.delete (some id) none = level ≡ full_sync
Shape _ _ _ _ = ⊥

module _ {R : Type 0} (services : Services R) (app : ApplicationRow) where
  pub record IsSyncRequest (req : HttpRequest) : Type 0 where
    pub authorised : req.headers ≡ api_key_header app.api_key ∷ []
    pub target : Option ℤ
    pub aimed : indexer_url services app target ≡ ok req.url
    pub shaped : Shape app.sync_level req.method target req.body

  abbrev Sends : World R → World R → Type 0
  Sends = SendsOnly IsSyncRequest

  request-Sends :
      (method : Method) (target : Option ℤ) (url : Url) (body : Option Body)
      → indexer_url services app target ≡ ok url
      → Shape app.sync_level method target body
      → Relates Sends (execute services (request services app method url body))
  request-Sends method target url body e h =
      execute-SendsOnly services (request services app method url body)
        (record { authorised = refl; target = target; aimed = e; shaped = h })

  post_indexer-Sends :
      (payload : Json)
      → get_key "id" payload ≡ none
      → app.sync_level ≢ disabled
      → Relates Sends (post_indexer services app payload)
  unfolding post_indexer
  post_indexer-Sends payload h on =
      Relates-lift_bind SendsOnly-IsPreorder (indexer_url services app none) _ λ url e.
        Relates-bind SendsOnly-IsPreorder _ _ (request-Sends Method.post none url _ e (h, on))
          λ resp.
            Relates-bind SendsOnly-IsPreorder (lift (ensure_success services app resp))
              (λ _. lift (parse_remote_id services app resp))
              (Relates-lift SendsOnly-IsPreorder (ensure_success services app resp))
              (λ _. Relates-lift SendsOnly-IsPreorder (parse_remote_id services app resp))

  put_indexer-Sends :
      (remote : ℤ) (payload : Json)
      → get_key "id" payload ≡ some (int remote)
      → app.sync_level ≡ full_sync
      → Relates Sends (put_indexer services app remote payload)
  unfolding put_indexer
  put_indexer-Sends remote payload h full =
      Relates-lift_bind SendsOnly-IsPreorder (indexer_url services app (some remote)) _
        (λ url e. request-Sends Method.put (some remote) url _ e (h, full))

  delete_indexer-Sends :
      (remote : ℤ) → app.sync_level ≡ full_sync → Relates Sends (delete_indexer services app remote)
  unfolding delete_indexer
  delete_indexer-Sends remote full =
      Relates-lift_bind SendsOnly-IsPreorder (indexer_url services app (some remote)) _ λ url e.
        Relates-bind SendsOnly-IsPreorder _ _
          (request-Sends Method.delete (some remote) url none e full)
          (λ resp. Relates-lift SendsOnly-IsPreorder _)

  module _ (external_url : Url) (instance_key : Text) where
    in_db-Sends : {A : Type 0} (q : Query A) → Relates Sends (in_db q)
    in_db-Sends q = Relates-in_db q (λ w. silent w (record w { conn = (q w.conn).1 }) refl)

    rules : Allows services app external_url instance_key Sends
    unfolding build_indexer_payload get_key
    rules = record {
      pre = SendsOnly-IsPreorder;
      lists = in_db-Sends (Indexers.list services.codec services.disk);
      reads = in_db-Sends (Mappings.for_app services.disk app.id);
      maps = λ indexer remote. in_db-Sends (
          Mappings.set services.disk
            (record { app_id = app.id; indexer_id = indexer; remote_indexer_id = remote }));
      unmaps = λ full indexer. in_db-Sends (Mappings.delete services.disk app.id indexer);
      loads = λ id. Relates-in_definitions (definition id) (Definitions.get services.files id) (λ w.
          silent w (record w { definitions = (Definitions.get services.files id w.definitions).1 })
            refl);
      posts = λ on row categories. post_indexer-Sends _ refl on;
      puts = λ full row categories remote. put_indexer-Sends remote _ refl full;
      deletes = λ full remote. delete_indexer-Sends remote full;
    }

    -- Whatever its outcome, a sync sends only requests to the application's `/api/v3/indexer` with
    -- its API key: `POST`s whose body has no id, if the sync is not disabled, and at full sync only
    -- `PUT`s whose body has the id of the URL, and `DELETE`s.
    pub sync_application-Sends :
        (w : World R)
        → SendsOnly IsSyncRequest w (sync_application services app external_url instance_key w).1
    sync_application-Sends w =
        (sync_application-Relates services app external_url instance_key rules).at w
