-- ===== src/Sync/Rules.antt =====
-- One induction over `sync_application` for every relation between the worlds before and after a
-- sync: it holds of the whole if it holds of each query and each request that the sync may make.
use oxidarr.Common.{
  sym, ◌∙◌, ℕ, ◌≡◌, ◌≢◌, refl, ◌==◌, Option, none, some, List, [], ◌∷◌, filter, Text,
}
use oxidarr.Common.Int.{ℤ}
use oxidarr.Common.Act.{Relates, IsPreorder, Relates-pure, Relates-lift, Relates-bind, Relates-if}
use oxidarr.Db.Kinds.{
  IndexerKind, cardigann, newznab, torznab, SyncLevel, disabled, add_only, full_sync,
}
use oxidarr.Db.Rows.{IndexerRow, ApplicationRow, MappingRow}
use oxidarr.Db.Indexers as Indexers
use oxidarr.Db.Mappings as Mappings
use oxidarr.Definitions as Definitions
use oxidarr.Http.{Url, HttpResponse}
use oxidarr.Sync.World.{Services, World, SyncReport, definition, in_db, in_definitions}
use oxidarr.Sync.Payload.{build_indexer_payload}
use oxidarr.Sync.Remote.{post_indexer, put_indexer, delete_indexer}
use oxidarr.Sync.Run.{
  still_enabled, mapping_of, categories_of, categories_for, delete_one, delete_stale, post_and_map,
  create, after_put, update, sync_mapped, sync_kind, sync_rows, delete_pass, sync_enabled, sync_at,
  sync_application,
}

module _ {R : Type 0} (services : Services R) (app : ApplicationRow) (external_url : Url)
    (instance_key : Text) where
  -- What a relation has to allow: the sync's queries and requests, `PUT` and `DELETE` at full sync
  -- only.
  pub record Allows (Rel : World R → World R → Type 0) : Type 0 where
    pub pre : IsPreorder Rel
    pub lists : Relates Rel (in_db (Indexers.list services.codec services.disk))
    pub reads : Relates Rel (in_db (Mappings.for_app services.disk app.id))
    pub maps :
        (indexer : ℕ) (remote : ℤ)
        → Relates Rel (
            in_db (
              Mappings.set services.disk
                (record { app_id = app.id; indexer_id = indexer; remote_indexer_id = remote })))
    pub unmaps :
        app.sync_level ≡ full_sync
        → (indexer : ℕ) → Relates Rel (in_db (Mappings.delete services.disk app.id indexer))
    pub loads :
        (id : Text)
        → Relates Rel (in_definitions {R = R} (definition id) (Definitions.get services.files id))
    pub posts :
        app.sync_level ≢ disabled
        → (row : IndexerRow) (categories : List ℕ)
        → Relates Rel (
            post_indexer services app
              (build_indexer_payload row external_url instance_key categories none))
    pub puts :
        app.sync_level ≡ full_sync
        → (row : IndexerRow) (categories : List ℕ) (remote : ℤ)
        → Relates Rel (
            put_indexer services app remote
              (build_indexer_payload row external_url instance_key categories (some remote)))
    pub deletes :
        app.sync_level ≡ full_sync → (remote : ℤ) → Relates Rel (delete_indexer services app remote)

  module _ {Rel : World R → World R → Type 0} (rules : Allows Rel) where
    categories_of-Relates :
        (kind : IndexerKind) (row : IndexerRow) → Relates Rel (categories_of services kind row)
    unfolding categories_of
    categories_of-Relates cardigann row =
        Relates-bind rules.pre _ _ (rules.loads row.definition_id) (λ def. Relates-pure rules.pre _)
    categories_of-Relates newznab row = Relates-pure rules.pre _
    categories_of-Relates torznab row = Relates-pure rules.pre _

    categories_for-Relates : (row : IndexerRow) → Relates Rel (categories_for services row)
    unfolding categories_for
    categories_for-Relates row = categories_of-Relates row.kind row

    post_and_map-Relates :
        app.sync_level ≢ disabled
        → (row : IndexerRow) (categories : List ℕ)
        → Relates Rel (post_and_map services app external_url instance_key row categories)
    unfolding post_and_map
    post_and_map-Relates on row categories =
        Relates-bind rules.pre _ _ (rules.posts on row categories)
          (λ remote. rules.maps row.id remote)

    create-Relates :
        app.sync_level ≢ disabled
        → (row : IndexerRow) (report : SyncReport)
        → Relates Rel (create services app external_url instance_key row report)
    unfolding create
    create-Relates on row report =
        Relates-bind rules.pre _ _ (categories_for-Relates row) λ categories.
          Relates-bind rules.pre _ _ (post_and_map-Relates on row categories)
            (λ _. Relates-pure rules.pre _)

    after_put-Relates :
        app.sync_level ≢ disabled
        → (row : IndexerRow) (categories : List ℕ) (resp : HttpResponse)
        → Relates Rel (after_put services app external_url instance_key row categories resp)
    unfolding after_put
    after_put-Relates on row categories resp =
        Relates-if rules.pre (resp.status == 404) _ _ (post_and_map-Relates on row categories)
          (Relates-lift rules.pre _)

    update-Relates :
        (row : IndexerRow) (mapping : MappingRow) (report : SyncReport)
        → app.sync_level ≡ full_sync
        → Relates Rel (update services app external_url instance_key row mapping report)
    unfolding update
    update-Relates row mapping report full =
        Relates-bind rules.pre _ _ (categories_for-Relates row) λ categories.
          Relates-bind rules.pre _ _ (rules.puts full row categories mapping.remote_indexer_id)
            λ resp.
              Relates-bind rules.pre _ _ (after_put-Relates (λ f. cc (full, f)) row categories resp)
                (λ _. Relates-pure rules.pre _)

    sync_mapped-Relates :
        (level : SyncLevel) (found : Option MappingRow) (row : IndexerRow) (report : SyncReport)
        → app.sync_level ≡ level
        → level ≢ disabled
        → Relates Rel (sync_mapped services app external_url instance_key level found row report)
    unfolding sync_mapped
    sync_mapped-Relates level none row report e on = create-Relates (λ f. on (sym e ∙ f)) row report
    sync_mapped-Relates add_only (some mapping) row report e on = Relates-pure rules.pre _
    sync_mapped-Relates full_sync (some mapping) row report e on =
        update-Relates row mapping report e
    sync_mapped-Relates disabled (some mapping) row report e on = absurd (on refl)

    sync_kind-Relates :
        (kind : IndexerKind) (mappings : List MappingRow) (row : IndexerRow) (report : SyncReport)
        → app.sync_level ≢ disabled
        → Relates Rel (sync_kind services app external_url instance_key kind mappings row report)
    unfolding sync_kind
    sync_kind-Relates cardigann mappings row report on =
        sync_mapped-Relates app.sync_level (mapping_of mappings row) row report refl on
    sync_kind-Relates newznab mappings row report on = Relates-pure rules.pre _
    sync_kind-Relates torznab mappings row report on = Relates-pure rules.pre _

    sync_rows-Relates :
        (mappings : List MappingRow) (rows : List IndexerRow) (report : SyncReport)
        → app.sync_level ≢ disabled
        → Relates Rel (sync_rows services app external_url instance_key mappings rows report)
    unfolding sync_rows
    sync_rows-Relates mappings [] report on = Relates-pure rules.pre _
    sync_rows-Relates mappings (row ∷ rest) report on =
        Relates-bind rules.pre _ _ (sync_kind-Relates row.kind mappings row report on)
          (λ report'. sync_rows-Relates mappings rest report' on)

    delete_one-Relates :
        (rows : List IndexerRow) (mapping : MappingRow) (report : SyncReport)
        → app.sync_level ≡ full_sync
        → Relates Rel (delete_one services app external_url instance_key rows mapping report)
    unfolding delete_one
    delete_one-Relates rows mapping report full =
        Relates-if rules.pre (still_enabled rows mapping) _ _ (Relates-pure rules.pre _) (
          Relates-bind rules.pre _ _ (rules.deletes full mapping.remote_indexer_id) λ _.
            Relates-bind rules.pre _ _ (rules.unmaps full mapping.indexer_id)
              (λ _. Relates-pure rules.pre _))

    delete_stale-Relates :
        (rows : List IndexerRow) (mappings : List MappingRow) (report : SyncReport)
        → app.sync_level ≡ full_sync
        → Relates Rel (delete_stale services app external_url instance_key rows mappings report)
    unfolding delete_stale
    delete_stale-Relates rows [] report full = Relates-pure rules.pre _
    delete_stale-Relates rows (mapping ∷ rest) report full =
        Relates-bind rules.pre _ _ (delete_one-Relates rows mapping report full)
          (λ report'. delete_stale-Relates rows rest report' full)

    delete_pass-Relates :
        (level : SyncLevel) (rows : List IndexerRow) (mappings : List MappingRow)
        → app.sync_level ≡ level
        → Relates Rel (delete_pass services app external_url instance_key level rows mappings)
    unfolding delete_pass
    delete_pass-Relates full_sync rows mappings e = delete_stale-Relates rows mappings _ e
    delete_pass-Relates add_only rows mappings e = Relates-pure rules.pre _
    delete_pass-Relates disabled rows mappings e = Relates-pure rules.pre _

    sync_enabled-Relates :
        app.sync_level ≢ disabled
        → Relates Rel (sync_enabled services app external_url instance_key)
    unfolding sync_enabled
    sync_enabled-Relates on = Relates-bind rules.pre _ _ rules.lists λ rows.
        Relates-bind rules.pre _ _ rules.reads λ mappings.
          Relates-bind rules.pre _ _ (delete_pass-Relates app.sync_level rows mappings refl)
            (λ report. sync_rows-Relates mappings (filter (λ row. row.enabled) rows) report on)

    sync_at-Relates :
        (level : SyncLevel)
        → app.sync_level ≡ level
        → Relates Rel (sync_at services app external_url instance_key level)
    unfolding sync_at
    sync_at-Relates disabled e = Relates-pure rules.pre _
    sync_at-Relates add_only e = sync_enabled-Relates (λ f. cc (e, f))
    sync_at-Relates full_sync e = sync_enabled-Relates (λ f. cc (e, f))

    -- What the rules allow holds of the whole sync, whatever its outcome.
    pub sync_application-Relates :
        Relates Rel (sync_application services app external_url instance_key)
    unfolding sync_application
    sync_application-Relates = sync_at-Relates app.sync_level refl
