-- ===== src/Sync/Mapped.antt =====
-- Which indexers are mapped to an application after a successful sync of it.
use oxidarr.Common.{
  ℕ, ◌≡◌, refl, ◌∙◌, ap, Text, Option, none, some, Bool, true, false, ◌&&◌, ◌||◌, List, [], ◌∷◌,
  arith, any, ◌==◌, ==_refl, subst, Bool-cases, inl, inr,
}
use oxidarr.Common.Outcome.{Outcome}
use oxidarr.Common.Act.{
  IsPreorder, Relates, Relates-bind, Relates-pure, Relates-Yields, Yields, Yields-pure, Yields-bind,
  Yields-imp, Yields-if, Yields-lift,
}
use oxidarr.Db.Conn.{Tables}
use oxidarr.Db.Kinds.{
  IndexerKind, cardigann, newznab, torznab, SyncLevel, disabled, add_only, full_sync,
}
use oxidarr.Db.Rows.{IndexerRow, ApplicationRow, MappingRow}
use oxidarr.Db.Mappings.Held.{holds, set-holds}
use oxidarr.Definitions as Definitions
use oxidarr.Http.{Url, HttpResponse}
use oxidarr.Sync.World.{
  Services, World, SyncReport, SyncError, definition, Yields-in_db, Relates-in_definitions,
}
use oxidarr.Sync.Payload.{build_indexer_payload}
use oxidarr.Sync.Remote.{ensure_success}
use oxidarr.Sync.OnTables.{InWorld, InWorld-IsPreorder, post_indexer-InWorld, put_indexer-InWorld}
use oxidarr.Sync.Run.{
  mapping_of, categories_of, categories_for, post_and_map, create, after_put, update, sync_mapped,
  sync_kind,
}

abbrev pub is_cardigann : IndexerKind → Bool
is_cardigann cardigann = true
is_cardigann _ = false

abbrev pub is_enabled : List IndexerRow → ℕ → Bool
is_enabled rows indexer = any (λ row. row.id == indexer && row.enabled) rows

-- One of the rows is a Cardigann indexer with this id.
abbrev pub has_cardigann : List IndexerRow → ℕ → Bool
has_cardigann rows indexer = any (λ row. row.id == indexer && is_cardigann row.kind) rows

abbrev pub lists : List MappingRow → ℕ → Bool
lists ms indexer = any (λ m. m.indexer_id == indexer) ms

found-lists :
    (row : IndexerRow) (m : MappingRow) (ms : List MappingRow)
    → mapping_of ms row ≡ some m
    → lists ms row.id ≡ true
unfolding mapping_of
found-lists row m [] h = cc
found-lists row m (x ∷ rest) h = ground (arith, found-lists row m rest)

pub same : IsPreorder (λ (t t' : Tables). t' ≡ t)
same = record { stay = λ t. refl; step = λ h k. k ∙ h }

module _ {R : Type 0} (services : Services R) (app : ApplicationRow) (external_url : Url)
    (instance_key : Text) where
  abbrev pub maps : World R → ℕ → Bool
  maps w indexer = holds w.conn.tables app.id indexer

  -- An action that leaves the tables alone.
  pub quiet :
      {A : Type 0} (m : World R → Outcome SyncError A × World R) (w : World R)
      → Relates (InWorld same) m
      → Yields m w (λ a w'. w'.conn.tables ≡ w.conn.tables)
  quiet m w h = Relates-Yields m w h

  categories_of-quiet :
      (kind : IndexerKind) (row : IndexerRow)
      → Relates (InWorld same) (categories_of services kind row)
  unfolding categories_of
  categories_of-quiet cardigann row =
      Relates-bind (InWorld-IsPreorder same) _ _
        (Relates-in_definitions (definition row.definition_id)
          (Definitions.get services.files row.definition_id) (λ w. refl))
        (λ def. Relates-pure (InWorld-IsPreorder same) _)
  categories_of-quiet newznab row = Relates-pure (InWorld-IsPreorder same) _
  categories_of-quiet torznab row = Relates-pure (InWorld-IsPreorder same) _

  categories_for-quiet : (row : IndexerRow) → Relates (InWorld same) (categories_for services row)
  unfolding categories_for
  categories_for-quiet row = categories_of-quiet row.kind row

  pub unmoved :
      (w w' : World R)
      → w'.conn.tables ≡ w.conn.tables
      → (indexer : ℕ) → maps w' indexer ≡ maps w indexer
  unmoved w w' e indexer = ap (λ t. holds t app.id indexer) e

  post_and_map-maps :
      (row : IndexerRow) (categories : List ℕ) (indexer : ℕ) (w : World R)
      → Yields
          (post_and_map services app external_url instance_key row categories)
          w
          (λ u w'. maps w' indexer ≡ (row.id == indexer || maps w indexer))
  unfolding post_and_map
  post_and_map-maps row categories indexer w =
      Yields-bind _ _ (quiet _ w (post_indexer-InWorld same services app _)) λ remote w1 e.
        Yields-in_db _ w1 (
          Yields-imp _ (set-holds services.disk w1.conn _ app.id indexer)
            λ u c h. ground (arith, h, unmoved w w1 e indexer, ==_refl app.id))

  create-maps :
      (row : IndexerRow) (report : SyncReport) (indexer : ℕ) (w : World R)
      → Yields
          (create services app external_url instance_key row report)
          w
          (λ r w'. maps w' indexer ≡ (row.id == indexer || maps w indexer))
  unfolding create
  create-maps row report indexer w =
      Yields-bind _ _ (quiet _ w (categories_for-quiet row)) λ categories w1 e.
        Yields-bind _ _ (post_and_map-maps row categories indexer w1)
          λ _ w2 h. Yields-pure _ (ground (arith, h, unmoved w w1 e indexer))

  already_there :
      (row : IndexerRow) (indexer : ℕ) (w : World R)
      → maps w row.id ≡ true
      → maps w indexer ≡ (row.id == indexer || maps w indexer)
  already_there row indexer w there = elim (Bool-cases (row.id == indexer)) [
    | inl e ↦ rw e (subst (λ i. maps w i ≡ true) {x = row.id} (ground (arith, e)) there)
    | inr e ↦ rw e refl
  ]

  -- The row's own mapping is there already.
  after_put-maps :
      (row : IndexerRow) (categories : List ℕ) (resp : HttpResponse) (indexer : ℕ) (w : World R)
      → maps w row.id ≡ true
      → Yields
          (after_put services app external_url instance_key row categories resp)
          w
          (λ u w'. maps w' indexer ≡ (row.id == indexer || maps w indexer))
  unfolding after_put
  after_put-maps row categories resp indexer w there =
      Yields-if (resp.status == 404) _ _ (λ _. post_and_map-maps row categories indexer w)
        (λ _.
          Yields-lift (ensure_success services app resp) (λ u e. already_there row indexer w there))

  update-maps :
      (row : IndexerRow) (mapping : MappingRow) (report : SyncReport) (indexer : ℕ) (w : World R)
      → maps w row.id ≡ true
      → Yields
          (update services app external_url instance_key row mapping report)
          w
          (λ r w'. maps w' indexer ≡ (row.id == indexer || maps w indexer))
  unfolding update
  update-maps row mapping report indexer w there =
      Yields-bind _ _ (quiet _ w (categories_for-quiet row)) λ categories w1 e.
        Yields-bind _ _
          (quiet _ w1 (
            put_indexer-InWorld same services app mapping.remote_indexer_id (
              build_indexer_payload row external_url instance_key categories
                (some mapping.remote_indexer_id))))
          λ resp w2 f.
            Yields-bind _ _
              (after_put-maps row categories resp indexer w2
                (unmoved w1 w2 f row.id ∙ unmoved w w1 e row.id ∙ there))
              λ _ w3 h.
                Yields-pure _ (ground (arith, h, unmoved w w1 e indexer, unmoved w1 w2 f indexer))

  sync_mapped-maps :
      (level : SyncLevel) (found : Option MappingRow) (row : IndexerRow) (report : SyncReport)
      (indexer : ℕ) (w : World R)
      → ((m : MappingRow) → found ≡ some m → maps w row.id ≡ true)
      → Yields
          (sync_mapped services app external_url instance_key level found row report)
          w
          (λ r w'. maps w' indexer ≡ (row.id == indexer || maps w indexer))
  unfolding sync_mapped
  sync_mapped-maps level none row report indexer w there = create-maps row report indexer w
  sync_mapped-maps add_only (some m) row report indexer w there =
      Yields-pure _ (already_there row indexer w (there m refl))
  sync_mapped-maps full_sync (some m) row report indexer w there =
      update-maps row m report indexer w (there m refl)
  sync_mapped-maps disabled (some m) row report indexer w there =
      update-maps row m report indexer w (there m refl)

  pub sync_kind-maps :
      (kind : IndexerKind) (ms : List MappingRow) (row : IndexerRow) (report : SyncReport)
      (indexer : ℕ) (w : World R)
      → (lists ms row.id ≡ true → maps w row.id ≡ true)
      → Yields
          (sync_kind services app external_url instance_key kind ms row report)
          w
          (λ r w'. maps w' indexer ≡ (row.id == indexer && is_cardigann kind || maps w indexer))
  unfolding sync_kind
  sync_kind-maps cardigann ms row report indexer w there =
      Yields-imp _
        (sync_mapped-maps app.sync_level (mapping_of ms row) row report indexer w
          (λ m e. there (found-lists row m ms e)))
        λ r w' h. ground (arith, h)
  sync_kind-maps newznab ms row report indexer w there = Yields-pure _ (ground arith)
  sync_kind-maps torznab ms row report indexer w there = Yields-pure _ (ground arith)
