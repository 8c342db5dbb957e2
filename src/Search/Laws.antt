-- ===== src/Search/Laws.antt =====
-- The inputs and the paths of a search in crates/oxidarr-indexer/src/builder.rs.
use oxidarr.Common.{
  String, ◌≡◌, ◌≢◌, ◌↔◌, ◌⊎◌, inl, inr, refl, sym, ap, ◌∙◌, Bool, true, false, Option, none, some,
  List, [], ◌∷◌, map, any, Text, text_eq, str_eq, str_eq_iff, if◌then◌else◌, Memᴰ, filter-mem,
  mem-filter, any-mem, any-of-mem, Bool-cases, subst,
}
use oxidarr.Common.Ordered.{get, put_all, put, get-put, get_last, later_or, get_last-get, IsSorted}
use oxidarr.Model.{Definition, Search, SearchPath}
use oxidarr.Template.{is_empty}
use oxidarr.Search.Query.{SearchQuery}
use oxidarr.Search.Paths.{mapped_categories, effective_paths, is_reachable, searched_paths}
use oxidarr.Search.Inputs.{merged_inputs}

put_all-get :
    (key : Text) (pairs map : List (Text × Text))
    → get key (put_all pairs map) ≡ later_or (get key map) (get_last key pairs)
unfolding put_all get_last
put_all-get key [] map = refl
put_all-get key ((k, v) ∷ pairs) map =
    put_all-get key pairs (put k v map)
    ∙ ap (λ o. later_or o (get_last key pairs)) (get-put key k v map)
    ∙ choose (text_eq k key) (get_last key pairs)
  where
    choose :
        (b : Bool) (found : Option Text)
        → later_or (if b then some v else get key map) found
          ≡ later_or (get key map) (later_or (if b then some v else none) found)
    choose b (some w) = refl
    choose true none = refl
    choose false none = refl

-- An input of a path is the one of its own with this key, or else the search's.
pub get-merged_inputs :
    (search : Search) (path : SearchPath) (key : Text)
    → IsSorted path.inputs
    → get key (merged_inputs search path) ≡ later_or (get key search.inputs) (get key path.inputs)
unfolding merged_inputs
get-merged_inputs search path key s =
    put_all-get key path.inputs search.inputs
    ∙ ap (later_or (get key search.inputs)) (get_last-get key path.inputs s)

-- A path serves a search for tracker ids if it is not restricted, there are no ids, or it has one.
abbrev pub Serves : SearchPath → List String → Type 0
Serves path mapped =
    (path.categories ≡ [])
    ⊎ ((mapped ≡ []) ⊎ ((id : String) × Memᴰ id mapped × Memᴰ id path.categories))

module _ (mapped : List String) (path : SearchPath) where
  shares :
      any (λ m. any (λ c. str_eq c m) path.categories) mapped ≡ true
      → (id : String) × Memᴰ id mapped × Memᴰ id path.categories
  shares h =
      let (id, m, e) = any-mem (λ m. any (λ c. str_eq c m) path.categories) mapped h in
      let (c, n, f) = any-mem (λ c. str_eq c id) path.categories e in
      (id, m, subst (λ x. Memᴰ x path.categories) ((str_eq_iff c id).0 f) n)

  shared :
      (id : String)
      → Memᴰ id mapped
      → Memᴰ id path.categories
      → any (λ m. any (λ c. str_eq c m) path.categories) mapped ≡ true
  shared id m n =
      any-of-mem (λ m. any (λ c. str_eq c m) path.categories) mapped m
        (any-of-mem (λ c. str_eq c id) path.categories n ((str_eq_iff id id).1 refl))

true_is_not_false : true ≢ false
true_is_not_false h = cc

empty_iff : (xs : List String) → (is_empty xs ≡ true) ↔ (xs ≡ [])
empty_iff [] = (λ _. refl, λ _. refl)
empty_iff (x ∷ xs) = (λ h. cc, λ h. cc)

is_reachable_lem :
    (path : SearchPath) (mapped : List String)
    → (is_reachable path mapped ≡ true) ↔ Serves path mapped
unfolding is_reachable
is_reachable_lem path mapped = elim (Bool-cases (is_empty path.categories)) [
  | inl e ↦ (λ h. inl ((empty_iff path.categories).0 e), λ s. rw e refl)
  | inr e ↦ elim (Bool-cases (is_empty mapped)) [
    | inl f ↦ (λ h. inr (inl ((empty_iff mapped).0 f)), λ s. rw (e, f) refl)
    | inr f ↦
        (λ h. inr (inr (shares mapped path (rw (e, f) at h))), λ s. rw (e, f) (only_shared e f s))
  ]
]
  where
    only_shared :
        is_empty path.categories ≡ false
        → is_empty mapped ≡ false
        → Serves path mapped
        → any (λ m. any (λ c. str_eq c m) path.categories) mapped ≡ true
    only_shared e f (inl a) = absurd (true_is_not_false (sym ((empty_iff path.categories).1 a) ∙ e))
    only_shared e f (inr (inl b)) = absurd (true_is_not_false (sym ((empty_iff mapped).1 b) ∙ f))
    only_shared e f (inr (inr (id, m, n))) = shared mapped path id m n

-- A search goes to exactly those paths of its definition that are not restricted or share a
-- tracker id with it, and to all of them if it has no tracker ids.
pub mem-searched_paths :
    (def : Definition) (query : SearchQuery) (path : SearchPath)
    → Memᴰ path (searched_paths def query)
      ↔ (Memᴰ path (effective_paths def.search) × Serves path (mapped_categories def query))
unfolding searched_paths
mem-searched_paths def query path = (
  λ m.
      let (n, r) =
        filter-mem (λ p. is_reachable p (mapped_categories def query)) (effective_paths def.search)
          m in
      (n, (is_reachable_lem path (mapped_categories def query)).0 r),
  λ (n, s).
      mem-filter (λ p. is_reachable p (mapped_categories def query)) (effective_paths def.search) n
        ((is_reachable_lem path (mapped_categories def query)).1 s),
)
