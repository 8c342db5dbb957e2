-- ===== src/CategoryMap/Lookup.antt =====
-- What `to_newznab` and `to_tracker` of crates/oxidarr-cardigann/src/catmap.rs return.
use oxidarr.Common.{
  ℕ, String, ◌≡◌, refl, sym, ◌∙◌, ap, Bool, true, ◌⊎◌, inl, inr, ◌↔◌, some, List, [], ◌∷◌, map,
  ◌==◌, ==_iff, ==_refl, arith, filter, str_eq, Memᴰ, Bool-cases, Option-cases, filter-mem,
  mem-filter, any-mem, any-of-mem, subst,
}
use mathlib.Core.List.Memᴰ
use oxidarr.Common.Unique.{
  push_new, push_new_if, collect, unique, collect_empty, contains-unique, contains→mem,
  mem→contains, nat_eq, string_eq,
}
use oxidarr.Categories.{parent_of}
use oxidarr.CategoryMap.{
  Entry, CategoryMap, to_newznab, to_newznab_loop, to_tracker, to_tracker_loop, entry_matches,
}

to_newznab_loop-collect :
    (t : String) (entries : List Entry) (ids : List ℕ)
    → to_newznab_loop t entries ids
      ≡ collect (map (λ e. e.newznab_id) (filter (λ e. str_eq e.tracker_id t) entries)) ids
unfolding to_newznab_loop
to_newznab_loop-collect t [] ids = refl
to_newznab_loop-collect t (e ∷ rest) ids = elim (Bool-cases (str_eq e.tracker_id t)) [
  | inl same ↦ rw same (
      ap (to_newznab_loop t rest) (push_new_if ids e.newznab_id)
      ∙ to_newznab_loop-collect t rest (push_new ids e.newznab_id))
  | inr other ↦ rw other (to_newznab_loop-collect t rest ids)
]

to_tracker_loop-collect :
    (wanted : List ℕ) (entries : List Entry) (ids : List String)
    → to_tracker_loop wanted entries ids
      ≡ collect (map (λ e. e.tracker_id) (filter (entry_matches wanted) entries)) ids
unfolding to_tracker_loop
to_tracker_loop-collect wanted [] ids = refl
to_tracker_loop-collect wanted (e ∷ rest) ids = elim (Bool-cases (entry_matches wanted e)) [
  | inl same ↦ rw same (
      ap (to_tracker_loop wanted rest) (push_new_if ids e.tracker_id)
      ∙ to_tracker_loop-collect wanted rest (push_new ids e.tracker_id))
  | inr other ↦ rw other (to_tracker_loop-collect wanted rest ids)
]

-- `to_newznab` gives the Newznab ids of the entries with this tracker id, in declaration order,
-- each at its first occurrence only.
pub to_newznab-unique :
    (m : CategoryMap) (t : String)
    → to_newznab m t
      ≡ unique (map (λ e. e.newznab_id) (filter (λ e. str_eq e.tracker_id t) m.entries))
unfolding to_newznab
to_newznab-unique m t = to_newznab_loop-collect t m.entries [] ∙ collect_empty _

-- `to_tracker` gives the tracker ids of the entries that match a wanted id, in declaration order,
-- each at its first occurrence only.
pub to_tracker-unique :
    (m : CategoryMap) (wanted : List ℕ)
    → to_tracker m wanted
      ≡ unique (map (λ e. e.tracker_id) (filter (entry_matches wanted) m.entries))
unfolding to_tracker
to_tracker-unique m wanted = to_tracker_loop-collect wanted m.entries [] ∙ collect_empty _

-- An entry is wanted: by its own id, or by the id of its parent block.
abbrev pub Wanted : List ℕ → Entry → Type 0
Wanted wanted e =
    Memᴰ e.newznab_id wanted ⊎ ((p : ℕ) × (parent_of e.newznab_id ≡ some p) × Memᴰ p wanted)

entry_matches→Wanted :
    (wanted : List ℕ) (e : Entry) → entry_matches wanted e ≡ true → Wanted wanted e
unfolding entry_matches
entry_matches→Wanted wanted e h =
    let (w, m, q) = any-mem _ wanted h in
    elim (Bool-cases (w == e.newznab_id)) [
      | inl same ↦ inl (subst (λ x. Memᴰ x wanted) ((==_iff w e.newznab_id).0 same) m)
      | inr other ↦ elim (Option-cases (parent_of e.newznab_id)) [
        | inl no_parent ↦ cc (other, no_parent, q)
        | inr (p, has) ↦ inr (p, has, subst (λ x. Memᴰ x wanted) (ground (arith, q, other, has)) m)
      ]
    ]

Wanted→entry_matches :
    (wanted : List ℕ) (e : Entry) → Wanted wanted e → entry_matches wanted e ≡ true
unfolding entry_matches
Wanted→entry_matches wanted e (inl m) = any-of-mem _ wanted m (ground (arith, ==_refl e.newznab_id))
Wanted→entry_matches wanted e (inr (p, has, m)) =
    any-of-mem _ wanted m (rw has (ground (arith, ==_refl p)))

mem-unique-map-filter :
    (f : Entry → String) (p : Entry → Bool) (es : List Entry) {t : String}
    → Memᴰ t (unique (map f (filter p es)))
    → (e : Entry) × Memᴰ e es × (p e ≡ true) × (f e ≡ t)
mem-unique-map-filter f p es {t} m =
    let held = mem→contains _ m in
    let in_map = contains→mem _ t (sym (contains-unique (map f (filter p es)) t) ∙ held) in
    let (e, kept, same) = Memᴰ.of_map f (filter p es) in_map in
    let (inside, holds) = filter-mem p es kept in (e, inside, holds, same)

unique-map_filter-mem :
    (f : Entry → String) (p : Entry → Bool) (es : List Entry) {e : Entry}
    → Memᴰ e es
    → p e ≡ true
    → Memᴰ (f e) (unique (map f (filter p es)))
unique-map_filter-mem f p es {e} m h = contains→mem _ (f e) (
    contains-unique (map f (filter p es)) (f e) ∙ mem→contains _ (Memᴰ.map f (mem-filter p es m h)))

-- A tracker id is in `to_tracker` exactly when some entry with this tracker id is wanted by its own
-- Newznab id or by the id of its parent block, and never through one of its children.
pub mem-to_tracker :
    (m : CategoryMap) (wanted : List ℕ) (t : String)
    → Memᴰ t (to_tracker m wanted)
      ↔ ((e : Entry) × Memᴰ e m.entries × Wanted wanted e × (e.tracker_id ≡ t))
mem-to_tracker m wanted t = (
  λ h.
      let (e, inside, holds, same) =
        mem-unique-map-filter (λ e. e.tracker_id) (entry_matches wanted) m.entries
          (rw (to_tracker-unique m wanted) at h) in
      (e, inside, entry_matches→Wanted wanted e holds, same),
  λ (e, inside, w, same). rw (to_tracker-unique m wanted) (
      subst
        (λ x. Memᴰ x (unique (map (λ e. e.tracker_id) (filter (entry_matches wanted) m.entries))))
        same
        (unique-map_filter-mem (λ e. e.tracker_id) (entry_matches wanted) m.entries inside
          (Wanted→entry_matches wanted e w))),
)
