-- ===== src/CategoryMap/Build.antt =====
-- What `CategoryMap::from_definition` of crates/oxidarr-cardigann/src/catmap.rs builds.
use mathlib.Core.List.{append-nil, append_assoc}
use oxidarr.Common.{
  ℕ, String, ◌≡◌, refl, sym, ◌∙◌, ap, Bool, true, not, ◌&&◌, Option, none, some, List, [], ◌∷◌,
  ◌++◌, map, arith, if◌then◌else◌, filter, all, all-mem, str_eq, str_eq_iff, Memᴰ, Bool-cases,
  Option-cases, inl, inr, find, find-mem,
}
use oxidarr.Common.Unique.{push_new, push_new_if, collect, unique, collect_empty, string_eq}
use oxidarr.Categories.{all_categories}
use oxidarr.Categories.Table.{NewznabCategory}
use oxidarr.Model.{CategoryMapping}
use oxidarr.CategoryMap.{
  Entry, category_named, push_found, push_entry, push_default, build, from_definition,
}

-- The entry that one row contributes.
abbrev pub entry_found : String → Option NewznabCategory → List Entry
entry_found id none = []
entry_found id (some category) = record { tracker_id = id; newznab_id = category.id } ∷ []

abbrev pub entry_of : CategoryMapping → List Entry
entry_of mapping = entry_found mapping.id (category_named mapping.cat)

abbrev pub entries_of : List CategoryMapping → List Entry
entries_of [] = []
entries_of (mapping ∷ rest) = entry_of mapping ++ entries_of rest

push_found_lem :
    (id : String) (entries : List Entry) (found : Option NewznabCategory)
    → push_found id entries found ≡ entries ++ entry_found id found
unfolding push_found
push_found_lem id entries none = sym (append-nil entries)
push_found_lem id entries (some c) = refl

build-entries :
    (rows : List CategoryMapping) (entries : List Entry) (defaults : List String)
    → (build rows entries defaults).entries ≡ entries ++ entries_of rows
unfolding build push_entry
build-entries [] entries defaults = sym (append-nil entries)
build-entries (mapping ∷ rest) entries defaults =
    build-entries rest (push_entry mapping entries) (push_default mapping defaults)
    ∙ ap (λ l. l ++ entries_of rest)
        (push_found_lem mapping.id entries (category_named mapping.cat))
    ∙ append_assoc entries (entry_of mapping) (entries_of rest)

build-defaults :
    (rows : List CategoryMapping) (entries : List Entry) (defaults : List String)
    → (build rows entries defaults).defaults
      ≡ collect (map (λ r. r.id) (filter (λ r. r.default) rows)) defaults
unfolding build push_default push_entry
build-defaults [] entries defaults = refl
build-defaults (mapping ∷ rest) entries defaults = elim (Bool-cases mapping.default) [
  | inl e ↦ rw e (
      ap (λ d. (build rest (push_entry mapping entries) d).defaults)
        (push_new_if defaults mapping.id)
      ∙ build-defaults rest (push_entry mapping entries) (push_new defaults mapping.id))
  | inr e ↦ rw e (build-defaults rest (push_entry mapping entries) defaults)
]

-- `from_definition` keeps, in order, one entry for each row whose `cat` names a category, and as
-- defaults the first occurrences of the ids flagged `default`, whether or not `cat` resolves.
from_definition_lem :
    (rows : List CategoryMapping)
    → ((from_definition rows).entries ≡ entries_of rows)
      × ((from_definition rows).defaults ≡ unique (map (λ r. r.id) (filter (λ r. r.default) rows)))
unfolding from_definition
from_definition_lem rows = (build-entries rows [] [], build-defaults rows [] [] ∙ collect_empty _)

resolves : NewznabCategory → Bool
resolves c = elim (category_named c.name) [ none ↦ Bool.false | some d ↦ nat_same d.id c.id ]
  where
    nat_same : ℕ → ℕ → Bool
    nat_same a b = oxidarr.Common.◌==◌ a b

all_resolve : all resolves all_categories ≡ true
unfolding resolves category_named
all_resolve = refl

-- The name of each row of the standard table resolves to a category with that row's id: no two
-- rows share a name and differ in id.
pub category_named-id :
    {c : NewznabCategory}
    → Memᴰ c all_categories
    → (d : NewznabCategory) × (category_named c.name ≡ some d) × (d.id ≡ c.id)
unfolding resolves
category_named-id {c} m = elim (Option-cases (category_named c.name)) [
  | inl e ↦ cc (rw (e, resolves) at (all-mem resolves all_categories all_resolve m))
  | inr (d, e) ↦ (d, e, ground (arith, e, all-mem resolves all_categories all_resolve m))
]
