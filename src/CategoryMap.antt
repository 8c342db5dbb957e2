-- ===== src/CategoryMap.antt =====
-- crates/oxidarr-cardigann/src/catmap.rs: a definition's tracker categories and the standard
-- Newznab table.
pub mod Lookup
pub mod Ids
pub mod Build
use oxidarr.Common.{
  ℕ, String, Bool, true, false, not, ◌&&◌, ◌||◌, Option, none, some, List, [], ◌∷◌, ◌++◌, map, leb,
  ◌==◌, if◌then◌else◌, any, find, str_eq,
}
use oxidarr.Common.Unique.{contains, nat_eq, string_eq}
use oxidarr.Model.{CategoryMapping}
use oxidarr.Categories.{all_categories, parent_of}
use oxidarr.Categories.Table.{NewznabCategory}

pub record Entry : Type 0 where
  pub tracker_id : String
  pub newznab_id : ℕ

pub record CategoryMap : Type 0 where
  pub entries : List Entry
  pub defaults : List String

-- `categories::all().iter().find(|c| c.name == mapping.cat)`
unfoldable pub category_named : String → Option NewznabCategory
category_named cat = find (λ c. str_eq c.name cat) all_categories

push_found : String → List Entry → Option NewznabCategory → List Entry
push_found id entries none = entries
push_found id entries (some category) =
    entries ++ record { tracker_id = id; newznab_id = category.id } ∷ []

push_entry : CategoryMapping → List Entry → List Entry
unfolding push_found
push_entry mapping entries = push_found mapping.id entries (category_named mapping.cat)

push_default : CategoryMapping → List String → List String
push_default mapping defaults =
    if mapping.default && not (contains defaults mapping.id)
    then defaults ++ mapping.id ∷ []
    else defaults

build : List CategoryMapping → List Entry → List String → CategoryMap
build [] entries defaults = record { entries = entries; defaults = defaults }
build (mapping ∷ rest) entries defaults =
    build rest (push_entry mapping entries) (push_default mapping defaults)

unfoldable pub from_definition : List CategoryMapping → CategoryMap
unfolding build push_entry push_default category_named
from_definition categorymappings = build categorymappings [] []

to_newznab_loop : String → List Entry → List ℕ → List ℕ
to_newznab_loop tracker_id [] ids = ids
to_newznab_loop tracker_id (entry ∷ rest) ids = to_newznab_loop tracker_id rest (
    if str_eq entry.tracker_id tracker_id && not (contains ids entry.newznab_id)
    then ids ++ entry.newznab_id ∷ []
    else ids)

unfoldable pub to_newznab : CategoryMap → String → List ℕ
unfolding to_newznab_loop
to_newznab m tracker_id = to_newznab_loop tracker_id m.entries []

-- `categories::parent_of(entry.newznab_id) == Some(wanted)`
parent_is : ℕ → Option ℕ → Bool
parent_is wanted none = false
parent_is wanted (some p) = p == wanted

unfoldable pub entry_matches : List ℕ → Entry → Bool
unfolding parent_is
entry_matches newznab entry =
    any (λ wanted. wanted == entry.newznab_id || parent_is wanted (parent_of entry.newznab_id))
      newznab

to_tracker_loop : List ℕ → List Entry → List String → List String
to_tracker_loop newznab [] ids = ids
to_tracker_loop newznab (entry ∷ rest) ids = to_tracker_loop newznab rest (
    if entry_matches newznab entry && not (contains ids entry.tracker_id)
    then ids ++ entry.tracker_id ∷ []
    else ids)

unfoldable pub to_tracker : CategoryMap → List ℕ → List String
unfolding to_tracker_loop entry_matches
to_tracker m newznab = to_tracker_loop newznab m.entries []

-- `sort_unstable` of the standard library, on numbers: equal elements cannot be told apart.
unfoldable pub insert_sorted : ℕ → List ℕ → List ℕ
insert_sorted a [] = a ∷ []
insert_sorted a (b ∷ r) = if leb a b then a ∷ b ∷ r else b ∷ insert_sorted a r

unfoldable pub sort_unstable : List ℕ → List ℕ
sort_unstable [] = []
sort_unstable (a ∷ r) = insert_sorted a (sort_unstable r)

-- `Vec::dedup`: of equal neighbours the first stays.
unfoldable pub dedup_after : ℕ → List ℕ → List ℕ
dedup_after a [] = []
dedup_after a (b ∷ r) = let rest = dedup_after b r in if a == b then rest else b ∷ rest

unfoldable pub dedup : List ℕ → List ℕ
dedup [] = []
dedup (a ∷ r) = a ∷ dedup_after a r

unfoldable pub newznab_ids : CategoryMap → List ℕ
unfolding insert_sorted sort_unstable dedup_after dedup
newznab_ids m = dedup (sort_unstable (map (λ e. e.newznab_id) m.entries))
