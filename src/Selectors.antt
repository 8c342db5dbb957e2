-- ===== src/Selectors.antt =====
-- crates/oxidarr-cardigann/src/selector.rs: compiled selectors and what they select, over the
-- `scraper` crate.
pub mod Scan
pub mod JsonPath
pub mod Compile
pub mod Order
pub mod Rounds
pub mod Slices
pub mod Panics
use oxidarr.Common.{
  ℕ, Bool, true, false, not, ◌&&◌, ◌||◌, ◌==◌, leb, Option, List, [], ◌∷◌, ◌++◌, any, filter, Text,
  if◌then◌else◌,
}
use oxidarr.Common.Outcome.{Outcome}
use oxidarr.Common.Split.{contains_text}

-- A text node under an element, with the ids of its ancestors, the nearest first.
pub record TextNode : Type 0 where
  pub text : Text
  pub ancestors : List ℕ

-- The `scraper` crate on elements `E` of parsed documents and on selectors `C`: the root element
-- of a document, `Selector::parse` with the `Debug` output of its error, `matches` and `select`,
-- an element's id, its text, its attributes, and the text nodes among its descendants.
pub record Scraper (E C : Type 0) : Type 0 where
  pub parse_document : Text → E
  pub parse_css : Text → Outcome Text C
  pub css_matches : C → E → Bool
  pub css_select : C → E → List E
  pub id : E → ℕ
  pub text : E → Text
  pub attr : Text → E → Option Text
  pub text_nodes : E → List TextNode

-- The flag is `negate`.
mutual
  pub data TextPredicate (C : Type 0) : Type 0 where
    contains : Text → Bool → TextPredicate C
    descendant : C → Predicates C → Bool → TextPredicate C

  pub data Predicates (C : Type 0) : Type 0 where
    none_more : Predicates C
    also : TextPredicate C → Predicates C → Predicates C

pub record Branch (C : Type 0) : Type 0 where
  pub css : C
  pub predicates : Predicates C

pub data CompiledSelector (C : Type 0) : Type 0 where
  css : List (Branch C) → CompiledSelector C
  json_path : CompiledSelector C

-- `b != negate`
abbrev pub differs : Bool → Bool → Bool
differs b true = not b
differs b false = b

abbrev pub is_json_path : {C : Type 0} → CompiledSelector C → Bool
is_json_path json_path = true
is_json_path (css branches) = false

unfoldable pub negated : {C : Type 0} → TextPredicate C → TextPredicate C
negated (contains text negate) = contains text (not negate)
negated (descendant scope nested negate) = descendant scope nested (not negate)

module _ {E C : Type 0} (scraper : Scraper E C) where
  unfoldable mutual
    unfolding contains_text

    pub holds : TextPredicate C → E → Bool
    holds (contains text negate) el = differs (contains_text (scraper.text el) text) negate
    holds (descendant scope nested negate) el =
        differs (any (λ d. all_hold nested d) (scraper.css_select scope el)) negate

    pub all_hold : Predicates C → E → Bool
    all_hold none_more el = true
    all_hold (also p ps) el = holds p el && all_hold ps el

  unfoldable pub matches : CompiledSelector C → E → Bool
  unfolding all_hold
  matches (css branches) el =
      any (λ b. scraper.css_matches b.css el && all_hold b.predicates el) branches
  matches json_path el = false

  -- The elements that one branch selects.
  unfoldable pub branch_select : Branch C → E → List E
  unfolding all_hold
  branch_select branch root =
      filter (all_hold branch.predicates) (scraper.css_select branch.css root)

  -- `found` with the elements of a list that are not in it, by their ids.
  unfoldable pub push_new : List E → List E → List E
  push_new [] found = found
  push_new (el ∷ els) found =
      push_new els
        (if any (λ f. scraper.id f == scraper.id el) found then found else found ++ el ∷ [])

  unfoldable pub collect : List (Branch C) → E → List E → List E
  unfolding push_new branch_select
  collect [] root found = found
  collect (b ∷ branches) root found = collect branches root (push_new (branch_select b root) found)

  -- `sort_by_key`
  unfoldable pub insert : E → List E → List E
  insert el [] = el ∷ []
  insert el (x ∷ xs) =
      let later = insert el xs in
      if leb (scraper.id el) (scraper.id x) then el ∷ x ∷ xs else x ∷ later

  unfoldable pub sort : List E → List E
  unfolding insert
  sort [] = []
  sort (x ∷ xs) = insert x (sort xs)

  unfoldable pub select : CompiledSelector C → E → List E
  unfolding collect sort
  select (css branches) root = sort (collect branches root [])
  select json_path root = []
