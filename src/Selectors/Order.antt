-- ===== src/Selectors/Order.antt =====
-- What `select` gives, in crates/oxidarr-cardigann/src/selector.rs, and that its commas split a selector.
use oxidarr.Common.{
  ℕ, suc, ◌<◌, ◌==◌, ◌≡◌, refl, ap, subst, ◌∙◌, ==_iff, Bool, true, false, ◌&&◌, ◌||◌, leb, List,
  [], ◌∷◌, ◌++◌, any, All, Text, if◌then◌else◌, arith, Bool-cases, inl, inr, tests,
}
use oxidarr.Common.Split.{join, onto_first}
use oxidarr.Template.{is_empty}
use oxidarr.Selectors.{Scraper, Branch, css, branch_select, push_new, collect, insert, sort, select}
use oxidarr.Selectors.Scan.{Place, outside, step, is_outside, split_commas, split_top_level_commas}

or_false : (b : Bool) → (b || false) ≡ b
or_false true = refl
or_false false = refl

module _ {E C : Type 0} (scraper : Scraper E C) where
  -- Whether a list has an element with an id.
  abbrev pub has : ℕ → List E → Bool
  has i els = any (λ el. scraper.id el == i) els

  abbrev Before : ℕ → List E → Type 0
  Before i els = All (λ el. i < scraper.id el) els

  -- Every id is less than the ids after it.
  abbrev pub IsAscending : List E → Type 0
  IsAscending [] = Unit
  IsAscending (el ∷ els) = Before (scraper.id el) els × IsAscending els

  abbrev Distinct : List E → Type 0
  Distinct [] = Unit
  Distinct (el ∷ els) = (has (scraper.id el) els ≡ false) × Distinct els

  has-append : (i : ℕ) (els els' : List E) → has i (els ++ els') ≡ (has i els || has i els')
  has-append i [] els' = refl
  has-append i (el ∷ els) els' = ground (arith, has-append i els els')

  Distinct-append :
      (el : E) (els : List E)
      → Distinct els
      → has (scraper.id el) els ≡ false
      → Distinct (els ++ el ∷ [])
  Distinct-append el [] d h = (refl, tt)
  Distinct-append el (x ∷ els) d h = (
    has-append (scraper.id x) els (el ∷ []) ∙ ground (arith, d, h),
    Distinct-append el els d.1 (ground (arith, h)),
  )

  held :
      (i : ℕ) (el : E) (els found : List E)
      → has (scraper.id el) found ≡ true
      → (has i els || has i found) ≡ ((scraper.id el == i || has i els) || has i found)
  held i el els found h = elim (Bool-cases (scraper.id el == i)) [
    | inl e ↦
        let same = subst (λ j. has j found ≡ true) ((==_iff (scraper.id el) i).0 e) h in
        ground (arith, same, e)
    | inr e ↦ rw e refl
  ]

  has-push_new :
      (i : ℕ) (els found : List E) → has i (push_new scraper els found) ≡ (has i els || has i found)
  unfolding push_new
  has-push_new i [] found = refl
  has-push_new i (el ∷ els) found = elim (Bool-cases (has (scraper.id el) found)) [
    | inl h ↦ rw h (has-push_new i els found ∙ held i el els found h)
    | inr h ↦
        rw h (has-push_new i els (found ++ el ∷ []) ∙ ground (arith, has-append i found (el ∷ [])))
  ]

  Distinct-push_new : (els found : List E) → Distinct found → Distinct (push_new scraper els found)
  unfolding push_new
  Distinct-push_new [] found d = d
  Distinct-push_new (el ∷ els) found d = elim (Bool-cases (has (scraper.id el) found)) [
    | inl h ↦ rw h (Distinct-push_new els found d)
    | inr h ↦ rw h (Distinct-push_new els (found ++ el ∷ []) (Distinct-append el found d h))
  ]

  has-collect :
      (i : ℕ) (branches : List (Branch C)) (root : E) (found : List E)
      → has i (collect scraper branches root found)
        ≡ (any (λ b. has i (branch_select scraper b root)) branches || has i found)
  unfolding collect
  has-collect i [] root found = refl
  has-collect i (b ∷ branches) root found =
      has-collect i branches root (push_new scraper (branch_select scraper b root) found)
      ∙ ground (arith, has-push_new i (branch_select scraper b root) found)

  Distinct-collect :
      (branches : List (Branch C)) (root : E) (found : List E)
      → Distinct found
      → Distinct (collect scraper branches root found)
  unfolding collect
  Distinct-collect [] root found d = d
  Distinct-collect (b ∷ branches) root found d =
      Distinct-collect branches root (push_new scraper (branch_select scraper b root) found)
        (Distinct-push_new (branch_select scraper b root) found d)

  has-insert :
      (i : ℕ) (el : E) (els : List E)
      → has i (insert scraper el els) ≡ (scraper.id el == i || has i els)
  unfolding insert
  has-insert i el [] = refl
  has-insert i el (x ∷ els) = ground (arith, has-insert i el els)

  has-sort : (i : ℕ) (els : List E) → has i (sort scraper els) ≡ has i els
  unfolding sort
  has-sort i [] = refl
  has-sort i (el ∷ els) =
      has-insert i el (sort scraper els) ∙ ap (λ b. (scraper.id el == i) || b) (has-sort i els)

  Before-insert :
      (i : ℕ) (el : E) (els : List E)
      → i < scraper.id el
      → Before i els
      → Before i (insert scraper el els)
  unfolding insert
  Before-insert i el [] h b = (h, tt)
  Before-insert i el (x ∷ els) h b = elim (Bool-cases (leb (scraper.id el) (scraper.id x))) [
    | inl k ↦ rw k (h, b)
    | inr k ↦ rw k (b.0, Before-insert i el els h b.1)
  ]

  Before-trans : (i j : ℕ) (els : List E) → i < j → Before j els → Before i els
  Before-trans i j [] h b = tt
  Before-trans i j (el ∷ els) h b = (omega (arith, h, b.0), Before-trans i j els h b.1)

  leb_lt :
      {el x : E} (els : List E)
      → leb (scraper.id el) (scraper.id x) ≡ true
      → has (scraper.id el) (x ∷ els) ≡ false
      → scraper.id el < scraper.id x
  leb_lt els k h = grind (tests, k, h)

  insert-IsAscending :
      (el : E) (els : List E)
      → has (scraper.id el) els ≡ false
      → IsAscending els
      → IsAscending (insert scraper el els)
  unfolding insert
  insert-IsAscending el [] h a = (tt, tt)
  insert-IsAscending el (x ∷ els) h a = elim (Bool-cases (leb (scraper.id el) (scraper.id x))) [
    | inl k ↦
        rw k (
          (leb_lt els k h, Before-trans (scraper.id el) (scraper.id x) els (leb_lt els k h) a.0),
          a,
        )
    | inr k ↦ rw k (
      Before-insert (scraper.id x) el els (grind (tests, k)) a.0,
      insert-IsAscending el els (ground (arith, h)) a.1,
    )
  ]

  sort-IsAscending : (els : List E) → Distinct els → IsAscending (sort scraper els)
  unfolding sort
  sort-IsAscending [] d = tt
  sort-IsAscending (el ∷ els) d =
      insert-IsAscending el (sort scraper els) (has-sort (scraper.id el) els ∙ d.0)
        (sort-IsAscending els d.1)

  -- A selector gives each element once, in the order of the ids, and the ids are those of the
  -- elements that a branch's CSS selects and for which the branch's predicates hold.
  pub select_lem :
      (branches : List (Branch C)) (root : E)
      → IsAscending (select scraper (css branches) root)
        × ((i : ℕ)
            → has i (select scraper (css branches) root)
              ≡ any (λ b. has i (branch_select scraper b root)) branches)
  unfolding select
  select_lem branches root = (
    sort-IsAscending (collect scraper branches root []) (Distinct-collect branches root [] tt),
    λ i.
        has-sort i (collect scraper branches root [])
        ∙ has-collect i branches root []
        ∙ or_false (any (λ b. has i (branch_select scraper b root)) branches),
  )

not_empty : (c : ℕ) (parts : List Text) → is_empty (onto_first c parts) ≡ false
not_empty c [] = refl
not_empty c (part ∷ parts) = refl

split_commas-is_empty :
    (opened closed : ℕ) (place : Place) (s : Text)
    → is_empty (split_commas opened closed place s) ≡ false
unfolding split_commas
split_commas-is_empty opened closed place [] = refl
split_commas-is_empty opened closed place (c ∷ s) =
    ground (arith, not_empty c (split_commas _ _ (step place c) s))

join-onto_first :
    (c : ℕ) (parts : List Text) → join (44 ∷ []) (onto_first c parts) ≡ c ∷ join (44 ∷ []) parts
unfolding join
join-onto_first c [] = refl
join-onto_first c (part ∷ []) = refl
join-onto_first c (part ∷ part' ∷ parts) = refl

join-empty_first :
    (parts : List Text)
    → is_empty parts ≡ false
    → join (44 ∷ []) ([] ∷ parts) ≡ 44 ∷ join (44 ∷ []) parts
unfolding join
join-empty_first [] h = cc
join-empty_first (part ∷ parts) h = refl

join-split_commas :
    (opened closed : ℕ) (place : Place) (s : Text)
    → join (44 ∷ []) (split_commas opened closed place s) ≡ s
unfolding split_commas join
join-split_commas opened closed place [] = refl
join-split_commas opened closed place (c ∷ s) =
    let opened' = if is_outside place && c == 40 then suc opened else opened in
    let closed' = if is_outside place && c == 41 then suc closed else closed in
    let rest = split_commas opened' closed' (step place c) s in
    let same = join-split_commas opened' closed' (step place c) s in
    elim (Bool-cases (is_outside place && c == 44 && opened == closed)) [
      | inl e ↦ rw e (
          join-empty_first rest (split_commas-is_empty opened' closed' (step place c) s)
          ∙ ground (arith, e, same))
      | inr e ↦ rw e (join-onto_first c rest ∙ ap (λ t. c ∷ t) same)
    ]

-- The parts of a selector with commas between them are the selector.
join-split_top_level_commas : (s : Text) → join (44 ∷ []) (split_top_level_commas s) ≡ s
unfolding split_top_level_commas
join-split_top_level_commas s = join-split_commas 0 0 outside s
