-- ===== src/CategoryMap/Ids.antt =====
-- What `newznab_ids` of crates/oxidarr-cardigann/src/catmap.rs returns.
use oxidarr.Common.{
  ℕ, ◌≡◌, refl, ◌∙◌, Bool, true, ◌&&◌, List, [], ◌∷◌, map, leb, ◌==◌, arith, inl, inr, Bool-cases,
  ==_iff,
}
use oxidarr.Common.Unique.{contains, nat_eq}
use oxidarr.Categories.Search.{ascending}
use oxidarr.CategoryMap.{CategoryMap, newznab_ids, insert_sorted, sort_unstable, dedup_after, dedup}

abbrev nondecreasing : List ℕ → Bool
nondecreasing [] = true
nondecreasing (x ∷ []) = true
nondecreasing (x ∷ y ∷ r) = leb x y && nondecreasing (y ∷ r)

insert_sorted-nondecreasing :
    (a : ℕ) (r : List ℕ) → nondecreasing r ≡ true → nondecreasing (insert_sorted a r) ≡ true
unfolding insert_sorted
insert_sorted-nondecreasing a [] h = refl
insert_sorted-nondecreasing a (b ∷ []) h = ground arith
insert_sorted-nondecreasing a (b ∷ c ∷ r) h = ground (arith, insert_sorted-nondecreasing a (c ∷ r))

sort_unstable-nondecreasing : (xs : List ℕ) → nondecreasing (sort_unstable xs) ≡ true
unfolding sort_unstable
sort_unstable-nondecreasing [] = refl
sort_unstable-nondecreasing (a ∷ r) =
    insert_sorted-nondecreasing a (sort_unstable r) (sort_unstable-nondecreasing r)

dedup_after-ascending :
    (a : ℕ) (r : List ℕ) → nondecreasing (a ∷ r) ≡ true → ascending (a ∷ dedup_after a r) ≡ true
unfolding dedup_after
dedup_after-ascending a [] h = refl
dedup_after-ascending a (b ∷ r) h = elim (Bool-cases (a == b)) [
  | inl e ↦ rw ((==_iff a b).0 e) (ground (arith, dedup_after-ascending b r))
  | inr e ↦ ground (arith, dedup_after-ascending b r)
]

-- `newznab_ids` is strictly ascending: sorted, and no id twice.
pub newznab_ids-ascending : (m : CategoryMap) → ascending (newznab_ids m) ≡ true
unfolding newznab_ids
newznab_ids-ascending m =
    go (sort_unstable (map (λ e. e.newznab_id) m.entries))
      (sort_unstable-nondecreasing (map (λ e. e.newznab_id) m.entries))
  where
    go : (xs : List ℕ) → nondecreasing xs ≡ true → ascending (dedup xs) ≡ true
    go [] h = refl
    go (a ∷ r) h = dedup_after-ascending a r h

contains-insert_sorted :
    (a n : ℕ) (r : List ℕ) → contains (insert_sorted a r) n ≡ contains (a ∷ r) n
unfolding insert_sorted
contains-insert_sorted a n [] = refl
contains-insert_sorted a n (b ∷ r) = ground (arith, contains-insert_sorted a n r)

contains-sort_unstable : (n : ℕ) (xs : List ℕ) → contains (sort_unstable xs) n ≡ contains xs n
unfolding sort_unstable
contains-sort_unstable n [] = refl
contains-sort_unstable n (a ∷ r) =
    ground (arith, contains-insert_sorted a n (sort_unstable r), contains-sort_unstable n r)

contains-dedup_after :
    (a n : ℕ) (r : List ℕ) → contains (a ∷ dedup_after a r) n ≡ contains (a ∷ r) n
unfolding dedup_after
contains-dedup_after a n [] = refl
contains-dedup_after a n (b ∷ r) = ground (arith, contains-dedup_after b n r)

contains-dedup : (n : ℕ) (xs : List ℕ) → contains (dedup xs) n ≡ contains xs n
unfolding dedup
contains-dedup n [] = refl
contains-dedup n (a ∷ r) = contains-dedup_after a n r

-- `newznab_ids` is strictly ascending, and holds exactly the Newznab ids of the entries.
pub newznab_ids_lem :
    (m : CategoryMap)
    → (ascending (newznab_ids m) ≡ true)
      × ((n : ℕ) → contains (newznab_ids m) n ≡ contains (map (λ e. e.newznab_id) m.entries) n)
newznab_ids_lem m = (newznab_ids-ascending m, same)
  where
    same : (n : ℕ) → contains (newznab_ids m) n ≡ contains (map (λ e. e.newznab_id) m.entries) n
    same n = unfold newznab_ids in (contains-dedup n _ ∙ contains-sort_unstable n _)
