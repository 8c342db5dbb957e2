-- ===== src/Categories/Search.antt =====
-- `slice::binary_search_by_key` of the standard library, which `by_id` of
-- crates/oxidarr-cardigann/src/categories.rs calls, over the list of keys.
use oxidarr.Common.{
  ℕ, zero, suc, ◌+◌, ◌-◌, ◌/◌, ◌≤◌, ◌<◌, ◌≡◌, refl, inl, inr, Bool, true, ◌&&◌, Option, none, some,
  List, [], ◌∷◌, map, arith, ltb, ◌==◌, if◌then◌else◌, length, get_elem?, find, Bool-cases,
  Option-cases, ==_iff, ==_refl, sym, subst,
}

abbrev pub get_or : List ℕ → ℕ → ℕ
get_or [] i = 0
get_or (x ∷ xs) zero = x
get_or (x ∷ xs) (suc i) = get_or xs i

-- `while size > 1`: the fuel is the length of the slice, and each round takes at least one off.
unfoldable pub search_loop : List ℕ → ℕ → ℕ → ℕ → ℕ → ℕ
search_loop keys wanted zero size base = base
search_loop keys wanted (suc f) size base =
    let half = size / 2 in
    let mid = base + half in
    let rest =
      search_loop keys wanted f (size - half)
        (if ltb wanted (get_or keys mid) then base else mid) in
    if ltb 1 size then rest else base

unfoldable pub binary_search : List ℕ → ℕ → Option ℕ
unfolding search_loop
binary_search keys wanted =
    let size = length keys in
    let base = search_loop keys wanted size size 0 in
    if size == 0 then none else if get_or keys base == wanted then some base else none

-- Each key is below the next.
abbrev pub ascending : List ℕ → Bool
ascending [] = true
ascending (x ∷ []) = true
ascending (x ∷ y ∷ r) = ltb x y && ascending (y ∷ r)

head-lt : (x : ℕ) (r : List ℕ) (j : ℕ) → ascending (x ∷ r) ≡ true → j < length r → x < get_or r j
head-lt x [] j h lt = elim lt [ ]
head-lt x (y ∷ r) zero h lt = ground arith
head-lt x (y ∷ r) (suc j) h lt = ground (arith, head-lt y r j)

ascending_tail : (x : ℕ) (r : List ℕ) → ascending (x ∷ r) ≡ true → ascending r ≡ true
ascending_tail x [] h = refl
ascending_tail x (y ∷ r) h = ground arith

get_or-lt :
    (keys : List ℕ) (i j : ℕ)
    → ascending keys ≡ true
    → i < j
    → j < length keys
    → get_or keys i < get_or keys j
get_or-lt [] i j h lt b = elim b [ ]
get_or-lt (x ∷ r) i zero h lt b = elim lt [ ]
get_or-lt (x ∷ r) zero (suc j) h lt b = head-lt x r j h (omega arith)
get_or-lt (x ∷ r) (suc i) (suc j) h lt b =
    get_or-lt r i j (ascending_tail x r h) (omega arith) (omega arith)

search_loop_bound :
    (keys : List ℕ) (wanted f size base : ℕ)
    → 0 < size
    → search_loop keys wanted f size base < base + size
unfolding search_loop
search_loop_bound keys wanted zero size base h = omega arith
search_loop_bound keys wanted (suc f) size base h = ground (
  arith,
  search_loop_bound keys wanted f (size - size / 2) base,
  search_loop_bound keys wanted f (size - size / 2) (base + size / 2),
)

-- The loop ends at the position of the wanted key, if that lies in the part searched.
search_loop_finds :
    (keys : List ℕ) (wanted f size base i : ℕ)
    → ascending keys ≡ true
    → get_or keys i ≡ wanted
    → base ≤ i
    → i < base + size
    → base + size ≤ length keys
    → size ≤ f
    → search_loop keys wanted f size base ≡ i
unfolding search_loop
search_loop_finds keys wanted zero size base i asc e lo hi n fuel = absurd (omega arith)
search_loop_finds keys wanted (suc f) size base i asc e lo hi n fuel = ground (
  arith,
  get_or-lt keys i (base + size / 2) asc,
  get_or-lt keys (base + size / 2) i asc,
  search_loop_finds keys wanted f (size - size / 2) base i asc e,
  search_loop_finds keys wanted f (size - size / 2) (base + size / 2) i asc e,
)

-- On ascending keys the search finds the position of a key that is there, and no other.
pub binary_search_finds :
    (keys : List ℕ) (i : ℕ)
    → ascending keys ≡ true
    → i < length keys
    → binary_search keys (get_or keys i) ≡ some i
unfolding binary_search
binary_search_finds keys i asc lt = ground (
  arith,
  search_loop_finds keys (get_or keys i) (length keys) (length keys) 0 i asc refl,
  ==_refl (get_or keys i),
)

pub binary_search_sound :
    (keys : List ℕ) (wanted i : ℕ)
    → binary_search keys wanted ≡ some i
    → (i < length keys) × (get_or keys i ≡ wanted)
unfolding binary_search
binary_search_sound keys wanted i h =
    ground (arith, search_loop_bound keys wanted (length keys) (length keys) 0)

-- Searched through by `f`, a list gives its first element at the wanted key.
module _ {ℓ} {A : Type ℓ} (f : A → ℕ) where
  find_at :
      (xs : List A) (i : ℕ)
      → ascending (map f xs) ≡ true
      → i < length (map f xs)
      → find (λ x. f x == get_or (map f xs) i) xs ≡ get_elem? xs i
  find_at [] i asc lt = elim lt [ ]
  find_at (x ∷ xs) zero asc lt = ground (arith, ==_refl (f x))
  find_at (x ∷ xs) (suc i) asc lt =
      ground
        (arith, head-lt (f x) (map f xs) i asc, ascending_tail (f x) (map f xs) asc, find_at xs i)

  position :
      (xs : List A) (wanted : ℕ) {a : A}
      → find (λ x. f x == wanted) xs ≡ some a
      → (i : ℕ) × (i < length (map f xs)) × (get_or (map f xs) i ≡ wanted)
  position [] wanted h = cc
  position (x ∷ xs) wanted {a} h = elim (Bool-cases (f x == wanted)) [
    | inl e ↦ (0, omega arith, (==_iff _ _).0 e)
    | inr e ↦
        let (i, lt, same) = position xs wanted {a = a} (rw e at h) in (suc i, omega arith, same)
  ]

  unfoldable pub lookup_by : List A → ℕ → Option A
  lookup_by xs wanted = elim (binary_search (map f xs) wanted) [
    | none ↦ none
    | some i ↦ get_elem? xs i
  ]

  -- Over ascending keys, the binary search and a scan from the left give the same element.
  pub lookup_by-eq-find :
      (xs : List A) (wanted : ℕ)
      → ascending (map f xs) ≡ true
      → lookup_by xs wanted ≡ find (λ x. f x == wanted) xs
  unfolding lookup_by
  lookup_by-eq-find xs wanted asc = elim (Option-cases (binary_search (map f xs) wanted)) [
    | inr (i, e) ↦
        let (lt, same) = binary_search_sound (map f xs) wanted i e in
        rw (e, lookup_by)
          (sym (subst (λ w. find (λ x. f x == w) xs ≡ get_elem? xs i) same (find_at xs i asc lt)))
    | inl e ↦
        rw (e, lookup_by)
          (elim (Option-cases (find (λ x. f x == wanted) xs)) [
            | inl n ↦ sym n
            | inr (a, n) ↦
                let (i, lt, same) = position xs wanted n in
                cc (
                  e,
                  subst (λ w. binary_search (map f xs) w ≡ some i) same
                      (binary_search_finds (map f xs) i asc lt),
                )
          ])
  ]
