-- ===== src/Common/Lists.antt =====
-- Lists: length and access by native numbers, Boolean search, and predicates by recursion.
use Prim.Native.Nat.{ℕ, zero, suc, ◌+◌}
use mathlib.Core.Path.{◌≡◌, refl, sym, subst}
use mathlib.Core.Logic.{inl, inr}
use mathlib.Core.Bool.{Bool, true, false, ◌||◌, ◌&&◌}
use mathlib.Core.List.{List, [], ◌∷◌, ◌++◌}
use mathlib.Core.List.Memᴰ
pub use mathlib.Core.List.{Memᴰ}
use mathlib.Core.Option.{Option, none, some}
use native.Mathlib.Omega.{arith}
use oxidarr.Common.Tests.{if◌then◌else◌, Bool-cases}

module _ {ℓ} {A : Type ℓ} where
  abbrev pub length : List A → ℕ
  length [] = 0
  length (x ∷ xs) = suc (length xs)

  abbrev pub get_elem? : List A → ℕ → Option A
  get_elem? [] i = none
  get_elem? (x ∷ xs) zero = some x
  get_elem? (x ∷ xs) (suc i) = get_elem? xs i

  pub length-append : (xs ys : List A) → length (xs ++ ys) ≡ length xs + length ys
  length-append [] ys = omega arith
  length-append (x ∷ xs) ys = omega (arith, length-append xs ys)

-- Iterator methods of the standard library: `any`, `all`, `find`, `filter`.
module _ {ℓ} {A : Type ℓ} (p : A → Bool) where
  abbrev pub any : List A → Bool
  any [] = false
  any (x ∷ xs) = p x || any xs

  abbrev pub all : List A → Bool
  all [] = true
  all (x ∷ xs) = p x && all xs

  abbrev pub find : List A → Option A
  find [] = none
  find (x ∷ xs) = if p x then some x else find xs

  abbrev pub filter : List A → List A
  filter [] = []
  filter (x ∷ xs) = let rest = filter xs in if p x then x ∷ rest else rest

-- A universal statement by recursion: it computes to tuples, which the tactics read.
abbrev pub All {ℓ κ} : {A : Type ℓ} → (A → Type κ) → List A → Type κ
All P [] = Unit
All P (x ∷ xs) = P x × All P xs

module _ {ℓ κ} {A : Type ℓ} (P : A → Type κ) where
  pub All-append : (xs ys : List A) → All P xs → All P ys → All P (xs ++ ys)
  All-append [] ys h k = k
  All-append (x ∷ xs) ys h k = (h.0, All-append xs ys h.1 k)

  pub All-mem : (xs : List A) {a : A} → All P xs → Memᴰ a xs → P a
  All-mem [] h m = elim m [ ]
  All-mem (x ∷ xs) h (Memᴰ.head e) = subst P (sym e) h.0
  All-mem (x ∷ xs) h (Memᴰ.tail m) = All-mem xs h.1 m

  pub All-of-mem : (xs : List A) → ((a : A) → Memᴰ a xs → P a) → All P xs
  All-of-mem [] h = tt
  All-of-mem (x ∷ xs) h = (h x (Memᴰ.head refl), All-of-mem xs (λ a m. h a (Memᴰ.tail m)))

module _ {ℓ} {A : Type ℓ} (p : A → Bool) where
  pub any-mem : (xs : List A) → any p xs ≡ true → (a : A) × Memᴰ a xs × (p a ≡ true)
  any-mem [] h = cc
  any-mem (x ∷ xs) h = elim (Bool-cases (p x)) [
    | inl e ↦ (x, Memᴰ.head refl, e)
    | inr e ↦ let (a, m, q) = any-mem xs (rw e at h) in (a, Memᴰ.tail m, q)
  ]

  pub any-of-mem : (xs : List A) {a : A} → Memᴰ a xs → p a ≡ true → any p xs ≡ true
  any-of-mem [] m q = elim m [ ]
  any-of-mem (x ∷ xs) (Memᴰ.head e) q = rw (← e) (ground (arith, q))
  any-of-mem (x ∷ xs) (Memᴰ.tail m) q = ground (arith, any-of-mem xs m q)

  pub find-mem : (xs : List A) {a : A} → find p xs ≡ some a → Memᴰ a xs × (p a ≡ true)
  find-mem [] h = cc
  find-mem (x ∷ xs) {a} h = elim (Bool-cases (p x)) [
    | inl e ↦ let same : x ≡ a = ground (arith, h, e) in (Memᴰ.head (sym same), rw (← same) e)
    | inr e ↦ let (m, q) = find-mem xs (rw e at h) in (Memᴰ.tail m, q)
  ]

  pub find-none : (xs : List A) {a : A} → find p xs ≡ none → Memᴰ a xs → p a ≡ false
  find-none [] h m = elim m [ ]
  find-none (x ∷ xs) h (Memᴰ.head e) = rw e (ground arith)
  find-none (x ∷ xs) h (Memᴰ.tail m) = find-none xs (ground arith) m

  pub filter-mem : (xs : List A) {a : A} → Memᴰ a (filter p xs) → Memᴰ a xs × (p a ≡ true)
  filter-mem [] m = elim m [ ]
  filter-mem (x ∷ xs) {a} m = elim (Bool-cases (p x)) [
    | inl e ↦ elim (Memᴰ.cases_cons (rw (e) at m)) [
      | inl same ↦ (Memᴰ.head same, rw same e)
      | inr later ↦ let (n, q) = filter-mem xs later in (Memᴰ.tail n, q)
    ]
    | inr e ↦ let (n, q) = filter-mem xs (rw e at m) in (Memᴰ.tail n, q)
  ]

  pub mem-filter : (xs : List A) {a : A} → Memᴰ a xs → p a ≡ true → Memᴰ a (filter p xs)
  mem-filter [] m q = elim m [ ]
  mem-filter (x ∷ xs) (Memᴰ.head e) q = rw (← e, q) (Memᴰ.head refl)
  mem-filter (x ∷ xs) (Memᴰ.tail m) q = elim (Bool-cases (p x)) [
    | inl e ↦ rw e (Memᴰ.tail (mem-filter xs m q))
    | inr e ↦ rw e (mem-filter xs m q)
  ]

  pub all-mem : (xs : List A) {a : A} → all p xs ≡ true → Memᴰ a xs → p a ≡ true
  all-mem [] h m = elim m [ ]
  all-mem (x ∷ xs) h (Memᴰ.head e) = rw e (ground arith)
  all-mem (x ∷ xs) h (Memᴰ.tail m) = all-mem xs (ground arith) m
