-- ===== src/Common/NoTwo.antt =====
-- A list in which no two elements are the same by some test: a UNIQUE column.
use oxidarr.Common.{
  ℕ, ◌≡◌, refl, Bool, true, false, not, ◌&&◌, List, [], ◌∷◌, ◌++◌, map, any, filter, All, arith,
  ◌==◌, Text, text_eq, Bool-cases, inl, inr, text_eq_sym, subst, sym,
}
use oxidarr.Common.Unique.{any-append}

abbrev pub NoTwo {ℓ} : {A : Type ℓ} → (A → A → Bool) → List A → Type 0
NoTwo same [] = Unit
NoTwo same (x ∷ xs) = (any (same x) xs ≡ false) × NoTwo same xs

module _ {ℓ} {A : Type ℓ} (p q : A → Bool) where
  pub any-filter-false : (xs : List A) → any q xs ≡ false → any q (filter p xs) ≡ false
  any-filter-false [] h = refl
  any-filter-false (x ∷ xs) h = ground (arith, any-filter-false xs)

module _ {ℓ} {A : Type ℓ} (same : A → A → Bool) where
  pub NoTwo-filter : (p : A → Bool) (xs : List A) → NoTwo same xs → NoTwo same (filter p xs)
  NoTwo-filter p [] d = tt
  NoTwo-filter p (x ∷ xs) d = elim (Bool-cases (p x)) [
    | inl e ↦ rw e (any-filter-false p (same x) xs d.0, NoTwo-filter p xs d.1)
    | inr e ↦ rw e (NoTwo-filter p xs d.1)
  ]

  pub NoTwo-append :
      (xs : List A) (a : A)
      → NoTwo same xs
      → any (λ x. same x a) xs ≡ false
      → NoTwo same (xs ++ a ∷ [])
  NoTwo-append [] a d h = (refl, tt)
  NoTwo-append (x ∷ xs) a d h =
      (ground (arith, any-append (same x) xs (a ∷ [])), NoTwo-append xs a d.1 (ground arith))

  any-map :
      (f : A → A) (x : A) (xs : List A)
      → ((x y : A) → same (f x) (f y) ≡ same x y)
      → any (same (f x)) (map f xs) ≡ any (same x) xs
  any-map f x [] h = refl
  any-map f x (y ∷ ys) h = ground (arith, h x y, any-map f x ys h)

  pub NoTwo-map :
      (f : A → A) (xs : List A)
      → ((x y : A) → same (f x) (f y) ≡ same x y)
      → NoTwo same xs
      → NoTwo same (map f xs)
  NoTwo-map f [] h d = tt
  NoTwo-map f (x ∷ xs) h d = (rw (any-map f x xs h) d.0, NoTwo-map f xs h d.1)

module _ {ℓ κ ι} {A : Type ℓ} (P : A → Type κ) (Q : A → Type ι) (p : A → Bool) where
  pub All-filter :
      (xs : List A) → ((x : A) → P x → p x ≡ true → Q x) → All P xs → All Q (filter p xs)
  All-filter [] h a = tt
  All-filter (x ∷ xs) h a = elim (Bool-cases (p x)) [
    | inl e ↦ rw e (h x a.0 e, All-filter xs h a.1)
    | inr e ↦ rw e (All-filter xs h a.1)
  ]

module _ {ℓ κ ι} {A : Type ℓ} (P : A → Type κ) (Q : A → Type ι) where
  pub All-imp : (xs : List A) → ((x : A) → P x → Q x) → All P xs → All Q xs
  All-imp [] h a = tt
  All-imp (x ∷ xs) h a = (h x a.0, All-imp xs h a.1)

module _ {ℓ κ ι} {A : Type ℓ} {B : Type κ} (Q : B → Type ι) (f : A → B) where
  pub All-map : (xs : List A) → All (λ x. Q (f x)) xs → All Q (map f xs)
  All-map [] a = tt
  All-map (x ∷ xs) a = (a.0, All-map xs a.1)

-- Rows with an id and a name, of which `update` renames the row of one id.
module _ {A : Type 0} (id : A → ℕ) (name : A → Text) (key : ℕ) (new : Text) (update : A → A)
    (renames : (r : A) → (id r == key) ≡ true → name (update r) ≡ new)
    (leaves : (r : A) → (id r == key) ≡ false → name (update r) ≡ name r) where
  abbrev same_id : A → A → Bool
  same_id r s = id s == id r

  abbrev same_name : A → A → Bool
  same_name r s = text_eq (name s) (name r)

  others_keep :
      (n : Text) (r : A) (rest : List A)
      → (id r == key) ≡ true
      → any (same_id r) rest ≡ false
      → any (λ s. not (id s == key) && text_eq (name s) new) rest ≡ false
      → any (λ s. text_eq (name s) new) (map update rest) ≡ false
  others_keep n r [] e ids free = refl
  others_keep n r (s ∷ rest) e ids free = ground (arith, leaves s, others_keep n r rest e)

  not_taken :
      (r : A) (rest : List A)
      → (id r == key) ≡ false
      → text_eq (name r) new ≡ false
      → any (same_name r) rest ≡ false
      → any (λ s. text_eq (name s) (name r)) (map update rest) ≡ false
  not_taken r [] e free d = refl
  not_taken r (s ∷ rest) e free d = elim (Bool-cases (id s == key)) [
    | inl k ↦
        rw (renames s k) (rw (text_eq_sym new (name r)) (ground (arith, not_taken r rest e free)))
    | inr k ↦ rw (leaves s k) (ground (arith, not_taken r rest e free))
  ]

  pub NoTwo-rename :
      (rows : List A)
      → NoTwo same_id rows
      → NoTwo same_name rows
      → any (λ s. not (id s == key) && text_eq (name s) new) rows ≡ false
      → NoTwo same_name (map update rows)
  NoTwo-rename [] ids names free = tt
  NoTwo-rename (r ∷ rest) ids names free = elim (Bool-cases (id r == key)) [
    | inl e ↦ (
      subst (λ n. any (λ s. text_eq (name s) n) (map update rest) ≡ false) (sym (renames r e))
          (others_keep new r rest e ids.0 (ground arith)),
      NoTwo-rename rest ids.1 names.1 (ground arith),
    )
    | inr e ↦ (
      subst (λ n. any (λ s. text_eq (name s) n) (map update rest) ≡ false) (sym (leaves r e))
          (not_taken r rest e (ground arith) names.0),
      NoTwo-rename rest ids.1 names.1 (ground arith),
    )
  ]
