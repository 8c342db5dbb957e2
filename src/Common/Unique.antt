-- ===== src/Common/Unique.antt =====
-- Lists that are filled by `if !list.contains(&x) { list.push(x) }`, for any type with `==`.
use mathlib.Core.List.{append_assoc, append-nil}
use mathlib.Core.Path.{fun_ext}
use oxidarr.Common.{
  ℕ, ◌≡◌, refl, sym, ap, ◌∙◌, ◌↔◌, Bool, true, false, not, ◌&&◌, ◌||◌, String, str_eq, str_eq_iff,
  List, [], ◌∷◌, ◌++◌, arith, if◌then◌else◌, any, filter, All, Memᴰ, Bool-cases, any-mem,
  any-of-mem, filter-mem, map, subst, inl, inr, Text, text_eq, text_eq→eq, text_eq_refl,
}
use oxidarr.Common as Common

pub record Eq {ℓ} (A : Type ℓ) : Type ℓ where
  pub beq : A → A → Bool
  pub beq_iff : (a b : A) → (beq a b ≡ true) ↔ (a ≡ b)

instance abbrev pub nat_eq : Eq ℕ
nat_eq = record { beq = Common.◌==◌; beq_iff = Common.==_iff }

instance abbrev pub string_eq : Eq String
string_eq = record { beq = str_eq; beq_iff = str_eq_iff }

instance abbrev pub text_equality : Eq Text
text_equality = record {
  beq = text_eq;
  beq_iff = λ a b. (text_eq→eq a b, λ e. subst (λ t. text_eq a t ≡ true) e (text_eq_refl a));
}

module _ {ℓ} {A : Type ℓ} (p q : A → Bool) where
  pub filter-filter : (xs : List A) → filter p (filter q xs) ≡ filter (λ x. q x && p x) xs
  filter-filter [] = refl
  filter-filter (x ∷ xs) = ground (arith, filter-filter xs)

  pub filter_congr : (xs : List A) → ((x : A) → p x ≡ q x) → filter p xs ≡ filter q xs
  filter_congr xs h = ap (λ f. filter f xs) (fun_ext h)

  pub any-filter : (xs : List A) → any p (filter q xs) ≡ any (λ x. q x && p x) xs
  any-filter [] = refl
  any-filter (x ∷ xs) = ground (arith, any-filter xs)

module _ {ℓ} {A : Type ℓ} (p : A → Bool) where
  pub any-append : (xs ys : List A) → any p (xs ++ ys) ≡ (any p xs || any p ys)
  any-append [] ys = refl
  any-append (x ∷ xs) ys = ground (arith, any-append xs ys)

module _ {ℓ} {A : Type ℓ} ⦃e : Eq A⦄ where
  abbrev pub contains : List A → A → Bool
  contains xs a = any (λ x. e.beq x a) xs

  abbrev pub push_new : List A → A → List A
  push_new acc a = if contains acc a then acc else acc ++ a ∷ []

  abbrev pub collect : List A → List A → List A
  collect [] acc = acc
  collect (x ∷ xs) acc = collect xs (push_new acc x)

  pub push_new_if :
      (acc : List A) (a : A)
      → (if not (contains acc a) then acc ++ a ∷ [] else acc) ≡ push_new acc a
  push_new_if acc a = ground arith

  -- The first occurrence of each element, in order: what such a loop should give.
  abbrev pub unique : List A → List A
  unique [] = []
  unique (x ∷ xs) = x ∷ filter (λ y. not (e.beq x y)) (unique xs)

  pub beq_refl : (a : A) → e.beq a a ≡ true
  beq_refl a = (e.beq_iff a a).1 refl

  pub contains→mem : (xs : List A) (a : A) → contains xs a ≡ true → Memᴰ a xs
  contains→mem xs a h =
      let (x, m, q) = any-mem (λ x. e.beq x a) xs h in
      subst (λ y. Memᴰ y xs) ((e.beq_iff x a).0 q) m

  pub mem→contains : (xs : List A) {a : A} → Memᴰ a xs → contains xs a ≡ true
  mem→contains xs {a} m = any-of-mem (λ x. e.beq x a) xs m (beq_refl a)

  fresh_or_seen :
      (acc : List A) (x y : A)
      → contains acc x ≡ true
      → (not (e.beq x y) && not (contains acc y)) ≡ not (contains acc y)
  fresh_or_seen acc x y seen = elim (Bool-cases (e.beq x y)) [
    | inl same ↦ rw (← (e.beq_iff x y).0 same) (rw (beq_refl x, seen) refl)
    | inr other ↦ rw other refl
  ]

  fresh-append :
      (acc : List A) (x y : A)
      → (not (e.beq x y) && not (contains acc y)) ≡ not (contains (acc ++ x ∷ []) y)
  fresh-append acc x y = ground (arith, any-append (λ z. e.beq z y) acc (x ∷ []))

  pub collect-unique :
      (xs acc : List A) → collect xs acc ≡ acc ++ filter (λ y. not (contains acc y)) (unique xs)
  collect-unique [] acc = sym (append-nil acc)
  collect-unique (x ∷ xs) acc = elim (Bool-cases (contains acc x)) [
    | inl seen ↦ rw seen (
        collect-unique xs acc
        ∙ ap (λ l. acc ++ l)
            (sym (
              filter-filter (λ y. not (contains acc y)) (λ y. not (e.beq x y)) (unique xs)
              ∙ filter_congr _ _ (unique xs) (λ y. fresh_or_seen acc x y seen))))
    | inr new ↦ rw new (
        collect-unique xs (acc ++ x ∷ [])
        ∙ append_assoc acc (x ∷ []) _
        ∙ ap (λ l. acc ++ x ∷ l)
            (sym (
              filter-filter (λ y. not (contains acc y)) (λ y. not (e.beq x y)) (unique xs)
              ∙ filter_congr _ _ (unique xs) (fresh-append acc x))))
  ]

  filter_all : (xs : List A) → filter (λ _. true) xs ≡ xs
  filter_all [] = refl
  filter_all (x ∷ xs) = ap (λ l. x ∷ l) (filter_all xs)

  -- From an empty list the loop gives the first occurrences.
  pub collect_empty : (xs : List A) → collect xs [] ≡ unique xs
  collect_empty xs = collect-unique xs [] ∙ filter_all (unique xs)

  pub contains-unique : (xs : List A) (a : A) → contains (unique xs) a ≡ contains xs a
  contains-unique [] a = refl
  contains-unique (x ∷ xs) a = elim (Bool-cases (e.beq x a)) [
    | inl same ↦ rw same refl
    | inr other ↦ rw other (
        any-filter (λ y. e.beq y a) (λ y. not (e.beq x y)) (unique xs)
        ∙ ap (λ f. any f (unique xs)) (fun_ext (λ y. keeps_others x y a other))
        ∙ contains-unique xs a)
  ]
    where
      keeps_others : (x y a : A) → e.beq x a ≡ false → (not (e.beq x y) && e.beq y a) ≡ e.beq y a
      keeps_others x y a other = elim (Bool-cases (e.beq y a)) [
        | inl same ↦ rw ((e.beq_iff y a).0 same) (rw other refl)
        | inr no_match ↦ rw no_match (ground arith)
      ]

-- No element twice: each is unlike all that follow.
abbrev pub Distinct {ℓ} : {A : Type ℓ} ⦃e : Eq A⦄ → List A → Type 0
Distinct [] = Unit
Distinct (x ∷ xs) = (contains xs x ≡ false) × Distinct xs

module _ {ℓ} {A : Type ℓ} ⦃e : Eq A⦄ where
  any-false : (p : A → Bool) (xs : List A) → ((x : A) → p x ≡ false) → any p xs ≡ false
  any-false p [] h = refl
  any-false p (x ∷ xs) h = rw h (any-false p xs h)

  contains-filter-false :
      (p : A → Bool) (xs : List A) (a : A)
      → contains xs a ≡ false
      → contains (filter p xs) a ≡ false
  contains-filter-false p [] a h = refl
  contains-filter-false p (x ∷ xs) a h = ground (arith, contains-filter-false p xs a)

  Distinct-filter : (p : A → Bool) (xs : List A) → Distinct xs → Distinct (filter p xs)
  Distinct-filter p [] d = tt
  Distinct-filter p (x ∷ xs) d = elim (Bool-cases (p x)) [
    | inl e ↦ rw e (contains-filter-false p xs x d.0, Distinct-filter p xs d.1)
    | inr e ↦ rw e (Distinct-filter p xs d.1)
  ]

  filtered_out : (x : A) (xs : List A) → contains (filter (λ y. not (e.beq x y)) xs) x ≡ false
  filtered_out x xs =
      any-filter (λ y. e.beq y x) (λ y. not (e.beq x y)) xs
      ∙ any-false _ xs (λ y. elim (Bool-cases (e.beq y x)) [
        | inl same ↦ rw ((e.beq_iff y x).0 same) (rw beq_refl refl)
        | inr other ↦ rw other (ground arith)
      ])

  pub unique-Distinct : (xs : List A) → Distinct (unique xs)
  unique-Distinct [] = tt
  unique-Distinct (x ∷ xs) =
      (filtered_out x (unique xs), Distinct-filter _ (unique xs) (unique-Distinct xs))
