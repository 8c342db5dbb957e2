-- ===== src/Common/Ordered.antt =====
-- `BTreeMap<String, V>`: pairs in the order of their keys.
use oxidarr.Common.{
  ◌==◌, ◌≡◌, refl, sym, ◌∙◌, ap, All, Bool, true, false, ◌&&◌, ◌||◌, ltb, Option, none, some, List,
  [], ◌∷◌, Text, text_eq, same_left, text_eq_sym, text_eq→eq, if◌then◌else◌, Bool-cases, inl, inr,
  arith,
}

-- `Ord` of `String`.
abbrev pub text_lt : Text → Text → Bool
text_lt [] [] = false
text_lt [] (b ∷ t) = true
text_lt (a ∷ s) [] = false
text_lt (a ∷ s) (b ∷ t) = ltb a b || (a == b) && text_lt s t

module _ {V : Type 0} where
  unfoldable pub get : Text → List (Text × V) → Option V
  get key [] = none
  get key ((k, v) ∷ rest) = let later = get key rest in if text_eq k key then some v else later

  -- `insert`
  unfoldable pub put : Text → V → List (Text × V) → List (Text × V)
  put key value [] = (key, value) ∷ []
  put key value ((k, v) ∷ rest) =
      let later = put key value rest in
      if text_eq k key
      then (k, value) ∷ rest
      else if text_lt key k
      then (key, value) ∷ (k, v) ∷ rest
      else (k, v) ∷ later

  -- Insert the pairs of a list, one after the other.
  unfoldable pub put_all : List (Text × V) → List (Text × V) → List (Text × V)
  unfolding put
  put_all [] map = map
  put_all ((k, v) ∷ pairs) map = put_all pairs (put k v map)

  pub get-put :
      (key k : Text) (v : V) (map : List (Text × V))
      → get key (put k v map) ≡ (if text_eq k key then some v else get key map)
  unfolding get put
  get-put key k v [] = refl
  get-put key k v ((k', v') ∷ rest) =
      ground
        (arith, same_left k' k key, same_left k' key k, text_eq_sym key k, get-put key k v rest)

text_lt_irrefl : (s t : Text) → text_lt s t ≡ true → text_eq t s ≡ false
text_lt_irrefl [] [] h = cc
text_lt_irrefl [] (b ∷ t) h = refl
text_lt_irrefl (a ∷ s) [] h = cc
text_lt_irrefl (a ∷ s) (b ∷ t) h = ground (arith, text_lt_irrefl s t)

text_lt_trans : (s t u : Text) → text_lt s t ≡ true → text_lt t u ≡ true → text_lt s u ≡ true
text_lt_trans s [] [] h k = cc
text_lt_trans s (b ∷ t) [] h k = cc
text_lt_trans [] t (c ∷ u) h k = refl
text_lt_trans (a ∷ s) [] (c ∷ u) h k = cc
text_lt_trans (a ∷ s) (b ∷ t) (c ∷ u) h k = ground (arith, text_lt_trans s t u)

text_lt_total : (s t : Text) → text_eq t s ≡ false → text_lt s t ≡ false → text_lt t s ≡ true
text_lt_total [] [] h k = cc
text_lt_total [] (b ∷ t) h k = cc
text_lt_total (a ∷ s) [] h k = refl
text_lt_total (a ∷ s) (b ∷ t) h k = ground (arith, text_lt_total s t)

module _ {V : Type 0} where
  -- Every key comes after `k`.
  abbrev Above : Text → List (Text × V) → Type 0
  Above k map = All (λ entry. text_lt k entry.0 ≡ true) map

  abbrev pub IsSorted : List (Text × V) → Type 0
  IsSorted [] = Unit
  IsSorted (entry ∷ rest) = Above entry.0 rest × IsSorted rest

  Above-put :
      (j key : Text) (v : V) (map : List (Text × V))
      → text_lt j key ≡ true
      → Above j map
      → Above j (put key v map)
  unfolding put
  Above-put j key v [] h a = (h, tt)
  Above-put j key v ((k, w) ∷ rest) h a = elim (Bool-cases (text_eq k key)) [
    | inl e ↦ rw e (a.0, a.1)
    | inr e ↦ elim (Bool-cases (text_lt key k)) [
      | inl f ↦ rw (e, f) (h, (a.0, a.1))
      | inr f ↦ rw (e, f) (a.0, Above-put j key v rest h a.1)
    ]
  ]

  Above-trans :
      (j k : Text) (map : List (Text × V)) → text_lt j k ≡ true → Above k map → Above j map
  Above-trans j k [] h a = tt
  Above-trans j k ((k', w) ∷ rest) h a = (text_lt_trans j k k' h a.0, Above-trans j k rest h a.1)

  pub put-IsSorted :
      (key : Text) (v : V) (map : List (Text × V)) → IsSorted map → IsSorted (put key v map)
  unfolding put
  put-IsSorted key v [] s = (tt, tt)
  put-IsSorted key v ((k, w) ∷ rest) s = elim (Bool-cases (text_eq k key)) [
    | inl e ↦ rw e (s.0, s.1)
    | inr e ↦ elim (Bool-cases (text_lt key k)) [
      | inl f ↦ rw (e, f) ((f, Above-trans key k rest f s.0), (s.0, s.1))
      | inr f ↦
          rw (e, f)
            (Above-put k key v rest (text_lt_total key k e f) s.0, put-IsSorted key v rest s.1)
    ]
  ]

  abbrev pub later_or : Option V → Option V → Option V
  later_or o none = o
  later_or o (some w) = some w

  pub later_or-none : (found : Option V) → later_or none found ≡ found
  later_or-none none = refl
  later_or-none (some w) = refl

  -- The value of the last pair with a key.
  unfoldable pub get_last : Text → List (Text × V) → Option V
  get_last key [] = none
  get_last key ((k, v) ∷ rest) =
      later_or (if text_eq k key then some v else none) (get_last key rest)

  get-Above :
      (k key : Text) (map : List (Text × V))
      → text_eq k key ≡ true
      → Above k map
      → get key map ≡ none
  unfolding get
  get-Above k key [] h a = refl
  get-Above k key ((k', w) ∷ rest) h a =
      rw (ap (text_eq k') (sym (text_eq→eq k key h)) ∙ text_lt_irrefl k k' a.0)
        (get-Above k key rest h a.1)

  pub get_last-get :
      (key : Text) (map : List (Text × V)) → IsSorted map → get_last key map ≡ get key map
  unfolding get_last get
  get_last-get key [] s = refl
  get_last-get key ((k, v) ∷ rest) s = elim (Bool-cases (text_eq k key)) [
    | inl e ↦ rw (e, get_last-get key rest s.1, get-Above k key rest e s.0) refl
    | inr e ↦ rw (e, get_last-get key rest s.1) (later_or-none (get key rest))
  ]
