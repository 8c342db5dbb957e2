-- ===== src/Selectors/Slices.antt =====
-- What is left of a selector by the slices and scans of crates/oxidarr-cardigann/src/selector.rs.
use oxidarr.Common.{
  ℕ, zero, suc, ◌-◌, ◌<◌, ◌≤◌, ◌==◌, ◌≡◌, refl, Bool, true, false, not, ◌&&◌, all, Option, none,
  some, [], ◌∷◌, length, All, Text, if◌then◌else◌, arith, Bool-cases, inl, inr, leb, lt→ltb,
  is_whitespace,
}
use oxidarr.Common.Split.{split_once, keep}
use oxidarr.Common.Str.{trim, trim_start, trim_end, cons_end}
use oxidarr.Common.Utf8.{utf8_char}
use oxidarr.Template.{strip_prefix, is_empty}
use oxidarr.Selectors.JsonPath.{
  slice_from, Round, returns, goes_on, panics, goes, is_digit, after_index,
}

abbrev pub IsAscii : Text → Type 0
IsAscii s = All (λ c. c < 128) s

-- How long the rest is that a round goes on with.
abbrev pub IsShorter : ℕ → Round → Type 0
IsShorter n (returns b) = Unit
IsShorter n (goes_on s) = length s < n
IsShorter n panics = Unit

-- A round that does not panic, and goes on with ASCII.
abbrev pub IsFine : Round → Type 0
IsFine (returns b) = Unit
IsFine (goes_on s) = IsAscii s
IsFine panics = ⊥

-- A text that is no longer.
abbrev IsTail : ℕ → Option Text → Type 0
IsTail n none = Unit
IsTail n (some t) = length t ≤ n

IsTail-suc : (n : ℕ) (o : Option Text) → IsTail n o → IsTail (suc n) o
IsTail-suc n none h = tt
IsTail-suc n (some t) h = omega (arith, h)

slice_from-IsTail : (n : ℕ) (s : Text) → IsTail (length s) (slice_from n s)
unfolding slice_from
slice_from-IsTail zero s = omega arith
slice_from-IsTail (suc n) [] = tt
slice_from-IsTail (suc n) (c ∷ s) = elim (Bool-cases (leb (length (utf8_char c)) (suc n))) [
  | inl e ↦ rw e (IsTail-suc (length s) _ (slice_from-IsTail (suc n - length (utf8_char c)) s))
  | inr e ↦ rw e tt
]

goes-IsShorter : (n : ℕ) (o : Option Text) → IsTail n o → IsShorter (suc n) (goes o)
goes-IsShorter n none h = tt
goes-IsShorter n (some t) h = omega (arith, h)

-- A slice at one byte or more gives less.
slice_from-IsShorter : (n : ℕ) (s : Text) → IsShorter (length s) (goes (slice_from (suc n) s))
unfolding slice_from
slice_from-IsShorter n [] = tt
slice_from-IsShorter n (c ∷ s) = elim (Bool-cases (leb (length (utf8_char c)) (suc n))) [
  | inl e ↦ rw e (goes-IsShorter (length s) _ (slice_from-IsTail (suc n - length (utf8_char c)) s))
  | inr e ↦ rw e tt
]

pub after_index-IsShorter :
    (n : ℕ) (found : Option (Text × Text))
    → ((b t : Text) → found ≡ some (b, t) → length t < n)
    → IsShorter n (after_index found)
after_index-IsShorter n none h = tt
after_index-IsShorter n (some (index, rest)) h =
    elim (Bool-cases (not (is_empty index) && all is_digit index)) [
      | inl e ↦ rw e (h index rest refl)
      | inr e ↦ rw e tt
    ]

pub IsShorter-if :
    (n : ℕ) (b : Bool) (r r' : Round)
    → IsShorter n r
    → IsShorter n r'
    → IsShorter n (if b then r else r')
IsShorter-if n true r r' h k = h
IsShorter-if n false r r' h k = k

positive : (k : ℕ) → (suc k == 0) ≡ false
positive k = ground arith

pub at_word :
    (k n : ℕ) (c : ℕ) (s : Text)
    → IsShorter (suc (length s)) (if k == 0 then returns false else goes (slice_from k (c ∷ s)))
at_word zero n c s = tt
at_word (suc k) n c s = rw (positive k) (slice_from-IsShorter k (c ∷ s))

utf8_char-ascii : (c : ℕ) → c < 128 → utf8_char c ≡ c ∷ []
unfolding utf8_char
utf8_char-ascii c h = rw (lt→ltb c 128 h) refl

one_at_most : (n : ℕ) → leb 1 (suc n) ≡ true
one_at_most n = ground arith

less_one : (n : ℕ) → suc n - 1 ≡ n
less_one n = omega arith

pub slice_from-IsFine :
    (n : ℕ) (s : Text) → IsAscii s → n ≤ length s → IsFine (goes (slice_from n s))
unfolding slice_from
slice_from-IsFine zero s a h = a
slice_from-IsFine (suc n) [] a h = absurd (omega (arith, h))
slice_from-IsFine (suc n) (c ∷ s) a h =
    let rest = slice_from-IsFine n s a.1 (omega (arith, h)) in
    rw (utf8_char-ascii c a.0, one_at_most n, less_one n) rest

pub IsFine-if : (b : Bool) (r r' : Round) → IsFine r → IsFine r' → IsFine (if b then r else r')
IsFine-if true r r' h k = h
IsFine-if false r r' h k = k

-- What follows a separator is ASCII.
abbrev OfRest : Option (Text × Text) → Type 0
OfRest none = Unit
OfRest (some (before, rest)) = IsAscii rest

keep-OfRest : (c : ℕ) (o : Option (Text × Text)) → OfRest o → OfRest (keep c o)
keep-OfRest c none h = tt
keep-OfRest c (some (before, rest)) h = h

pub split_once-OfRest : (s : Text) → IsAscii s → OfRest (split_once 93 s)
unfolding split_once
split_once-OfRest [] a = tt
split_once-OfRest (c ∷ s) a = elim (Bool-cases (c == 93)) [
  | inl e ↦ rw e a.1
  | inr e ↦ rw e (keep-OfRest c (split_once 93 s) (split_once-OfRest s a.1))
]

pub after_index-IsFine : (found : Option (Text × Text)) → OfRest found → IsFine (after_index found)
after_index-IsFine none h = tt
after_index-IsFine (some (index, rest)) h =
    IsFine-if (not (is_empty index) && all is_digit index) (goes_on rest) (returns false) h tt

abbrev pub OfText : Option Text → Type 0
OfText none = Unit
OfText (some s) = IsAscii s

pub strip_prefix-OfText : (p s : Text) → IsAscii s → OfText (strip_prefix p s)
unfolding strip_prefix
strip_prefix-OfText [] s a = a
strip_prefix-OfText (c ∷ p) [] a = tt
strip_prefix-OfText (c ∷ p) (d ∷ s) a = elim (Bool-cases (c == d)) [
  | inl e ↦ rw e (strip_prefix-OfText p s a.1)
  | inr e ↦ rw e tt
]

trim_start-IsAscii : (s : Text) → IsAscii s → IsAscii (trim_start s)
unfolding trim_start
trim_start-IsAscii [] a = tt
trim_start-IsAscii (c ∷ s) a = elim (Bool-cases (is_whitespace c)) [
  | inl e ↦ rw e (trim_start-IsAscii s a.1)
  | inr e ↦ rw e (a.0, a.1)
]

cons_end-IsAscii : (c : ℕ) (s : Text) → c < 128 → IsAscii s → IsAscii (cons_end c s)
cons_end-IsAscii c [] h a = elim (Bool-cases (is_whitespace c)) [
  | inl e ↦ rw e tt
  | inr e ↦ rw e (h, tt)
]
cons_end-IsAscii c (d ∷ s) h a = (h, a)

pub trim-IsAscii : (s : Text) → IsAscii s → IsAscii (trim s)
unfolding trim
trim-IsAscii s a = go (trim_start s) (trim_start-IsAscii s a)
  where
    go : (s : Text) → IsAscii s → IsAscii (trim_end s)
    go [] a = tt
    go (c ∷ s) a = cons_end-IsAscii c (trim_end s) a.0 (go s a.1)
