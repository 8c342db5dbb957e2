-- ===== src/Filters/Html.antt =====
-- `html_decode` and `decode_entity` of crates/oxidarr-cardigann/src/filters.rs. A round of the loop reads at least
-- one `&`, so the length of the text is fuel enough.
pub mod Escape
use oxidarr.Common.{
  ℕ, zero, suc, ◌+◌, ◌-◌, ◌≤◌, ◌<◌, ◌==◌, ◌≡◌, refl, sym, ap, ◌∙◌, Bool, true, false, not, ◌&&◌,
  ◌||◌, Option, none, some, List, [], ◌∷◌, ◌++◌, arith, length, Text, codes, text_eq, if◌then◌else◌,
  Bool-cases, inl, inr,
}
use oxidarr.Common.Utf8.{is_scalar}
use oxidarr.Common.Numerals.{from_str_radix, u32_max}
use oxidarr.Common.Split.{split_once, split_once-length}

-- `char::from_u32`
abbrev scalar : Option ℕ → Option ℕ
scalar none = none
scalar (some n) = if is_scalar n then some n else none

-- `#x` or `#X` and hexadecimal digits, or `#` and decimal ones.
unfoldable numeric : Text → Option ℕ
unfolding from_str_radix
numeric [] = none
numeric (c ∷ []) = if c == 35 then scalar (from_str_radix 10 u32_max []) else none
numeric (c ∷ d ∷ s) =
    if c == 35
    then if d == 120 || d == 88
      then scalar (from_str_radix 16 u32_max s)
      else scalar (from_str_radix 10 u32_max (d ∷ s))
    else none

unfoldable pub decode_entity : Text → Option ℕ
unfolding numeric
decode_entity name =
    if text_eq name (codes "amp")
    then some 38
    else if text_eq name (codes "lt")
    then some 60
    else if text_eq name (codes "gt")
    then some 62
    else if text_eq name (codes "quot")
    then some 34
    else if text_eq name (codes "apos") || text_eq name (codes "#39")
    then some 39
    else if text_eq name (codes "nbsp")
    then some 32
    else numeric name

-- What the text after an `&` begins with: the character of an entity, or the `&` itself.
abbrev resolved : Text → Text → Option ℕ → ℕ × Text
resolved tail after none = (38, tail)
resolved tail after (some c) = (c, after)

abbrev entity : Text → Option (Text × Text) → ℕ × Text
entity tail none = (38, tail)
entity tail (some (name, after)) = resolved tail after (decode_entity name)

unfoldable next_char : Text → ℕ × Text
unfolding split_once decode_entity
next_char tail = entity tail (split_once 59 tail)

module _ (rec : Text → Text) where
  abbrev emit : Text → ℕ × Text → Text
  emit before (c, rest) = before ++ c ∷ rec rest

  -- One round, where `rec` are the further rounds.
  unfoldable pub html_round : Text → Option (Text × Text) → Text
  unfolding next_char
  html_round rest none = rest
  html_round rest (some (before, tail)) = emit before (next_char tail)

unfoldable pub html_loop : ℕ → Text → Text
unfolding html_round split_once
html_loop zero rest = rest
html_loop (suc fuel) rest = html_round (html_loop fuel) rest (split_once 38 rest)

unfoldable pub html_decode : Text → Text
unfolding html_loop
html_decode input = html_loop (length input) input

resolved-length :
    (tail after : Text) (found : Option ℕ)
    → length after ≤ length tail
    → length (resolved tail after found).1 ≤ length tail
resolved-length tail after none h = omega arith
resolved-length tail after (some c) h = h

entity-length :
    (tail : Text) (found : Option (Text × Text))
    → split_once 59 tail ≡ found
    → length (entity tail found).1 ≤ length tail
entity-length tail none e = omega arith
entity-length tail (some (name, after)) e =
    resolved-length tail after (decode_entity name)
      (omega (arith, split_once-length 59 tail name after e))

next_char-length : (tail : Text) → length (next_char tail).1 ≤ length tail
unfolding next_char
next_char-length tail = entity-length tail (split_once 59 tail) refl

html_round-agree :
    (f g : Text → Text) (n : ℕ) (rest : Text) (found : Option (Text × Text))
    → split_once 38 rest ≡ found
    → length rest ≤ suc n
    → ((t : Text) → length t ≤ n → f t ≡ g t)
    → html_round f rest found ≡ html_round g rest found
unfolding html_round
html_round-agree f g n rest none e h agree = refl
html_round-agree f g n rest (some (before, tail)) e h agree =
    ap (λ t. before ++ (next_char tail).0 ∷ t)
      (agree (next_char tail).1
        (omega (arith, h, next_char-length tail, split_once-length 38 rest before tail e)))

html_loop-empty : (fuel : ℕ) → html_loop fuel [] ≡ []
unfolding html_loop
html_loop-empty zero = refl
html_loop-empty (suc fuel) = refl

empty_of_length : (s : Text) → length s ≤ 0 → s ≡ []
empty_of_length [] h = refl
empty_of_length (c ∷ s) h = absurd (omega (arith, h))

-- Two amounts of fuel that are enough give the same.
html_loop-fuel : (m n : ℕ) (s : Text) → length s ≤ m → length s ≤ n → html_loop m s ≡ html_loop n s
unfolding html_loop
html_loop-fuel zero n s h k =
    ap (html_loop 0) (empty_of_length s h)
    ∙ sym (html_loop-empty n)
    ∙ ap (html_loop n) (sym (empty_of_length s h))
html_loop-fuel (suc m) zero s h k =
    ap (html_loop (suc m)) (empty_of_length s k) ∙ sym (empty_of_length s k)
html_loop-fuel (suc m) (suc n) s h k =
    html_round-agree (html_loop m) (html_loop n) (length s - 1) s (split_once 38 s) refl
      (omega arith) (λ t le. html_loop-fuel m n t (omega (arith, le, h)) (omega (arith, le, k)))

-- The fuel is enough: `html_decode` is the loop of its rounds, without a bound on their number.
pub html_decode-loop : (s : Text) → html_decode s ≡ html_round html_decode s (split_once 38 s)
unfolding html_decode
html_decode-loop s =
    html_loop-fuel (length s) (suc (length s)) s (omega arith) (omega arith) ∙ one_round s
  where
    one_round :
        (s : Text)
        → html_loop (suc (length s)) s
          ≡ html_round (λ t. html_loop (length t) t) s (split_once 38 s)
    one_round s =
        html_round-agree (html_loop (length s)) (λ t. html_loop (length t) t) (length s) s
          (split_once 38 s) refl (omega arith)
          (λ t le. html_loop-fuel (length s) (length t) t le (omega arith))
