-- ===== src/Extraction/Size.antt =====
-- `parse_size` of crates/oxidarr-cardigann/src/engine.rs.
use oxidarr.Common.{
  ℕ, zero, suc, ◌+◌, ◌-◌, ◌*◌, ◌/◌, ◌^◌, Bool, ◌&&◌, ◌||◌, not, ◌==◌, leb, Option, none, some, [],
  ◌∷◌, any, filter, length, Text, codes, is_whitespace, if◌then◌else◌,
}
use oxidarr.Common.Numerals.{from_str_radix}
use oxidarr.Common.Split.{split_once, starts_with}
use oxidarr.Common.Str.{trim}

-- `u64` has 64 bits, and its saturating operations stop at its largest value.
abbrev pub u64_max : ℕ
u64_max = 2 ^ 64 - 1

unfoldable pub saturated : ℕ → ℕ
saturated n = if leb n u64_max then n else u64_max

abbrev pub is_size_char : ℕ → Bool
is_size_char c = leb 48 c && leb c 57 || c == 46

unfoldable pub take_while : (ℕ → Bool) → Text → Text
take_while p [] = []
take_while p (c ∷ s) = let rest = take_while p s in if p c then c ∷ rest else []

unfoldable pub skip_while : (ℕ → Bool) → Text → Text
skip_while p [] = []
skip_while p (c ∷ s) = let rest = skip_while p s in if p c then rest else c ∷ s

unfoldable pub first_chars : ℕ → Text → Text
first_chars zero s = []
first_chars (suc n) [] = []
first_chars (suc n) (c ∷ s) = c ∷ first_chars n s

-- The multiplier of a unit.
unfoldable pub multiplier : Text → ℕ
unfolding starts_with
multiplier unit =
    if starts_with (codes "TB") unit || starts_with (codes "TIB") unit
    then 1024 ^ 4
    else if starts_with (codes "GB") unit || starts_with (codes "GIB") unit
    then 1024 ^ 3
    else if starts_with (codes "MB") unit || starts_with (codes "MIB") unit
    then 1024 ^ 2
    else if starts_with (codes "KB") unit || starts_with (codes "KIB") unit
    then 1024
    else 1

-- From the whole number, the digits of the fraction as a number, how many they are, and the
-- multiplier.
unfoldable pub size_of : ℕ → ℕ → ℕ → ℕ → ℕ
unfolding saturated
size_of whole frac places mult =
    saturated (saturated (whole * mult) + saturated (frac * mult) / 10 ^ places)

abbrev pub parts_of : Text → Option (Text × Text) → Text × Text
parts_of digits none = (digits, [])
parts_of digits (some parts) = parts

abbrev pub frac_of : Text → Option ℕ
frac_of [] = some 0
frac_of (c ∷ s) = from_str_radix 10 u64_max (c ∷ s)

abbrev pub sized : ℕ → ℕ → ℕ → Option ℕ → Option ℕ
sized whole places mult none = none
sized whole places mult (some frac) = some (size_of whole frac places mult)

abbrev pub of_whole : Text → ℕ → Option ℕ → Option ℕ
of_whole frac_raw mult none = none
of_whole frac_raw mult (some whole) =
    if any (λ c. c == 46) frac_raw
    then none
    else sized whole (length (first_chars 6 frac_raw)) mult (frac_of (first_chars 6 frac_raw))

-- The digits before the first dot and those after it, and the unit.
abbrev pub number : Text → Text × Text
number cleaned =
    parts_of (take_while is_size_char cleaned) (split_once 46 (take_while is_size_char cleaned))

abbrev pub unit_of : Text → Text
unit_of cleaned = trim (skip_while (λ c. is_size_char c || is_whitespace c) cleaned)

unfoldable pub size_of_text : Text → Option ℕ
unfolding take_while skip_while first_chars multiplier split_once trim from_str_radix size_of
    is_whitespace
size_of_text cleaned =
    of_whole (number cleaned).1 (multiplier (unit_of cleaned))
      (from_str_radix 10 u64_max (number cleaned).0)

abbrev pub cleaned : (Text → Text) → Text → Text
cleaned to_uppercase input = to_uppercase (trim (filter (λ c. not (c == 44)) input))

unfoldable pub parse_size : (Text → Text) → Text → Option ℕ
unfolding size_of_text trim
parse_size to_uppercase input = size_of_text (cleaned to_uppercase input)
