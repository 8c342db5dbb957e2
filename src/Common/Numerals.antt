-- ===== src/Common/Numerals.antt =====
-- `from_str_radix` and `parse` of integers: an optional sign, and digits that fit.
use oxidarr.Common.{
  ℕ, zero, suc, ◌+◌, ◌-◌, ◌*◌, ◌^◌, ◌&&◌, ◌==◌, ltb, leb, Option, none, some, [], ◌∷◌, Text,
  if◌then◌else◌,
}
use oxidarr.Common.Int.{ℤ, pos, negsuc}

-- `char::to_digit`, where 36 stands for no digit.
unfoldable pub digit_value : ℕ → ℕ
digit_value c =
    if leb 48 c && leb c 57
    then c - 48
    else if leb 65 c && leb c 90
    then c - 55
    else if leb 97 c && leb c 122
    then c - 87
    else 36

-- Checked arithmetic: too large a value is an error.
unfoldable pub digits_value : ℕ → ℕ → ℕ → Text → Option ℕ
unfolding digit_value
digits_value radix max acc [] = some acc
digits_value radix max acc (c ∷ s) =
    let next = acc * radix + digit_value c in
    let rest = digits_value radix max next s in
    if ltb (digit_value c) radix && leb next max then rest else none

abbrev pub unsigned_digits : ℕ → ℕ → Text → Option ℕ
unsigned_digits radix max [] = none
unsigned_digits radix max (c ∷ s) = digits_value radix max 0 (c ∷ s)

-- For an unsigned type with the largest value `max`.
unfoldable pub from_str_radix : ℕ → ℕ → Text → Option ℕ
unfolding digits_value
from_str_radix radix max [] = none
from_str_radix radix max (c ∷ s) =
    if c == 43 then unsigned_digits radix max s else unsigned_digits radix max (c ∷ s)

abbrev pub u8_max : ℕ
u8_max = 2 ^ 8 - 1

abbrev pub u32_max : ℕ
u32_max = 2 ^ 32 - 1

-- `usize` has 64 bits.
abbrev pub usize_max : ℕ
usize_max = 2 ^ 64 - 1

abbrev pub i64_max : ℕ
i64_max = 2 ^ 63 - 1

abbrev pub negated : Option ℕ → Option ℤ
negated none = none
negated (some zero) = some (pos zero)
negated (some (suc n)) = some (negsuc n)

abbrev pub positive : Option ℕ → Option ℤ
positive none = none
positive (some n) = some (pos n)

unfoldable pub parse_i64 : Text → Option ℤ
unfolding digits_value from_str_radix
parse_i64 [] = none
parse_i64 (c ∷ s) =
    if c == 45
    then negated (unsigned_digits 10 (2 ^ 63) s)
    else positive (from_str_radix 10 i64_max (c ∷ s))
