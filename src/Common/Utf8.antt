-- ===== src/Common/Utf8.antt =====
-- UTF-8: `str::as_bytes`, and `String::from_utf8_lossy`, which puts U+FFFD for each maximal part that is not UTF-8.
pub mod Laws
use oxidarr.Common.{
  ℕ, zero, suc, ◌+◌, ◌-◌, ◌*◌, ◌/◌, ◌%◌, ◌≤◌, ◌<◌, ◌≡◌, refl, ap, ◌∙◌, Bool, true, ◌&&◌, ◌||◌, ◌==◌,
  ltb, leb, List, [], ◌∷◌, ◌++◌, Text, arith, if◌then◌else◌, all, le→leb, Bool-cases, inl, inr,
}

-- The range of `char`: `char::from_u32` succeeds.
abbrev pub is_scalar : ℕ → Bool
is_scalar c = ltb c 0xd800 || leb 0xe000 c && ltb c 0x110000

unfoldable pub utf8_char : ℕ → List ℕ
utf8_char c =
    if ltb c 0x80
    then c ∷ []
    else if ltb c 0x800
    then (0xc0 + c / 64) ∷ (0x80 + c % 64) ∷ []
    else if ltb c 0x10000
    then (0xe0 + c / 4096) ∷ (0x80 + c / 64 % 64) ∷ (0x80 + c % 64) ∷ []
    else (0xf0 + c / 262144) ∷ (0x80 + c / 4096 % 64) ∷ (0x80 + c / 64 % 64) ∷ (0x80 + c % 64) ∷ []

unfoldable pub utf8 : Text → List ℕ
unfolding utf8_char
utf8 [] = []
utf8 (c ∷ s) = utf8_char c ++ utf8 s

-- At a character's first byte, or at a byte from `low` to `high` with `more` to follow.
pub data Mode : Type 0 where
  first : Mode
  later : ℕ → ℕ → ℕ → ℕ → Mode

unfoldable at_first : ℕ → Text × Mode
at_first b =
    if ltb b 0x80
    then (b ∷ [], first)
    else if ltb b 0xc2
    then (0xfffd ∷ [], first)
    else if ltb b 0xe0
    then ([], later 0 0x80 0xbf (b - 0xc0))
    else if b == 0xe0
    then ([], later 1 0xa0 0xbf 0)
    else if b == 0xed
    then ([], later 1 0x80 0x9f 13)
    else if ltb b 0xf0
    then ([], later 1 0x80 0xbf (b - 0xe0))
    else if b == 0xf0
    then ([], later 2 0x90 0xbf 0)
    else if ltb b 0xf4
    then ([], later 2 0x80 0xbf (b - 0xf0))
    else if b == 0xf4
    then ([], later 2 0x80 0x8f 4)
    else (0xfffd ∷ [], first)

abbrev took : ℕ → ℕ → Text × Mode
took zero value = (value ∷ [], first)
took (suc more) value = ([], later more 0x80 0xbf value)

abbrev replace_with : Text × Mode → Text × Mode
replace_with (out, mode) = (0xfffd ∷ out, mode)

unfoldable step : Mode → ℕ → Text × Mode
unfolding at_first
step first b = at_first b
step (later more low high value) b =
    if leb low b && leb b high
    then took more (value * 64 + (b - 0x80))
    else replace_with (at_first b)

unfoldable pub from_utf8 : Mode → List ℕ → Text
unfolding step
from_utf8 first [] = []
from_utf8 (later more low high value) [] = 0xfffd ∷ []
from_utf8 mode (b ∷ bytes) = let (out, next) = step mode b in out ++ from_utf8 next bytes

unfoldable pub from_utf8_lossy : List ℕ → Text
unfolding from_utf8
from_utf8_lossy = from_utf8 first
