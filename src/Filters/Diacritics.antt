-- ===== src/Filters/Diacritics.antt =====
-- `fold_diacritics` of crates/oxidarr-cardigann/src/filters.rs.
use oxidarr.Common.{ℕ, ◌-◌, ◌==◌, ◌&&◌, leb, List, [], ◌∷◌, map, any, Text, if◌then◌else◌}
use oxidarr.Filters.Unicode.{Unicode}

-- A base letter, and the letters that fold to it.
unfoldable pub latin_letters : List (ℕ × List ℕ)
latin_letters =
    (
      97,
      0xe0 ∷ 0xe1 ∷ 0xe2 ∷ 0xe3 ∷ 0xe4 ∷ 0xe5 ∷ 0x101 ∷ 0x103 ∷ 0x105 ∷ 0x1ea1 ∷ 0x1ea3 ∷ 0x1ea5
          ∷ 0x1ea7 ∷ 0x1ea9 ∷ 0x1eab ∷ 0x1ead ∷ 0x1eaf ∷ 0x1eb1 ∷ 0x1eb3 ∷ 0x1eb5 ∷ 0x1eb7 ∷ [],
    )
    ∷ (99, 0xe7 ∷ 0x107 ∷ 0x10d ∷ 0x109 ∷ 0x10b ∷ [])
    ∷ (100, 0x10f ∷ 0x111 ∷ [])
    ∷ (
      101,
      0xe8 ∷ 0xe9 ∷ 0xea ∷ 0xeb ∷ 0x113 ∷ 0x115 ∷ 0x117 ∷ 0x119 ∷ 0x11b ∷ 0x1eb9 ∷ 0x1ebb ∷ 0x1ebd
          ∷ 0x1ebf ∷ 0x1ec1 ∷ 0x1ec3 ∷ 0x1ec5 ∷ 0x1ec7 ∷ [],
    )
    ∷ (103, 0x11d ∷ 0x11f ∷ 0x121 ∷ 0x123 ∷ [])
    ∷ (104, 0x125 ∷ 0x127 ∷ [])
    ∷ (105, 0xec ∷ 0xed ∷ 0xee ∷ 0xef ∷ 0x129 ∷ 0x12b ∷ 0x12f ∷ 0x1ec9 ∷ 0x1ecb ∷ [])
    ∷ (106, 0x135 ∷ [])
    ∷ (107, 0x137 ∷ [])
    ∷ (108, 0x13a ∷ 0x13c ∷ 0x13e ∷ 0x142 ∷ [])
    ∷ (110, 0xf1 ∷ 0x144 ∷ 0x146 ∷ 0x148 ∷ [])
    ∷ (
      111,
      0xf2 ∷ 0xf3 ∷ 0xf4 ∷ 0xf5 ∷ 0xf6 ∷ 0xf8 ∷ 0x14d ∷ 0x151 ∷ 0x1a1 ∷ 0x1ecd ∷ 0x1ecf ∷ 0x1ed1
          ∷ 0x1ed3 ∷ 0x1ed5 ∷ 0x1ed7 ∷ 0x1ed9 ∷ 0x1edb ∷ 0x1edd ∷ 0x1edf ∷ 0x1ee1 ∷ 0x1ee3 ∷ [],
    )
    ∷ (114, 0x155 ∷ 0x159 ∷ [])
    ∷ (115, 0x15b ∷ 0x15f ∷ 0x161 ∷ 0x219 ∷ 0x15d ∷ [])
    ∷ (116, 0x163 ∷ 0x165 ∷ 0x21b ∷ [])
    ∷ (
      117,
      0xf9 ∷ 0xfa ∷ 0xfb ∷ 0xfc ∷ 0x169 ∷ 0x16b ∷ 0x16f ∷ 0x171 ∷ 0x173 ∷ 0x1b0 ∷ 0x1ee5 ∷ 0x1ee7
          ∷ 0x1ee9 ∷ 0x1eeb ∷ 0x1eed ∷ 0x1eef ∷ 0x1ef1 ∷ [],
    )
    ∷ (121, 0xfd ∷ 0xff ∷ 0x1ef3 ∷ 0x1ef5 ∷ 0x1ef7 ∷ 0x1ef9 ∷ [])
    ∷ (122, 0x17a ∷ 0x17c ∷ 0x17e ∷ [])
    ∷ []

abbrev letter_of : ℕ → List (ℕ × List ℕ) → ℕ
letter_of c [] = c
letter_of c ((base, accented) ∷ rest) =
    let later = letter_of c rest in if any (λ a. a == c) accented then base else later

unfoldable pub base_latin_letter : ℕ → ℕ
unfolding latin_letters
base_latin_letter c = letter_of c latin_letters

abbrev pub to_ascii_uppercase : ℕ → ℕ
to_ascii_uppercase c = if leb 97 c && leb c 122 then c - 32 else c

abbrev first_or : ℕ → Text → ℕ
first_or c [] = c
first_or c (d ∷ s) = d

unfoldable pub fold_diacritic_char : Unicode → ℕ → ℕ
unfolding base_latin_letter
fold_diacritic_char unicode c =
    let folded = base_latin_letter (first_or c (unicode.char_to_lowercase c)) in
    if c == 0x131
    then 105
    else if c == 0x130
    then 73
    else if unicode.is_uppercase c
    then to_ascii_uppercase folded
    else folded

unfoldable pub fold_diacritics : Unicode → Text → Text
unfolding fold_diacritic_char
fold_diacritics unicode input = map (fold_diacritic_char unicode) input
