-- ===== src/Selectors/Scan.antt =====
-- Scans of a selector's text that mind quotes and escapes, in crates/oxidarr-cardigann/src/selector.rs. A byte index is
-- given as the text before it and the text after it.
use oxidarr.Common.{
  ℕ, suc, ◌+◌, ◌-◌, ◌*◌, ◌==◌, Bool, true, false, ◌&&◌, ◌||◌, not, ltb, Option, none, some, List,
  [], ◌∷◌, ◌++◌, length, Text, is_whitespace, if◌then◌else◌,
}
use oxidarr.Common.Split.{starts_with, keep, onto_first}
use oxidarr.Common.Numerals.{digit_value}
use oxidarr.Common.Utf8.{is_scalar}

abbrev pub is_quote : ℕ → Bool
is_quote c = c == 34 || c == 39

-- Where a scan is: in no string, in a string with a quote, or behind a backslash.
pub data Place : Type 0 where
  outside : Place
  inside : ℕ → Place
  behind : Place → Place

-- After a character, where a backslash escapes only inside of strings.
abbrev pub step : Place → ℕ → Place
step outside c = if is_quote c then inside c else outside
step (inside q) c = if c == 92 then behind (inside q) else if c == q then outside else inside q
step (behind place) c = place

abbrev pub is_outside : Place → Bool
is_outside outside = true
is_outside place = false

abbrev pub deeper : ℕ → ℕ → ℕ
deeper depth c = if c == 40 then suc depth else if c == 41 then depth - 1 else depth

-- The text before the `)` that closes `depth` parentheses, and the text after it.
unfoldable pub close_paren : ℕ → Place → Text → Option (Text × Text)
close_paren depth place [] = none
close_paren depth place (c ∷ s) =
    let later = close_paren (if is_outside place then deeper depth c else depth) (step place c) s in
    if is_outside place && c == 41 && depth == 1 then some ([], s) else keep c later

unfoldable pub find_matching_paren : Text → Option (Text × Text)
unfolding close_paren
find_matching_paren s = close_paren 1 outside s

-- `depth` is the number of `(` less the number of `)`, which an `i32` holds.
unfoldable pub split_commas : ℕ → ℕ → Place → Text → List Text
split_commas opened closed place [] = [] ∷ []
split_commas opened closed place (c ∷ s) =
    let here = is_outside place in
    let rest =
      split_commas (if here && c == 40 then suc opened else opened)
        (if here && c == 41 then suc closed else closed) (step place c) s in
    if here && c == 44 && opened == closed then [] ∷ rest else onto_first c rest

unfoldable pub split_top_level_commas : Text → List Text
unfolding split_commas
split_top_level_commas s = split_commas 0 0 outside s

-- In `find_unquoted` a backslash escapes everywhere.
abbrev pub step_escaping : Place → ℕ → Place
step_escaping (behind place) c = place
step_escaping place c = if c == 92 then behind place else step place c

-- The text before the needle, and the text from it on.
unfoldable pub find_from : Place → Text → Text → Option (Text × Text)
unfolding starts_with
find_from place needle [] = none
find_from place needle (c ∷ s) =
    let later = find_from (step_escaping place c) needle s in
    if is_outside place && not (c == 92) && not (is_quote c) && starts_with needle (c ∷ s)
    then some ([], c ∷ s)
    else keep c later

unfoldable pub find_unquoted : Text → Text → Option (Text × Text)
unfolding find_from
find_unquoted s needle = find_from outside needle s

-- `css_unescape`: behind a backslash it has the hex digits so far.
abbrev pub is_hex : ℕ → Bool
unfolding digit_value
is_hex c = ltb (digit_value c) 16

unfoldable pub hex_value : ℕ → Text → ℕ
unfolding digit_value
hex_value n [] = n
hex_value n (c ∷ s) = hex_value (n * 16 + digit_value c) s

unfoldable pub decoded : Text → Text
unfolding hex_value
decoded hex = if is_scalar (hex_value 0 hex) then hex_value 0 hex ∷ [] else hex

abbrev from_plain : ℕ → Text × Option Text
from_plain c = if c == 92 then ([], some []) else (c ∷ [], none)

-- After the digits of an escape.
abbrev after_hex : Text → ℕ → Text × Option Text
after_hex hex c =
    if is_whitespace c
    then (decoded hex, none)
    else (decoded hex ++ (from_plain c).0, (from_plain c).1)

-- What a character adds, and the escape that goes on.
unfoldable pub unescape_step : Option Text → ℕ → Text × Option Text
unfolding is_whitespace decoded is_hex
unescape_step none c = from_plain c
unescape_step (some []) c = if is_hex c then ([], some (c ∷ [])) else (c ∷ [], none)
unescape_step (some (h ∷ hex)) c =
    if ltb (length (h ∷ hex)) 6 && is_hex c
    then ([], some (h ∷ hex ++ c ∷ []))
    else after_hex (h ∷ hex) c

abbrev at_end : Option Text → Text
at_end none = []
at_end (some []) = []
at_end (some (h ∷ hex)) = decoded (h ∷ hex)

unfoldable pub unescape_from : Option Text → Text → Text
unfolding unescape_step decoded
unescape_from escape [] = at_end escape
unescape_from escape (c ∷ s) =
    let (out, next) = unescape_step escape c in out ++ unescape_from next s

unfoldable pub css_unescape : Text → Text
unfolding unescape_from
css_unescape s = unescape_from none s

abbrev ends_at : ℕ → Text → Option Text
ends_at q [] = none
ends_at q (c ∷ []) = if c == q then some [] else none
ends_at q (c ∷ d ∷ s) = more c (ends_at q (d ∷ s))
  where
    more : ℕ → Option Text → Option Text
    more c none = none
    more c (some s) = some (c ∷ s)

abbrev or_whole : Text → Option Text → Text
or_whole s none = s
or_whole s (some inner) = inner

-- Without one layer of quotes.
abbrev bare : Text → Text
bare [] = []
bare (c ∷ s) = if is_quote c then or_whole (c ∷ s) (ends_at c s) else c ∷ s

unfoldable pub unquote : Text → Text
unfolding css_unescape
unquote s = css_unescape (bare s)
