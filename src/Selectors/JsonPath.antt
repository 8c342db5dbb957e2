-- ===== src/Selectors/JsonPath.antt =====
-- Which selectors are JSON field paths, in crates/oxidarr-cardigann/src/selector.rs. A slice may panic.
use oxidarr.Common.{
  ℕ, zero, suc, ◌-◌, ◌==◌, Bool, true, false, ◌&&◌, ◌||◌, not, leb, Option, none, some, [], ◌∷◌,
  length, any, all, Text, codes, text_eq, if◌then◌else◌,
}
use oxidarr.Common.Rounds.{loop}
use oxidarr.Common.Split.{split_once}
use oxidarr.Common.Utf8.{utf8_char}
use oxidarr.Template.{strip_prefix, is_empty}
use oxidarr.Filters.Unicode.{Unicode}

-- `&s[n..]`: a panic is `none`.
unfoldable pub slice_from : ℕ → Text → Option Text
unfolding utf8_char
slice_from zero s = some s
slice_from (suc n) [] = none
slice_from (suc n) (c ∷ s) =
    let width = length (utf8_char c) in
    let rest = slice_from (suc n - width) s in if leb width (suc n) then rest else none

-- What a round of `is_path_tail` does: it returns, or goes on, or panics.
pub data Round : Type 0 where
  returns : Bool → Round
  goes_on : Text → Round
  panics : Round

abbrev pub goes : Option Text → Round
goes none = panics
goes (some s) = goes_on s

abbrev pub is_digit : ℕ → Bool
is_digit c = leb 48 c && leb c 57

abbrev pub after_index : Option (Text × Text) → Round
after_index none = returns false
after_index (some (index, rest)) =
    if not (is_empty index) && all is_digit index then goes_on rest else returns false

module _ (unicode : Unicode) where
  abbrev pub is_word : ℕ → Bool
  is_word c = unicode.is_alphanumeric c || c == 95

  unfoldable pub is_identifier : Text → Bool
  is_identifier s = not (is_empty s) && all is_word s

  -- The number of characters of the identifier that a text starts with.
  unfoldable pub ident_len : Text → ℕ
  ident_len [] = 0
  ident_len (c ∷ s) = let rest = ident_len s in if is_word c then suc rest else 0

  unfoldable pub path_step : Text → Round
  unfolding ident_len slice_from split_once
  path_step [] = returns true
  path_step (c ∷ s) =
      if c == 46
      then goes_on s
      else if c == 91
      then after_index (split_once 93 s)
      else if ident_len (c ∷ s) == 0
      then returns false
      else goes (slice_from (ident_len (c ∷ s)) (c ∷ s))

  abbrev pub path_next : (Text → Option Bool) → Round → Option Bool
  path_next rec (returns b) = some b
  path_next rec (goes_on s) = rec s
  path_next rec panics = none

  unfoldable pub is_path_tail : Text → Option Bool
  unfolding path_step loop
  is_path_tail = loop none (λ rec s. path_next rec (path_step s))

  abbrev pub of_root : Text → Option Text → Option Bool
  of_root s none = if any (λ c. c == 91) s then is_path_tail s else some false
  of_root s (some tail) = if is_empty tail then some false else is_path_tail tail

  abbrev pub of_descent : Text → Option Text → Option Bool
  of_descent s none = of_root s (strip_prefix (codes "$") s)
  of_descent s (some rest) = some (is_identifier rest)

  unfoldable pub is_json_path : Text → Option Bool
  unfolding is_path_tail is_identifier strip_prefix
  is_json_path s =
      if text_eq s (codes "$") then some true else of_descent s (strip_prefix (codes "..") s)
