-- ===== src/Filters.antt =====
-- crates/oxidarr-cardigann/src/filters.rs: the filters of a definition, and `Pattern` over the two regex crates.
pub mod Unicode
pub mod Url
pub mod Html
pub mod Words
pub mod Diacritics
pub mod Apply
pub mod Outcomes
use oxidarr.Common.{
  ℕ, Option, none, some, List, [], ◌∷◌, ◌++◌, Text, codes, text_eq, get_elem?, if◌then◌else◌, any,
  Bool,
}
use oxidarr.Common.Int.{ℤ, pos}
use oxidarr.Common.Numerals.{from_str_radix, usize_max, parse_i64}
use oxidarr.Common.Outcome.{Outcome, ok, err, ◌>>=◌, map_err}
use oxidarr.Template as Template
use oxidarr.Template.{CardigannError, Regex}

-- The crates `regex` and `fancy_regex`, on patterns `F` and `B`. An absent group of a match is
-- `none`, and the match itself is the group at 0.
pub record Engines (F B : Type 0) : Type 0 where
  pub fast_new : Text → Outcome Text F
  pub fancy_new : Text → Outcome Text B
  pub fast_replace_all : F → Text → Text → Text
  pub fancy_try_replacen : B → Text → Text → Outcome Text Text
  pub fast_captures : F → Text → Option (List (Option Text))
  pub fancy_captures : B → Text → Outcome Text (Option (List (Option Text)))

pub data Pattern (F B : Type 0) : Type 0 where
  fast : F → Pattern F B
  fancy : B → Pattern F B

module _ {F B : Type 0} (engines : Engines F B) where
  abbrev compile_fancy : Text → Outcome Text B → Outcome Text (Pattern F B)
  compile_fancy fast_err (ok re) = ok (fancy re)
  compile_fancy fast_err (err fancy_err) =
      err (fast_err ++ codes " (fancy-regex: " ++ fancy_err ++ codes ")")

  abbrev compile_fast : Text → Outcome Text F → Outcome Text (Pattern F B)
  compile_fast pattern (ok re) = ok (fast re)
  compile_fast pattern (err fast_err) = compile_fancy fast_err (engines.fancy_new pattern)

  unfoldable pub compile : Text → Outcome Text (Pattern F B)
  compile pattern = compile_fast pattern (engines.fast_new pattern)

  unfoldable pub replace_all : Pattern F B → Text → Text → Outcome Text Text
  replace_all (fast re) input replacement = ok (engines.fast_replace_all re input replacement)
  replace_all (fancy re) input replacement = engines.fancy_try_replacen re input replacement

  -- The first group, or else the match.
  abbrev group_or_match : Option (List (Option Text)) → Option Text
  group_or_match none = none
  group_or_match (some (whole ∷ some group ∷ groups)) = some group
  group_or_match (some (whole ∷ groups)) = whole
  group_or_match (some []) = none

  abbrev ok_or_none : Outcome Text (Option (List (Option Text))) → Option (List (Option Text))
  ok_or_none (ok found) = found
  ok_or_none (err e) = none

  unfoldable pub first_group : Pattern F B → Text → Option Text
  first_group (fast re) input = group_or_match (engines.fast_captures re input)
  first_group (fancy re) input = group_or_match (ok_or_none (engines.fancy_captures re input))

  -- What the templates use of `Pattern`.
  abbrev pub regex_of : Regex (Pattern F B)
  unfolding compile replace_all
  regex_of = record { compile = compile; replace_all = replace_all }

-- A clock that reads an instant, and the keywords of the search.
pub record FilterCtx (I : Type 0) : Type 0 where
  pub now : I
  pub keywords : List Text

pub data FilterOutcome : Type 0 where
  value : Text → FilterOutcome
  drop_row : FilterOutcome

pub data Filter (P : Type 0) : Type 0 where
  re_replace : P → Text → Filter P
  replace : Text → Text → Filter P
  append prepend : Text → Filter P
  date_parse time_parse : Text → Filter P
  regexp : P → Filter P
  query_string : Text → Filter P
  and_match : Option ℕ → Filter P
  split : Text → ℤ → Filter P
  trim : Option Text → Filter P
  time_ago fuzzy_time : Filter P
  validate : Text → Filter P
  html_decode valid_filename url_decode url_encode diacritics to_upper to_lower : Filter P

abbrev or_empty : Option Text → Text
or_empty none = []
or_empty (some s) = s

abbrev or_zero : Option ℤ → ℤ
or_zero none = pos 0
or_zero (some z) = z

unfoldable pub usize_of : Option Text → Option ℕ
unfolding from_str_radix
usize_of none = none
usize_of (some s) = from_str_radix 10 usize_max s

module _ {P : Type 0} (regex : Regex P) where
  -- A filter that compiles its first argument.
  abbrev compiled : Text → Text → (P → Filter P) → Outcome CardigannError (Filter P)
  compiled name pattern make =
      map_err (λ e. Template.filter name (codes "invalid regex: " ++ e)) (regex.compile pattern)
      >>= λ re. ok (make re)

  unfoldable pub parse_filter : Text → List Text → Outcome CardigannError (Filter P)
  unfolding usize_of parse_i64
  parse_filter name args =
      let first = or_empty (get_elem? args 0) in
      let second = or_empty (get_elem? args 1) in
      if text_eq name (codes "re_replace")
      then compiled name first (λ re. re_replace re second)
      else if text_eq name (codes "replace")
      then ok (replace first second)
      else if text_eq name (codes "append")
      then ok (append first)
      else if text_eq name (codes "prepend")
      then ok (prepend first)
      else if text_eq name (codes "dateparse")
      then ok (date_parse first)
      else if text_eq name (codes "timeparse")
      then ok (time_parse first)
      else if text_eq name (codes "regexp")
      then compiled name first regexp
      else if text_eq name (codes "querystring")
      then ok (query_string first)
      else if text_eq name (codes "andmatch")
      then ok (and_match (usize_of (get_elem? args 0)))
      else if text_eq name (codes "split")
      then ok (split first (or_zero (parse_i64 second)))
      else if text_eq name (codes "trim")
      then ok (trim (get_elem? args 0))
      else if text_eq name (codes "timeago")
      then ok time_ago
      else if text_eq name (codes "fuzzytime")
      then ok fuzzy_time
      else if text_eq name (codes "validate")
      then ok (validate first)
      else if text_eq name (codes "htmldecode")
      then ok html_decode
      else if text_eq name (codes "validfilename")
      then ok valid_filename
      else if text_eq name (codes "urldecode")
      then ok url_decode
      else if text_eq name (codes "urlencode")
      then ok url_encode
      else if text_eq name (codes "diacritics")
      then ok diacritics
      else if text_eq name (codes "toupper")
      then ok to_upper
      else if text_eq name (codes "tolower")
      then ok to_lower
      else err (Template.unknown_filter name)
