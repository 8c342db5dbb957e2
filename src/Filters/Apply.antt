-- ===== src/Filters/Apply.antt =====
-- `apply` of crates/oxidarr-cardigann/src/filters.rs.
use oxidarr.Common.{
  ℕ, ◌==◌, Bool, true, false, Option, none, some, List, [], ◌∷◌, ◌++◌, any, Text, codes, length,
  get_elem?, if◌then◌else◌,
}
use oxidarr.Common as Common
use oxidarr.Common.Outcome.{Outcome, ok, ◌>>=◌, map_err}
use oxidarr.Common.Int.{ℤ}
use oxidarr.Common.Split as Split
use oxidarr.Common.Str as Str
use oxidarr.Dates.{Chrono}
use oxidarr.Dates.Parse.{parse_net_datetime}
use oxidarr.Dates.Fuzzy.{parse_fuzzy}
use oxidarr.Template as Template
use oxidarr.Template.{CardigannError}
use oxidarr.Filters.{
  Engines, Pattern, FilterCtx, FilterOutcome, value, drop_row, Filter, re_replace, replace, append,
  prepend, date_parse, time_parse, regexp, query_string, and_match, split, trim, time_ago,
  fuzzy_time, validate, html_decode, valid_filename, url_decode, url_encode, diacritics, to_upper,
  to_lower, replace_all, first_group,
}
use oxidarr.Filters.Unicode.{Unicode}
use oxidarr.Filters.Url.{urlencoding_encode, urlencoding_decode}
use oxidarr.Filters.Html as Html
use oxidarr.Filters.Words as Words
use oxidarr.Filters.Diacritics.{fold_diacritics}

-- `parts[i]` for an index in range.
abbrev pub part_at : List Text → Option ℕ → Text
part_at parts none = []
part_at parts (some i) = or_empty (get_elem? parts i)
  where
    or_empty : Option Text → Text
    or_empty none = []
    or_empty (some s) = s

unfoldable pub split_part : Text → ℤ → Text → Text
unfolding Split.split_text Words.resolve_split_index
split_part sep index input =
    let parts = Split.split_text sep input in
    part_at parts (Words.resolve_split_index index (length parts))

abbrev pub or_empty : Option Text → Text
or_empty none = []
or_empty (some s) = s

module _ {I D T L F B : Type 0} (chrono : Chrono I D T L) (engines : Engines F B)
    (unicode : Unicode) (debug : Text → Text) where
  -- A date as RFC 3339, or the input as it is.
  abbrev pub or_input : Text → Option I → Text
  or_input input none = input
  or_input input (some instant) = chrono.to_rfc3339 instant

  abbrev plain : Text → Outcome CardigannError FilterOutcome
  plain s = ok (value s)

  unfoldable pub apply :
      Filter (Pattern F B) → Text → FilterCtx I → Outcome CardigannError FilterOutcome
  unfolding replace_all Split.replace first_group Words.query_param split_part Words.trim_matches
      Str.trim urlencoding_encode urlencoding_decode Html.html_decode Words.is_filename_char
      fold_diacritics Words.validate_intersect parse_net_datetime parse_fuzzy Words.and_match
  apply (and_match limit) input ctx =
      ok (if Words.and_match unicode input ctx.keywords limit then value input else drop_row)
  apply (re_replace pattern replacement) input ctx =
      map_err (Template.filter (codes "re_replace")) (replace_all engines pattern input replacement)
      >>= plain
  apply (replace from to) input ctx = plain (Split.replace from to input)
  apply (append s) input ctx = plain (input ++ s)
  apply (prepend s) input ctx = plain (s ++ input)
  apply (regexp re) input ctx = plain (or_empty (first_group engines re input))
  apply (query_string key) input ctx = plain (Words.query_param input key)
  apply (split sep index) input ctx = plain (split_part sep index input)
  apply (trim (some chars)) input ctx =
      plain (Words.trim_matches (λ c. any (λ d. d == c) chars) input)
  apply (trim none) input ctx = plain (Str.trim input)
  apply to_upper input ctx = plain (unicode.to_uppercase input)
  apply to_lower input ctx = plain (unicode.to_lowercase input)
  apply url_encode input ctx = plain (urlencoding_encode input)
  apply url_decode input ctx = plain (urlencoding_decode input)
  apply html_decode input ctx = plain (Html.html_decode input)
  apply valid_filename input ctx = plain (Common.filter Words.is_filename_char input)
  apply diacritics input ctx = plain (fold_diacritics unicode input)
  apply (validate whitelist) input ctx = plain (Words.validate_intersect unicode input whitelist)
  apply (date_parse layout) input ctx =
      plain (or_input input (parse_net_datetime chrono debug layout input ctx.now))
  apply (time_parse layout) input ctx =
      plain (or_input input (parse_net_datetime chrono debug layout input ctx.now))
  apply time_ago input ctx =
      plain (or_input input (parse_fuzzy chrono unicode.to_lowercase input ctx.now))
  apply fuzzy_time input ctx =
      plain (or_input input (parse_fuzzy chrono unicode.to_lowercase input ctx.now))
