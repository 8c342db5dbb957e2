-- ===== src/Selectors/Compile.antt =====
-- `compile` of crates/oxidarr-cardigann/src/selector.rs. The loops on a text go on with shorter ones.
use oxidarr.Common.{
  ℕ, Bool, true, false, ◌||◌, not, Option, none, some, [], ◌∷◌, ◌++◌, Text, codes, if◌then◌else◌,
}
use oxidarr.Common.Outcome.{Outcome, ok, err, ◌>>=◌, map_err, map_all}
use oxidarr.Common.Halt.{Halt, panicked, raising}
use oxidarr.Common.Rounds.{loop}
use oxidarr.Common.Split.{split_once, replace, starts_with, contains_text}
use oxidarr.Common.Str.{trim, drop}
use oxidarr.Template as Template
use oxidarr.Template.{CardigannError, strip_prefix, is_empty}
use oxidarr.Filters.Unicode.{Unicode}
use oxidarr.Selectors.{
  Scraper, contains, descendant, Predicates, none_more, also, Branch, CompiledSelector, css,
  json_path, negated,
}
use oxidarr.Selectors.Scan.{find_matching_paren, split_top_level_commas, find_unquoted, unquote}
use oxidarr.Selectors.JsonPath.{is_digit, is_json_path}

-- Both rewritings of attribute selectors change the text between brackets.
abbrev pub close_bracket : (Text → Text) → (Text → Text) → Text → Text → Option (Text × Text) → Text
close_bracket change rec before after none = before ++ codes "[" ++ after
close_bracket change rec before after (some (body, rest)) =
    before ++ change body ++ rec (drop 1 rest)

abbrev pub open_bracket : (Text → Text) → (Text → Text) → Text → Option (Text × Text) → Text
open_bracket change rec s none = s
open_bracket change rec s (some (before, from)) =
    close_bracket change rec before (drop 1 from) (find_unquoted (drop 1 from) (codes "]"))

unfoldable pub each_bracket : (Text → Text) → Text → Text
unfolding find_unquoted loop drop
each_bracket change = loop [] (λ rec s. open_bracket change rec s (find_unquoted s (codes "[")))

abbrev not_equal : Text → Option (Text × Text) → Text
not_equal body none = codes "[" ++ body ++ codes "]"
not_equal body (some (before, from)) =
    codes ":not([" ++ before ++ codes "=" ++ drop 2 from ++ codes "])"

unfoldable pub rewrite_not_equal : Text → Text
unfolding each_bracket find_unquoted drop
rewrite_not_equal = each_bracket (λ body. not_equal body (find_unquoted body (codes "!=")))

abbrev starts_with_digit : Text → Bool
starts_with_digit [] = false
starts_with_digit (c ∷ s) = is_digit c

abbrev of_value : Text → Option (Text × Text) → Text
of_value inner none = inner
of_value inner (some (name, value)) =
    if starts_with (codes "\\\"") value || starts_with (codes "\\'") value
    then replace (codes "\\'") (codes "'") (replace (codes "\\\"") (codes "\"") inner)
    else if starts_with_digit value
    then name ++ codes "=\"" ++ value ++ codes "\""
    else inner

unfoldable pub normalize_attribute_value : Text → Text
unfolding split_once starts_with replace
normalize_attribute_value inner = of_value inner (split_once 61 inner)

unfoldable pub normalize_attribute_selectors : Text → Text
unfolding each_bracket normalize_attribute_value
normalize_attribute_selectors =
    each_bracket (λ body. codes "[" ++ normalize_attribute_value body ++ codes "]")

pub data Marker : Type 0 where
  contains_marker has_marker not_marker : Marker

abbrev pub token : Marker → Text
token contains_marker = codes ":contains("
token has_marker = codes ":has("
token not_marker = codes ":not("

abbrev pub mark : Marker → Option Text → Option (Marker × Text) → Option (Marker × Text)
mark m none later = later
mark m (some after) later = some (m, after)

abbrev pub marker_at : Text → Option (Marker × Text)
marker_at s = mark contains_marker (strip_prefix (token contains_marker) s) (
    mark has_marker (strip_prefix (token has_marker) s)
      (mark not_marker (strip_prefix (token not_marker) s) none))

abbrev pub found_at :
    ℕ → Option (Marker × Text) → Option (Text × (Marker × Text)) → Option (Text × (Marker × Text))
found_at c (some here) later = some ([], here)
found_at c none none = none
found_at c none (some (before, found)) = some (c ∷ before, found)

-- The text before the earliest marker, the marker, and the text after it.
unfoldable pub find_earliest : Text → Option (Text × (Marker × Text))
unfolding strip_prefix
find_earliest [] = none
find_earliest (c ∷ s) = let later = find_earliest s in found_at c (marker_at (c ∷ s)) later

abbrev kept : Text → Text → Text
kept start inner = if is_empty inner then [] else start ++ inner ++ codes ")"

abbrev or_all : Text → Text
or_all s = if is_empty s then codes "*" else s

abbrev strip_dollar : Text → Option Text → Text
strip_dollar s none = s
strip_dollar s (some rest) = rest

module _ {E C : Type 0} (scraper : Scraper E C) where
  abbrev Rewritten : Type 0
  Rewritten = Outcome CardigannError (Text × Predicates C)

  unfoldable pub append_predicates : Predicates C → Predicates C → Predicates C
  append_predicates none_more qs = qs
  append_predicates (also p ps) qs = also p (append_predicates ps qs)

  unfoldable pub negate_all : Predicates C → Predicates C
  unfolding negated
  negate_all none_more = none_more
  negate_all (also p ps) = also (negated p) (negate_all ps)

  abbrev is_none : Predicates C → Bool
  is_none none_more = true
  is_none (also p ps) = false

  -- `Selector::parse` with its error.
  unfoldable pub parse_css : Text → Text → Outcome CardigannError C
  parse_css raw s = map_err (Template.CardigannError.selector raw) (scraper.parse_css s)

  abbrev lifted : Text → Text → Predicates C → Rewritten
  lifted raw inner nested = parse_css raw (or_all inner) >>= λ scope.
      ok ([], also (descendant scope nested false) none_more)

  unfoldable pub rewrite_has : Text → Text → Predicates C → Rewritten
  unfolding parse_css contains_text
  rewrite_has raw inner nested =
      if not (is_none nested) || contains_text inner (codes ":has(")
      then lifted raw inner nested
      else ok (kept (codes ":has(") inner, none_more)

  -- One marker with its argument.
  unfoldable pub rewrite_marker : Text → (Text → Rewritten) → Marker → Text → Rewritten
  unfolding rewrite_has unquote trim negate_all
  rewrite_marker raw rec contains_marker arg =
      ok ([], also (contains (unquote (trim arg)) false) none_more)
  rewrite_marker raw rec has_marker arg =
      rec arg >>= λ (inner, nested). rewrite_has raw (trim inner) nested
  rewrite_marker raw rec not_marker arg =
      rec arg >>= λ (inner, nested). ok (kept (codes ":not(") (trim inner), negate_all nested)

  abbrev join_rewritten : Text → Text × Predicates C → Text × Predicates C → Rewritten
  join_rewritten before (out, ps) (out', ps') = ok (before ++ out ++ out', append_predicates ps ps')

  abbrev pub at_paren : Text → (Text → Rewritten) → Text → Marker → Option (Text × Text) → Rewritten
  at_paren raw rec before marker none = err (CardigannError.unbalanced_contains raw)
  at_paren raw rec before marker (some (arg, rest)) = rewrite_marker raw rec marker arg >>= λ here.
      rec rest >>= λ later. join_rewritten before here later

  abbrev pub at_marker :
      Text → (Text → Rewritten) → Text → Option (Text × (Marker × Text)) → Rewritten
  at_marker raw rec s none = ok (s, none_more)
  at_marker raw rec s (some (before, (marker, after))) =
      at_paren raw rec before marker (find_matching_paren after)

  unfoldable pub rewrite_round : Text → (Text → Rewritten) → Text → Rewritten
  unfolding find_earliest find_matching_paren rewrite_marker append_predicates
  rewrite_round raw rec s = at_marker raw rec s (find_earliest s)

  unfoldable pub rewrite : Text → Text → Rewritten
  unfolding rewrite_round loop
  rewrite raw = loop (err (CardigannError.unbalanced_contains raw)) (rewrite_round raw)

  unfoldable pub compile_branch : Text → Text → Outcome CardigannError (Branch C)
  unfolding rewrite parse_css trim
  compile_branch raw part = rewrite raw part >>= λ (text, predicates).
      parse_css raw (or_all (trim text)) >>= λ scope.
      ok (record { css = scope; predicates = predicates })

  unfoldable pub compile_css : Text → Outcome CardigannError (CompiledSelector C)
  unfolding compile_branch split_top_level_commas normalize_attribute_selectors rewrite_not_equal
      strip_prefix
  compile_css raw =
      let normalized = normalize_attribute_selectors (rewrite_not_equal raw) in
      map_all (compile_branch raw)
        (split_top_level_commas (strip_dollar normalized (strip_prefix (codes "$") normalized)))
      >>= λ branches. ok (css branches)

  abbrev pub of_json_path : Text → Option Bool → Outcome (Halt CardigannError) (CompiledSelector C)
  of_json_path raw none = err panicked
  of_json_path raw (some true) = ok json_path
  of_json_path raw (some false) = raising (compile_css raw)

  unfoldable pub compile : Unicode → Text → Outcome (Halt CardigannError) (CompiledSelector C)
  unfolding is_json_path compile_css trim
  compile unicode raw = of_json_path raw (is_json_path unicode (trim raw))
