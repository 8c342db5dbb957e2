-- ===== src/Extraction.antt =====
-- crates/oxidarr-cardigann/src/engine.rs: releases from the rows of a page.
pub mod Size
pub mod Exact
pub mod Release
pub mod Rows
pub mod Outcomes
use oxidarr.Common.{
  ℕ, zero, suc, Bool, true, false, ◌&&◌, ◌||◌, not, ◌==◌, any, Option, none, some, List, [], ◌∷◌,
  ◌++◌, map, Text, codes, text_eq, if◌then◌else◌,
}
use oxidarr.Common.Outcome.{Outcome, ok, err, ◌>>=◌}
use oxidarr.Common.Halt.{Halt, raised, raising}
use oxidarr.Common.Ordered.{put}
use oxidarr.Dates.{Chrono}
use oxidarr.Model.{Definition, Field, FilterSpec, to_vec, declares_json_response}
use oxidarr.Template as Template
use oxidarr.Template.{CardigannError, Scope, set_result, is_empty}
use oxidarr.Template.Render.{render_text}
use oxidarr.Filters.{Engines, FilterCtx, FilterOutcome, value, drop_row, regex_of, parse_filter}
use oxidarr.Filters.Unicode.{Unicode}
use oxidarr.Filters.Apply.{apply}
use oxidarr.Search.Query.{new_scope, set_configs}
use oxidarr.Selectors.{Scraper, TextNode, CompiledSelector, matches, select, is_json_path}
use oxidarr.Selectors.Compile.{compile}

-- The crates and tables that the engine stands on.
pub record Libraries (I D T L F B E C : Type 0) : Type 0 where
  pub chrono : Chrono I D T L
  pub engines : Engines F B
  pub unicode : Unicode
  pub scraper : Scraper E C
  pub debug : Text → Text

abbrev pub or_empty : Option Text → Text
or_empty none = []
or_empty (some s) = s

abbrev pub first : {A : Type 0} → List A → Option A
first [] = none
first (x ∷ xs) = some x

-- Whether a removed element stands between a text node and the element `top`.
unfoldable pub under_removed : ℕ → List ℕ → List ℕ → Bool
under_removed top removed [] = false
under_removed top removed (a ∷ ancestors) =
    let further = under_removed top removed ancestors in
    if a == top then false else any (λ r. r == a) removed || further

unfoldable pub remaining_text : ℕ → List ℕ → List TextNode → Text
unfolding under_removed
remaining_text top removed [] = []
remaining_text top removed (node ∷ nodes) =
    let rest = remaining_text top removed nodes in
    if under_removed top removed node.ancestors then rest else node.text ++ rest

-- The default of a field stands in for an empty value.
abbrev pub or_default : Option Text → Text → Text
or_default none v = v
or_default (some default) v = if is_empty v then default else v

abbrev pub defaulted : Option Text → FilterOutcome → FilterOutcome
defaulted default drop_row = drop_row
defaulted default (value v) = value (or_default default v)

-- What follows a value, and what follows a dropped row.
abbrev pub on_outcome : {A : Type 0} → (Text → A) → A → FilterOutcome → A
on_outcome go dropped (value v) = go v
on_outcome go dropped drop_row = dropped

module _ {I D T L F B E C : Type 0} (lib : Libraries I D T L F B E C) where
  abbrev json_reason : Text
  json_reason = codes "JSON field-path selectors are not supported by the HTML extraction engine"

  abbrev html_only : Text → CompiledSelector C → Outcome (Halt CardigannError) (CompiledSelector C)
  html_only raw compiled =
      if is_json_path compiled
      then err (raised (CardigannError.selector raw json_reason))
      else ok compiled

  unfoldable pub compile_html_selector : Text → Outcome (Halt CardigannError) (CompiledSelector C)
  unfolding compile
  compile_html_selector raw = compile lib.scraper lib.unicode raw >>= html_only raw

  unfoldable pub render : Text → Scope → Outcome (Halt CardigannError) Text
  unfolding render_text
  render template scope = raising (render_text (regex_of lib.engines) lib.debug template scope)

  -- Whether a key of `case:` matches the row.
  unfoldable pub key_matches : Text → E → Outcome (Halt CardigannError) Bool
  unfolding compile_html_selector matches select
  key_matches key row =
      if text_eq key (codes "*")
      then ok true
      else compile_html_selector key >>= λ compiled.
          ok (matches lib.scraper compiled row || not (is_empty (select lib.scraper compiled row)))

  abbrev pub if_matched :
      Bool
      → Outcome (Halt CardigannError) Text
      → Outcome (Halt CardigannError) Text
      → Outcome (Halt CardigannError) Text
  if_matched true found later = found
  if_matched false found later = later

  unfoldable pub case_value : List (Text × Text) → E → Scope → Outcome (Halt CardigannError) Text
  unfolding key_matches render
  case_value [] row scope = ok []
  case_value ((key, template) ∷ cases) row scope =
      let later = case_value cases row scope in
      key_matches key row >>= λ matched. if_matched matched (render template scope) later

  abbrev without_removed : E → Option Text → Outcome (Halt CardigannError) Text
  without_removed el none = ok (lib.scraper.text el)
  without_removed el (some remove) = compile_html_selector remove >>= λ compiled. ok (
      remaining_text (lib.scraper.id el) (map lib.scraper.id (select lib.scraper compiled el))
        (lib.scraper.text_nodes el))

  abbrev read_element : Field → Option E → Outcome (Halt CardigannError) Text
  read_element field none = ok []
  read_element field (some el) = of_attribute field.attribute
    where
      of_attribute : Option Text → Outcome (Halt CardigannError) Text
      of_attribute (some attr) = ok (or_empty (lib.scraper.attr attr el))
      of_attribute none = without_removed el field.remove

  unfoldable pub select_value : Field → Text → E → Outcome (Halt CardigannError) Text
  unfolding compile_html_selector select remaining_text
  select_value field sel row = compile_html_selector sel >>= λ compiled.
      read_element field (first (select lib.scraper compiled row))

  -- The value before the filters.
  abbrev of_selector : Field → E → Option Text → Outcome (Halt CardigannError) Text
  of_selector field row none = ok []
  of_selector field row (some sel) = select_value field sel row

  abbrev of_text : Field → E → Scope → Option Text → Outcome (Halt CardigannError) Text
  of_text field row scope none = of_selector field row field.selector
  of_text field row scope (some template) = render template scope

  abbrev of_case :
      Field → E → Scope → Option (List (Text × Text)) → Outcome (Halt CardigannError) Text
  of_case field row scope none = of_text field row scope field.text
  of_case field row scope (some cases) = case_value cases row scope

  unfoldable pub raw_value : Field → E → Scope → Outcome (Halt CardigannError) Text
  unfolding select_value case_value render
  raw_value field row scope = of_case field row scope field.case

  unfoldable pub filter_value :
      List FilterSpec → FilterCtx I → Text → Outcome (Halt CardigannError) FilterOutcome
  unfolding parse_filter apply to_vec
  filter_value [] ctx v = ok (value v)
  filter_value (spec ∷ specs) ctx v =
      raising (parse_filter (regex_of lib.engines) spec.name (to_vec spec.args)) >>= λ filter.
      raising (apply lib.chrono lib.engines lib.unicode lib.debug filter v ctx)
      >>= on_outcome (λ v'. filter_value specs ctx v') (ok drop_row)

  unfoldable pub evaluate_field :
      Field → E → Scope → FilterCtx I → Outcome (Halt CardigannError) FilterOutcome
  unfolding raw_value filter_value
  evaluate_field field row scope ctx = raw_value field row scope >>= λ v.
      filter_value field.filters ctx v >>= λ outcome. ok (defaulted field.default outcome)

  -- The scope and the values of a row, or that the row is dropped.
  unfoldable pub evaluate_fields :
      List (Text × Field)
      → E
      → FilterCtx I
      → Scope
      → List (Text × Text)
      → Outcome (Halt CardigannError) (Option (Scope × List (Text × Text)))
  unfolding evaluate_field set_result put
  evaluate_fields [] row ctx scope values = ok (some (scope, values))
  evaluate_fields ((name, field) ∷ fields) row ctx scope values =
      evaluate_field field row scope ctx
      >>= on_outcome
          (λ raw. evaluate_fields fields row ctx (set_result name raw scope) (put name raw values))
          (ok none)
