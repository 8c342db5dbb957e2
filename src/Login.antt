-- ===== src/Login.antt =====
-- crates/oxidarr-indexer/src/login.rs: what a login reads from pages.
pub mod Form
pub mod Flow
pub mod Sends
pub mod Passes
pub mod Pairs
use oxidarr.Common.{Option, none, some, List, [], ◌∷◌, ◌++◌, Text, codes, if◌then◌else◌}
use oxidarr.Common.Outcome.{Outcome, ok, err, ◌>>=◌}
use oxidarr.Common.Halt.{Halt, raised, map_halt}
use oxidarr.Common.Str.{trim}
use oxidarr.Model.{ErrorRule, Field}
use oxidarr.Template.{CardigannError}
use oxidarr.Template.Render.{show_error}
use oxidarr.Filters.{FilterCtx, FilterOutcome, value, drop_row}
use oxidarr.Search.Inputs.{LoginError, rejected, definition}
use oxidarr.Selectors.{CompiledSelector, select, is_json_path}
use oxidarr.Selectors.Compile.{compile}
use oxidarr.Extraction.{Libraries, or_empty, first, or_default, filter_value}

abbrev pub Result : Type 0 → Type 0
Result A = Outcome (Halt LoginError) A

module _ {I D T L F B E C : Type 0} (lib : Libraries I D T L F B E C) where
  -- An error of the engine as one of the definition.
  unfoldable pub engine_problem : CardigannError → LoginError
  unfolding show_error
  engine_problem e = definition (show_error lib.debug e)

  abbrev html_only : Text → CompiledSelector C → Result (CompiledSelector C)
  html_only raw compiled =
      if is_json_path compiled
      then err (
          raised (
            definition (
              codes "selector "
              ++ lib.debug raw
              ++ codes " is a JSON field path; login checks only understand HTML")))
      else ok compiled

  unfoldable pub compile_html_selector : Text → Result (CompiledSelector C)
  unfolding compile engine_problem
  compile_html_selector raw =
      map_halt engine_problem (compile lib.scraper lib.unicode raw) >>= html_only raw

  -- The first element under another that a selector selects.
  unfoldable pub first_selected : Text → E → Result (Option E)
  unfolding compile_html_selector select
  first_selected raw root =
      compile_html_selector raw >>= λ compiled. ok (first (select lib.scraper compiled root))

  abbrev text_of : Option E → Text
  text_of none = []
  text_of (some el) = lib.scraper.text el

  abbrev message_of : E → Option Text → Option Text → Result Text
  unfolding first_selected trim
  message_of matched (some text) selector = ok text
  message_of matched none (some sel) =
      first_selected sel matched >>= λ found. ok (trim (text_of found))
  message_of matched none none = ok (trim (lib.scraper.text matched))

  unfoldable pub error_message : Option Field → E → Result Text
  unfolding first_selected trim
  error_message none matched = message_of matched none none
  error_message (some field) matched = message_of matched field.text field.selector

  abbrev pub rule_matched : Option Field → Option E → Result (Unit {0}) → Result (Unit {0})
  unfolding error_message
  rule_matched message none later = later
  rule_matched message (some matched) later =
      error_message message matched >>= λ text. err (raised (rejected text))

  unfoldable pub check_rules : List ErrorRule → E → Result (Unit {0})
  unfolding first_selected error_message
  check_rules [] root = ok tt
  check_rules (rule ∷ rules) root =
      let later = check_rules rules root in
      first_selected rule.selector root >>= λ found. rule_matched rule.message found later

  unfoldable pub check_error_rules : List ErrorRule → Text → Result (Unit {0})
  unfolding check_rules
  check_error_rules rules body = check_rules rules (lib.scraper.parse_document body)

  abbrev read_found : Option Text → Option E → Text
  read_found attribute none = []
  read_found none (some el) = lib.scraper.text el
  read_found (some attr) (some el) = or_empty (lib.scraper.attr attr el)

  abbrev raw_value : Field → E → Option Text → Option Text → Result Text
  unfolding first_selected
  raw_value field root (some text) selector = ok text
  raw_value field root none (some sel) =
      first_selected sel root >>= λ found. ok (read_found field.attribute found)
  raw_value field root none none = ok []

  abbrev kept_value : Text → Option Text → FilterOutcome → Result Text
  kept_value name default (value v) = ok (or_default default v)
  kept_value name default drop_row = err (
      raised (
        definition (
          codes "selectorinputs field "
          ++ lib.debug name
          ++ codes "'s filter chain dropped it; a login field cannot be dropped")))

  unfoldable pub evaluate_login_field : Text → Field → E → FilterCtx I → Result Text
  unfolding first_selected filter_value engine_problem
  evaluate_login_field name field root ctx = raw_value field root field.text field.selector >>= λ v.
      map_halt engine_problem (filter_value lib field.filters ctx v)
      >>= kept_value name field.default
