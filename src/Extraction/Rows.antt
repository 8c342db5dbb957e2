-- ===== src/Extraction/Rows.antt =====
-- `extract` of crates/oxidarr-cardigann/src/engine.rs, and how a row's scope and values go together.
use oxidarr.Common.{ℕ, zero, suc, Option, none, some, List, [], ◌∷◌, Text, codes, if◌then◌else◌}
use oxidarr.Common.Outcome.{Outcome, ok, err, ◌>>=◌}
use oxidarr.Common.Halt.{Halt, raised}
use oxidarr.CategoryMap.{CategoryMap, from_definition}
use oxidarr.Http.{Url}
use oxidarr.Model.{Definition, declares_json_response}
use oxidarr.Template.{CardigannError, Scope}
use oxidarr.Filters.{FilterCtx}
use oxidarr.Search.Build.{Urls}
use oxidarr.Search.Query.{new_scope, set_configs}
use oxidarr.Selectors.{select}
use oxidarr.Extraction.{Libraries, compile_html_selector, evaluate_fields}
use oxidarr.Extraction.Release.{Release, Readers, build_release}

unfoldable pub skip : {A : Type 0} → ℕ → List A → List A
skip zero xs = xs
skip (suc n) [] = []
skip (suc n) (x ∷ xs) = skip n xs

abbrev pub or_zero : Option ℕ → ℕ
or_zero none = 0
or_zero (some n) = n

abbrev json_response : Text
json_response =
    codes "definition declares a JSON search response; the HTML extraction engine cannot read it"

module _ {I D T L F B E C N : Type 0} (lib : Libraries I D T L F B E C) (readers : Readers I N)
    (urls : Urls) where
  abbrev pub with_row :
      CategoryMap
      → Url
      → Option (Scope × List (Text × Text))
      → List (Release I N)
      → List (Release I N)
  with_row category_map base none releases = releases
  with_row category_map base (some (scope, values)) releases =
      build_release readers urls values category_map base ∷ releases

  unfoldable pub extract_rows :
      Definition
      → Scope
      → FilterCtx I
      → Url
      → List E
      → Outcome (Halt CardigannError) (List (Release I N))
  unfolding evaluate_fields build_release from_definition
  extract_rows def scope ctx base [] = ok []
  extract_rows def scope ctx base (row ∷ rows) =
      let later = extract_rows def scope ctx base rows in
      evaluate_fields lib def.search.fields row ctx scope [] >>= λ found.
      later >>= λ releases. ok (with_row (from_definition def.categorymappings) base found releases)

  unfoldable pub extract :
      Definition
      → Text
      → List (Text × Text)
      → FilterCtx I
      → Url
      → Outcome (Halt CardigannError) (List (Release I N))
  unfolding extract_rows compile_html_selector select skip set_configs declares_json_response
  extract def body config ctx base =
      if declares_json_response def
      then err (raised (CardigannError.definition json_response))
      else (compile_html_selector lib def.search.rows.selector >>= λ compiled.
          extract_rows def (set_configs config new_scope) ctx base (
            skip (or_zero def.search.rows.after)
              (select lib.scraper compiled (lib.scraper.parse_document body))))
