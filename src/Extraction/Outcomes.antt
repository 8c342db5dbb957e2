-- ===== src/Extraction/Outcomes.antt =====
-- What `extract` of crates/oxidarr-cardigann/src/engine.rs returns, and how a row's scope and values go together.
use oxidarr.Common.{
  ◌≤◌, ◌≡◌, refl, sym, ap, subst, ◌∙◌, Bool, true, false, Option, none, some, List, [], ◌∷◌, Text,
  text_eq, length, if◌then◌else◌, arith, Bool-cases, inl, inr,
}
use oxidarr.Common.Outcome.{Outcome, ok, err, ◌>>=◌}
use oxidarr.Common.Halt.{Halt}
use oxidarr.Common.Ordered.{get, put, get-put}
use oxidarr.CategoryMap.{from_definition}
use oxidarr.Http.{Url}
use oxidarr.Model.{Definition, Field, declares_json_response}
use oxidarr.Template.{CardigannError, Scope, get_or_default, set_config, set_result}
use oxidarr.Filters.{FilterCtx, FilterOutcome, value, drop_row}
use oxidarr.Search.Build.{Urls}
use oxidarr.Template.Laws.{get_or_default-insert}
use oxidarr.Search.Query.{new_scope, set_configs}
use oxidarr.Selectors.{CompiledSelector, select}
use oxidarr.Extraction.{
  Libraries, or_empty, on_outcome, compile_html_selector, evaluate_field, evaluate_fields,
}
use oxidarr.Extraction.Release.{Release, Readers, build_release}
use oxidarr.Extraction.Rows.{skip, or_zero, with_row, extract_rows, extract}

-- The `.Result` variables of a scope are the values so far.
abbrev pub Agrees : Scope → List (Text × Text) → Type 0
Agrees scope values = (name : Text) → get_or_default name scope.result ≡ or_empty (get name values)

Agrees-put :
    (name raw : Text) (scope : Scope) (values : List (Text × Text))
    → Agrees scope values
    → Agrees (set_result name raw scope) (put name raw values)
unfolding set_result
Agrees-put name raw scope values h key =
    get_or_default-insert name raw scope.result key
    ∙ same (text_eq name key)
    ∙ ap or_empty (sym (get-put key name raw values))
  where
    same :
        (b : Bool)
        → (if b then raw else get_or_default key scope.result)
          ≡ or_empty (if b then some raw else get key values)
    same true = refl
    same false = h key

set_configs-result :
    (config : List (Text × Text)) (scope : Scope) → (set_configs config scope).result ≡ scope.result
unfolding set_configs set_config
set_configs-result [] scope = refl
set_configs-result ((k, v) ∷ config) scope = set_configs-result config (set_config k v scope)

-- What is said of the scope and the values of a row, if it has any.
abbrev OfRow :
    {X : Type 0}
    → (Scope → List (Text × Text) → Type 0)
    → Outcome X (Option (Scope × List (Text × Text)))
    → Type 0
OfRow P (err e) = Unit
OfRow P (ok none) = Unit
OfRow P (ok (some (scope, values))) = P scope values

OfRow-on_outcome :
    {X : Type 0} (P : Scope → List (Text × Text) → Type 0) (r : Outcome X FilterOutcome)
    (go : Text → Outcome X (Option (Scope × List (Text × Text))))
    → ((raw : Text) → OfRow P (go raw))
    → OfRow P (r >>= on_outcome go (ok none))
OfRow-on_outcome P (err e) go h = tt
OfRow-on_outcome P (ok drop_row) go h = tt
OfRow-on_outcome P (ok (value raw)) go h = h raw

starts : (config : List (Text × Text)) → Agrees (set_configs config new_scope) []
unfolding get_or_default get
starts config name = ap (get_or_default name) (set_configs-result config new_scope)

module _ {I D T L F B E C : Type 0} (lib : Libraries I D T L F B E C) (row : E)
    (ctx : FilterCtx I) where
  evaluate_fields-OfRow :
      (fields : List (Text × Field)) (scope : Scope) (values : List (Text × Text))
      → Agrees scope values
      → OfRow Agrees (evaluate_fields lib fields row ctx scope values)
  unfolding evaluate_fields
  evaluate_fields-OfRow [] scope values h = h
  evaluate_fields-OfRow ((name, field) ∷ fields) scope values h =
      OfRow-on_outcome Agrees (evaluate_field lib field row scope ctx) _ λ raw.
        evaluate_fields-OfRow fields (set_result name raw scope) (put name raw values)
          (Agrees-put name raw scope values h)

  -- After the fields of a row, `.Result.name` in its scope is the value that its release reads
  -- under `name`.
  pub evaluate_fields-Agrees :
      (fields : List (Text × Field)) (config : List (Text × Text)) (scope : Scope)
      (values : List (Text × Text))
      → evaluate_fields lib fields row ctx (set_configs config new_scope) []
        ≡ ok (some (scope, values))
      → Agrees scope values
  evaluate_fields-Agrees fields config scope values e =
      subst (OfRow Agrees) e
        (evaluate_fields-OfRow fields (set_configs config new_scope) [] (starts config))

module _ {I D T L F B E C N : Type 0} (lib : Libraries I D T L F B E C) (readers : Readers I N)
    (urls : Urls) (def : Definition) (start : Scope) (ctx : FilterCtx I) (base : Url) where
  -- The releases of rows, in their order: a row is dropped, or gives the release of its values.
  pub data Extracted : List E → List (Release I N) → Type 0 where
    no_rows : Extracted [] []
    dropped :
        (row : E) (rows : List E) (releases : List (Release I N))
        → evaluate_fields lib def.search.fields row ctx start [] ≡ ok none
        → Extracted rows releases
        → Extracted (row ∷ rows) releases
    emitted :
        (row : E) (rows : List E) (releases : List (Release I N)) (scope : Scope)
        (values : List (Text × Text))
        → evaluate_fields lib def.search.fields row ctx start [] ≡ ok (some (scope, values))
        → Extracted rows releases
        → Extracted (row ∷ rows) (
            build_release readers urls values (from_definition def.categorymappings) base
            ∷ releases)

  -- At most one release for each row.
  Extracted-length :
      (rows : List E) (releases : List (Release I N))
      → Extracted rows releases
      → length releases ≤ length rows
  Extracted-length _ _ no_rows = omega arith
  Extracted-length _ _ (dropped row rows releases e h) =
      omega (arith, Extracted-length rows releases h)
  Extracted-length _ _ (emitted row rows releases scope values e h) =
      omega (arith, Extracted-length rows releases h)

  abbrev OfReleases : List E → Outcome (Halt CardigannError) (List (Release I N)) → Type 0
  OfReleases rows (ok releases) = Extracted rows releases
  OfReleases rows (err e) = Unit

  row-OfReleases :
      (row : E) (rows : List E)
      (r : Outcome (Halt CardigannError) (Option (Scope × List (Text × Text))))
      (later : Outcome (Halt CardigannError) (List (Release I N)))
      → evaluate_fields lib def.search.fields row ctx start [] ≡ r
      → OfReleases rows later
      → OfReleases (row ∷ rows) (
          r >>= λ found. later >>= λ releases.
          ok (with_row lib readers urls (from_definition def.categorymappings) base found releases))
  row-OfReleases row rows (err x) later e h = tt
  row-OfReleases row rows (ok found) (err x) e h = tt
  row-OfReleases row rows (ok none) (ok releases) e h = dropped row rows releases e h
  row-OfReleases row rows (ok (some (scope, values))) (ok releases) e h =
      emitted row rows releases scope values e h

  extract_rows-OfReleases :
      (rows : List E) → OfReleases rows (extract_rows lib readers urls def start ctx base rows)
  unfolding extract_rows
  extract_rows-OfReleases [] = no_rows
  extract_rows-OfReleases (row ∷ rows) =
      row-OfReleases row rows (evaluate_fields lib def.search.fields row ctx start [])
        (extract_rows lib readers urls def start ctx base rows) refl (extract_rows-OfReleases rows)

-- The rows that `extract` goes through, for a compiled selector.
abbrev pub rows_of :
    {I D T L F B E C : Type 0}
    → Libraries I D T L F B E C
    → Definition
    → Text
    → CompiledSelector C
    → List E
rows_of lib def body compiled =
    skip (or_zero def.search.rows.after)
      (select lib.scraper compiled (lib.scraper.parse_document body))

module _ {I D T L F B E C N : Type 0} (lib : Libraries I D T L F B E C) (readers : Readers I N)
    (urls : Urls) (def : Definition) (body : Text) (config : List (Text × Text)) (ctx : FilterCtx I)
    (base : Url) where
  abbrev start : Scope
  start = set_configs config new_scope

  -- What `extract` gives: an HTML definition, a selector, and the releases of its rows.
  abbrev pub IsExtraction : List (Release I N) → Type 0
  IsExtraction releases =
      (declares_json_response def ≡ false)
      × (compiled : CompiledSelector C) × (compile_html_selector lib def.search.rows.selector
          ≡ ok compiled)
      × Extracted lib readers urls def start ctx base (rows_of lib def body compiled) releases

  -- Releases that are returned come from a definition without a JSON response: each row that the
  -- rows selector selects, behind the first `after` ones, is dropped, or gives the release of the
  -- values of its fields, in the order of the rows.
  pub extract-IsExtraction :
      (releases : List (Release I N))
      → extract lib readers urls def body config ctx base ≡ ok releases
      → IsExtraction releases
  unfolding extract
  extract-IsExtraction releases e = elim (Bool-cases (declares_json_response def)) [
    | inl j ↦ refused (rw j at e)
    | inr j ↦ go j (compile_html_selector lib def.search.rows.selector) refl (rw j at e)
  ]
    where
      refused : {X : Type 0} {x : X} → err x ≡ ok releases → IsExtraction releases
      refused h = cc

      go :
          declares_json_response def ≡ false
          → (r : Outcome (Halt CardigannError) (CompiledSelector C))
          → compile_html_selector lib def.search.rows.selector ≡ r
          → (r >>= λ compiled.
              extract_rows lib readers urls def start ctx base (rows_of lib def body compiled))
            ≡ ok releases
          → IsExtraction releases
      go j (err x) h k = cc
      go j (ok compiled) h k = (
        j,
        compiled,
        h,
        subst (OfReleases lib readers urls def start ctx base (rows_of lib def body compiled)) k (
            extract_rows-OfReleases lib readers urls def start ctx base
              (rows_of lib def body compiled)),
      )
