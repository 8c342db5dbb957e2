-- ===== src/Login/Form.antt =====
-- The inputs of a login form in crates/oxidarr-indexer/src/login.rs.
use oxidarr.Common.{
  Bool, true, false, Option, none, some, List, [], ◌∷◌, ◌++◌, Text, codes, text_eq, if◌then◌else◌,
}
use oxidarr.Common.Outcome.{ok, err, ◌>>=◌, map_err}
use oxidarr.Common.Halt.{raised, raising}
use oxidarr.Http.{Url}
use oxidarr.Model.{Login, Field}
use oxidarr.Template.{Scope}
use oxidarr.Template.Render.{render_text}
use oxidarr.Filters.{FilterCtx, regex_of}
use oxidarr.Search.Build.{Urls}
use oxidarr.Search.Inputs.{definition}
use oxidarr.Selectors.{select}
use oxidarr.Extraction.{Libraries, or_empty}
use oxidarr.Login.{
  Result, engine_problem, compile_html_selector, first_selected, evaluate_login_field,
}

-- An entry with the name keeps its place.
unfoldable pub upsert : Text → Text → List (Text × Text) → List (Text × Text)
upsert name v [] = (name, v) ∷ []
upsert name v ((k, w) ∷ pairs) =
    let later = upsert name v pairs in if text_eq k name then (k, v) ∷ pairs else (k, w) ∷ later

unfoldable pub upsert_all : List (Text × Text) → List (Text × Text) → List (Text × Text)
unfolding upsert
upsert_all [] pairs = pairs
upsert_all ((name, v) ∷ overlay) pairs = upsert_all overlay (upsert name v pairs)

abbrev pub or_text : Text → Option Text → Text
or_text text none = text
or_text text (some s) = s

module _ {I D T L F B E C : Type 0} (lib : Libraries I D T L F B E C) where
  unfoldable pub render : Text → Scope → Result Text
  unfolding render_text engine_problem
  render template scope =
      raising
        (map_err (engine_problem lib) (render_text (regex_of lib.engines) lib.debug template scope))

  -- The named inputs of the form.
  unfoldable pub form_inputs : List E → List (Text × Text)
  form_inputs [] = []
  form_inputs (input ∷ inputs) =
      of_name (lib.scraper.attr (codes "name") input) (form_inputs inputs)
    where
      of_name : Option Text → List (Text × Text) → List (Text × Text)
      of_name none rest = rest
      of_name (some name) rest = (name, or_empty (lib.scraper.attr (codes "value") input)) ∷ rest

  unfoldable pub scraped_inputs :
      List (Text × Field) → E → FilterCtx I → Result (List (Text × Text))
  unfolding evaluate_login_field
  scraped_inputs [] root ctx = ok []
  scraped_inputs ((name, field) ∷ fields) root ctx =
      evaluate_login_field lib name field root ctx >>= λ v.
      scraped_inputs fields root ctx >>= λ rest. ok ((name, v) ∷ rest)

  abbrev name_of : Text → Option E → Result Text
  name_of key none = err (
      raised (
        definition (
          codes "login.inputs selector "
          ++ lib.debug key
          ++ codes " matched no element (login.selectors is set)")))
  name_of key (some el) = of_attr (lib.scraper.attr (codes "name") el)
    where
      of_attr : Option Text → Result Text
      of_attr (some name) = ok name
      of_attr none = err (
          raised (
            definition
              (codes "element selected by " ++ lib.debug key ++ codes " has no name attribute")))

  unfoldable pub resolve_input_name : Bool → Text → E → Result Text
  unfolding first_selected
  resolve_input_name false key root = ok key
  resolve_input_name true key root = first_selected lib key root >>= name_of key

  unfoldable pub rendered_inputs :
      Bool → List (Text × Text) → Scope → E → Result (List (Text × Text))
  unfolding render resolve_input_name
  rendered_inputs selectors [] scope root = ok []
  rendered_inputs selectors ((key, template) ∷ inputs) scope root = render template scope >>= λ v.
      resolve_input_name selectors key root >>= λ name.
      rendered_inputs selectors inputs scope root >>= λ rest. ok ((name, v) ∷ rest)

  -- The pairs that are sent: those of the form, with the scraped and the rendered ones over them.
  unfoldable pub form_pairs : Login → E → E → FilterCtx I → Scope → Result (List (Text × Text))
  unfolding compile_html_selector select form_inputs scraped_inputs rendered_inputs upsert_all
  form_pairs login root form ctx scope =
      compile_html_selector lib (codes "input[name]") >>= λ inputs.
      scraped_inputs login.selectorinputs root ctx >>= λ scraped.
      rendered_inputs login.selectors login.inputs scope root >>= λ rendered. ok (
        upsert_all rendered
          (upsert_all scraped (upsert_all (form_inputs (select lib.scraper inputs form)) [])))

  unfoldable pub submit_url : Urls → Login → E → Url → Result Url
  submit_url urls login form final_url =
      let path = or_text (or_empty (lib.scraper.attr (codes "action") form)) login.submitpath in
      map_err
        (λ e.
          raised
            (definition (codes "invalid form submit path " ++ lib.debug path ++ codes ": " ++ e)))
        (urls.join_url final_url path)

  abbrev found_form : Text → Option E → Result E
  found_form raw (some form) = ok form
  found_form raw none = err (
      raised (
        definition (codes "no form found on the login page using form selector " ++ lib.debug raw)))

  -- What the login page gives: the pairs, and where they go.
  unfoldable pub read_form :
      Urls → Login → Text → Url → FilterCtx I → Scope → Result (List (Text × Text) × Url)
  unfolding first_selected form_pairs submit_url
  read_form urls login body final_url ctx scope =
      let root = lib.scraper.parse_document body in
      let raw = or_text (codes "form") login.form in
      first_selected lib raw root >>= found_form raw >>= λ form.
      form_pairs login root form ctx scope >>= λ pairs.
      submit_url urls login form final_url >>= λ url. ok (pairs, url)
