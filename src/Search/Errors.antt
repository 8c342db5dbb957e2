-- ===== src/Search/Errors.antt =====
-- The errors of building requests in crates/oxidarr-indexer/src/builder.rs.
use oxidarr.Common.{◌≡◌, refl, Option, none, some, List, [], ◌∷◌, map, codes, Text}
use oxidarr.Common.Outcome.{Outcome, ok, err, ◌>>=◌, map_err, map_all}
use oxidarr.Http.{Url, Method}
use oxidarr.Model.{Definition, SearchPath}
use oxidarr.Template.{Scope, Regex}
use oxidarr.Template.Render.{render_text}
use oxidarr.Search.Query.{SearchQuery, Settings, scope_for}
use oxidarr.Search.Paths.{searched_paths, mapped_categories}
use oxidarr.Search.Inputs.{
  IndexerError, request_build, parse, http, engine, login, request_build_error, merged_inputs,
  render_part, render_input, classify,
}
use oxidarr.Search.Build.{
  Urls, method_of, first_values, Inputs, collect_input, base_url, resolve_base_url, collect_inputs,
  render_header, join_path, request_to, build_request, build_search_requests,
}

-- The definition that an error is about.
abbrev pub names : IndexerError → Option Text
names (request_build definition reason) = some definition
names (parse reason) = none
names (http e) = none
names (engine e) = none
names (login e) = none

abbrev BlamesAt : {A : Type 0} → Text → Outcome IndexerError A → Type 0
BlamesAt id (ok a) = Unit
BlamesAt id (err e) = names e ≡ some id

-- An error, if there is one, names the definition with this id.
record Blames {A : Type 0} (id : Text) (r : Outcome IndexerError A) : Type 0 where
  at : BlamesAt id r

module _ (id : Text) where
  Blames-ok : {A : Type 0} (a : A) → Blames id (ok a)
  Blames-ok a = record { at = tt }

  Blames-bind :
      {A B : Type 0} (r : Outcome IndexerError A) (f : A → Outcome IndexerError B)
      → Blames id r
      → ((a : A) → Blames id (f a))
      → Blames id (r >>= f)
  Blames-bind (ok a) f h k = k a
  Blames-bind (err e) f h k = record { at = h.at }

  Blames-map_all :
      {A B : Type 0} (f : A → Outcome IndexerError B) (xs : List A)
      → ((a : A) → Blames id (f a))
      → Blames id (map_all f xs)
  Blames-map_all f [] h = Blames-ok []
  Blames-map_all f (x ∷ xs) h =
      Blames-bind (f x) _ (h x)
        λ y. Blames-bind (map_all f xs) _ (Blames-map_all f xs h) λ ys. Blames-ok (y ∷ ys)

Blames-map_err :
    {E A : Type 0} (def : Definition) (f : E → Text) (r : Outcome E A)
    → Blames def.id (map_err (λ e. request_build_error def (f e)) r)
Blames-map_err def f (ok a) = record { at = tt }
Blames-map_err def f (err e) = record { at = refl }

module _ (urls : Urls) {P : Type 0} (regex : Regex P) (debug : Text → Text) (def : Definition) where
  module _ (scope : Scope) where
    render_part-Blames :
        (template : Text) → Blames def.id (render_part regex debug def scope template)
    unfolding render_part
    render_part-Blames template = Blames-map_err def _ (render_text regex debug template scope)

    collect_inputs-Blames :
        (method : Method) (list : List (Text × Text)) (inputs : Inputs)
        → Blames def.id (collect_inputs urls regex debug def scope method list inputs)
    unfolding collect_inputs render_input
    collect_inputs-Blames method [] inputs = Blames-ok def.id inputs
    collect_inputs-Blames method ((key, template) ∷ rest) inputs =
        Blames-bind def.id _ _
          (Blames-bind def.id (render_part regex debug def scope template) _
            (render_part-Blames template)
            λ t. Blames-ok def.id (classify key def.search.allow_empty_inputs t))
          λ input. collect_inputs-Blames method rest (collect_input urls method input inputs)

    render_header-Blames :
        (header : Text × Text) → Blames def.id (render_header urls regex debug def scope header)
    unfolding render_header
    render_header-Blames (name, template) =
        Blames-bind def.id (render_part regex debug def scope template) _
          (render_part-Blames template) λ t. Blames-ok def.id (name, t)

    request_to-Blames :
        (path : SearchPath) (url : Url)
        → Blames def.id (request_to urls regex debug def scope path url)
    unfolding request_to
    request_to-Blames path url =
        Blames-bind def.id _ _
          (collect_inputs-Blames (method_of path.method) (merged_inputs def.search path) ([], []))
          λ inputs.
            Blames-bind def.id _ _
              (Blames-map_all def.id (render_header urls regex debug def scope)
                (first_values def.search.headers) render_header-Blames)
              λ headers. Blames-ok def.id _

    build_request-Blames :
        (base : Url) (path : SearchPath)
        → Blames def.id (build_request urls regex debug def scope base path)
    unfolding build_request join_path
    build_request-Blames base path =
        Blames-bind def.id (render_part regex debug def scope path.path) _
          (render_part-Blames path.path)
          λ t.
            Blames-bind def.id _ _ (Blames-map_err def _ (urls.join_url base t))
              (request_to-Blames path)

  build_search_requests-Blames :
      (query : SearchQuery) (settings : Settings)
      → Blames def.id (build_search_requests urls regex debug def query settings)
  unfolding build_search_requests base_url
  build_search_requests-Blames query settings =
      Blames-bind def.id _ _ (Blames-map_err def (λ e. e) (resolve_base_url urls regex debug def))
        λ base.
          Blames-map_all def.id
            (build_request urls regex debug def
              (scope_for def query settings (map codes (mapped_categories def query))) base)
            (searched_paths def query)
            (build_request-Blames
              (scope_for def query settings (map codes (mapped_categories def query))) base)

  named :
      {A : Type 0} (r : Outcome IndexerError A) {e : IndexerError}
      → Blames def.id r
      → r ≡ err e
      → names e ≡ some def.id
  named (ok a) b h = cc
  named (err e) b h = cc

  -- Every error of building a search's requests names the definition.
  pub build_search_requests-names :
      (query : SearchQuery) (settings : Settings) (e : IndexerError)
      → build_search_requests urls regex debug def query settings ≡ err e
      → names e ≡ some def.id
  build_search_requests-names query settings e h =
      named _ (build_search_requests-Blames query settings) h
