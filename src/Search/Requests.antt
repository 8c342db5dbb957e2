-- ===== src/Search/Requests.antt =====
-- The requests of a search in crates/oxidarr-indexer/src/builder.rs: one for each path, of what shape, and the errors.
use oxidarr.Common.{
  ◌≡◌, refl, sym, ap, Bool, Option, none, some, List, [], ◌∷◌, map, Text, subst, codes, text_eq,
  true, false, if◌then◌else◌,
}
use oxidarr.Common.Outcome.{Outcome, ok, err, ◌>>=◌, >>=-eq-ok, map_err, map_all}
use oxidarr.Http.{Url, Method, Body, HttpRequest}
use oxidarr.Model.{Definition, SearchPath}
use oxidarr.Template.{Scope, Regex}
use oxidarr.Search.Query.{SearchQuery, Settings, scope_for}
use oxidarr.Search.Paths.{searched_paths, mapped_categories}
use oxidarr.Search.Inputs.{merged_inputs, render_part}
use oxidarr.Search.Carried.{
  ok_injective, Pairwise, each, fragment, query_pairs, posted_pairs, query_url, Renders, IsSent,
  given, given-Filled, placed, collect_inputs-Renders,
}
use oxidarr.Search.Build.{
  ascii_lower, Urls, method_of, or_true, first_values, place_inputs, base_url, collect_inputs,
  render_header, join_path, request_to, build_request, with_inputs, build_search_requests,
}

map_all-Pairwise :
    {E A B : Type 0} (R : A → B → Type 0) (f : A → Outcome E B)
    → ((a : A) (b : B) → f a ≡ ok b → R a b)
    → (xs : List A) (ys : List B) → map_all f xs ≡ ok ys
    → Pairwise R xs ys
map_all-Pairwise R f h [] [] e = tt
map_all-Pairwise R f h [] (b ∷ ys) e = cc
map_all-Pairwise R f h (a ∷ xs) ys e =
    let (b, fa, more) = >>=-eq-ok (f a) (λ y. map_all f xs >>= λ zs. ok (y ∷ zs)) e in
    let (cs, fxs, same) = >>=-eq-ok (map_all f xs) (λ zs. ok (b ∷ zs)) more in
    subst (Pairwise R (a ∷ xs)) (ok_injective same) (h a b fa, map_all-Pairwise R f h xs cs fxs)

map_err-eq-ok :
    {E F A : Type 0} (f : E → F) (r : Outcome E A) {a : A} → map_err f r ≡ ok a → r ≡ ok a
map_err-eq-ok f (ok b) h = ap ok (ok_injective h)
map_err-eq-ok f (err e) h = cc

IsSent-method_of : (m : Option Text) → IsSent (method_of m)
unfolding method_of
IsSent-method_of none = tt
IsSent-method_of (some m) = if_sent (text_eq (map ascii_lower m) (codes "post"))
  where
    if_sent : (b : Bool) → IsSent (if b then Method.post else Method.get)
    if_sent true = tt
    if_sent false = tt

module _ (urls : Urls) {P : Type 0} (regex : Regex P) (debug : Text → Text) (def : Definition) where
  -- How a request to `url` carries the rendered inputs: a GET in its query, pairs first, and a
  -- POST as a form to the URL itself.
  abbrev pub Carries : Method → Url → List (Text × Text) → HttpRequest → Type 0
  Carries Method.get url texts req =
      let allow = def.search.allow_empty_inputs in
      (req.body ≡ none)
      × (req.url ≡ query_url urls (each (query_pairs urls allow) texts) (each fragment texts) url)
  Carries Method.post url texts req =
      let allow = def.search.allow_empty_inputs in
      (req.body ≡ some (Body.form (each (posted_pairs urls allow) texts))) × (req.url ≡ url)
  Carries method url texts req = ⊥

  -- The request to a URL for a path: its method, redirects, headers and inputs.
  abbrev pub Asks : Scope → SearchPath → Url → HttpRequest → Type 0
  Asks scope path url req =
      (req.method ≡ method_of path.method)
      × (req.follow_redirects ≡ or_true path.followredirect)
      × Pairwise (Renders urls regex debug def scope) (first_values def.search.headers) req.headers
      × ((texts : List (Text × Text)) × Pairwise (Renders urls regex debug def scope)
            (merged_inputs def.search path) texts
          × Carries (method_of path.method) url texts req)

  -- The request for a path, to the URL that its rendered path is.
  abbrev pub Answers : Scope → Url → SearchPath → HttpRequest → Type 0
  Answers scope base path req =
      (rendered : Text) × (url : Url) × (render_part regex debug def scope path.path ≡ ok rendered)
      × (urls.join_url base rendered ≡ ok url)
      × Asks scope path url req

  module _ (scope : Scope) where
    header-Renders :
        (header out : Text × Text)
        → render_header urls regex debug def scope header ≡ ok out
        → Renders urls regex debug def scope header out
    unfolding render_header
    header-Renders (name, template) out h =
        let (rendered, r, same) =
          >>=-eq-ok (render_part regex debug def scope template) (λ t. ok (name, t)) h in
        subst (Renders urls regex debug def scope (name, template)) (ok_injective same) (refl, r)

    carried :
        (m : Method) (url : Url) (texts : List (Text × Text)) (follow : Bool)
        (headers : List (Text × Text))
        → IsSent m
        → Carries m url texts (
            with_inputs urls regex debug def scope m follow
              (place_inputs urls m url (given urls def.search.allow_empty_inputs m texts))
              headers)
    unfolding place_inputs
    carried Method.get url texts follow headers sent = (
      refl,
      placed urls (each (query_pairs urls def.search.allow_empty_inputs) texts)
          (each fragment texts) url (given-Filled urls def.search.allow_empty_inputs texts),
    )
    carried Method.post url texts follow headers sent = (refl, refl)
    carried Method.put url texts follow headers sent = sent
    carried Method.delete url texts follow headers sent = sent

    request_to-Asks :
        (path : SearchPath) (url : Url) (req : HttpRequest)
        → request_to urls regex debug def scope path url ≡ ok req
        → Asks scope path url req
    unfolding request_to
    request_to-Asks path url req h =
        let m = method_of path.method in
        let follow = or_true path.followredirect in
        let (inputs, i, h1) =
          >>=-eq-ok
            (collect_inputs urls regex debug def scope m (merged_inputs def.search path) ([], []))
            (λ inputs.
              map_all (render_header urls regex debug def scope) (first_values def.search.headers)
              >>= λ headers. ok (
                  with_inputs urls regex debug def scope m follow (place_inputs urls m url inputs)
                    headers))
            h in
        let (headers, k, same) =
          >>=-eq-ok
            (map_all (render_header urls regex debug def scope) (first_values def.search.headers))
            (λ headers. ok (
              with_inputs urls regex debug def scope m follow (place_inputs urls m url inputs)
                headers))
            h1 in
        let (texts, all, eq) =
          collect_inputs-Renders urls regex debug def scope m (IsSent-method_of path.method)
            (merged_inputs def.search path) ([], []) inputs i in
        subst (Asks scope path url) (ok_injective same) (
          refl,
          refl,
          map_all-Pairwise (Renders urls regex debug def scope)
              (render_header urls regex debug def scope) header-Renders
              (first_values def.search.headers) headers k,
          (
            texts,
            all,
            subst
                (λ i. Carries m url texts (
                  with_inputs urls regex debug def scope m follow (place_inputs urls m url i)
                    headers))
                (sym eq) (carried m url texts follow headers (IsSent-method_of path.method)),
          ),
        )

    build_request-Answers :
        (base : Url) (path : SearchPath) (req : HttpRequest)
        → build_request urls regex debug def scope base path ≡ ok req
        → Answers scope base path req
    unfolding build_request join_path
    build_request-Answers base path req h =
        let (rendered, r, h1) =
          >>=-eq-ok (render_part regex debug def scope path.path)
            (λ t.
              join_path urls regex debug def scope base t
              >>= request_to urls regex debug def scope path)
            h in
        let (url, u, h2) =
          >>=-eq-ok (join_path urls regex debug def scope base rendered)
            (request_to urls regex debug def scope path) h1 in
        (
          rendered,
          url,
          r,
          map_err-eq-ok _ (urls.join_url base rendered) u,
          request_to-Asks path url req h2,
        )

  -- A search builds one request for each path that it goes to, in their order, to the URL of its
  -- rendered path: a GET that has the rendered inputs in its query, or a POST of them as a form. It
  -- follows redirects unless the path says no, and it has those headers of the definition that
  -- have a value, rendered.
  pub build_search_requests-Pairwise :
      (query : SearchQuery) (settings : Settings) (reqs : List HttpRequest)
      → build_search_requests urls regex debug def query settings ≡ ok reqs
      → (base : Url) × (base_url urls regex debug def ≡ ok base)
        × Pairwise
            (Answers (scope_for def query settings (map codes (mapped_categories def query))) base)
            (searched_paths def query)
            reqs
  unfolding build_search_requests
  build_search_requests-Pairwise query settings reqs h =
      let scope = scope_for def query settings (map codes (mapped_categories def query)) in
      let (base, b, h1) =
        >>=-eq-ok (base_url urls regex debug def)
          (λ base.
            map_all (build_request urls regex debug def scope base) (searched_paths def query))
          h in
      (
        base,
        b,
        map_all-Pairwise (Answers scope base) (build_request urls regex debug def scope base)
            (build_request-Answers scope base) (searched_paths def query) reqs h1,
      )
