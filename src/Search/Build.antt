-- ===== src/Search/Build.antt =====
-- `build_request` and `build_search_requests` of crates/oxidarr-indexer/src/builder.rs. A method is `Post` or `Get`:
-- the arms for the other two are never taken.
use oxidarr.Common.{
  ℕ, ◌+◌, ◌==◌, Bool, true, false, ◌&&◌, not, leb, Option, none, some, List, [], ◌∷◌, ◌++◌, map,
  filter, Text, codes, text_eq, if◌then◌else◌,
}
use oxidarr.Common.Outcome.{Outcome, ok, err, ◌>>=◌, map_err, map_all}
use oxidarr.Http.{Url, Method, Body, HttpRequest}
use oxidarr.Model.{Definition, SearchPath}
use oxidarr.Template.{Scope, Regex, is_empty}
use oxidarr.Search.Query.{SearchQuery, Settings, scope_for}
use oxidarr.Search.Paths.{mapped_categories, searched_paths}
use oxidarr.Search.Inputs.{
  IndexerError, request_build_error, merged_inputs, RenderedInput, pair, raw, empty, render_part,
  render_input,
}

-- The `url` crate: `Url::parse` and `Url::join` with the texts of their errors,
-- `query_pairs_mut().extend_pairs`, `query`, `set_query`, and `form_urlencoded::parse`.
pub record Urls : Type 0 where
  pub parse_url : Text → Outcome Text Url
  pub join_url : Url → Text → Outcome Text Url
  pub extend_pairs : List (Text × Text) → Url → Url
  pub query : Url → Option Text
  pub set_query : Text → Url → Url
  pub parse_form : Text → List (Text × Text)

abbrev ends_with_slash : Text → Bool
ends_with_slash [] = false
ends_with_slash (c ∷ []) = c == 47
ends_with_slash (c ∷ d ∷ s) = ends_with_slash (d ∷ s)

abbrev normalised : Text → Text
normalised link = if ends_with_slash link then link else link ++ codes "/"

abbrev pub ascii_lower : ℕ → ℕ
ascii_lower c = if leb 65 c && leb c 90 then c + 32 else c

-- `m.eq_ignore_ascii_case("post")`
unfoldable pub method_of : Option Text → Method
method_of none = Method.get
method_of (some m) = if text_eq (map ascii_lower m) (codes "post") then Method.post else Method.get

abbrev pub or_true : Option Bool → Bool
or_true none = true
or_true (some b) = b

-- The first value of each name that has one.
abbrev pub first_values : List (Text × List Text) → List (Text × Text)
first_values [] = []
first_values ((name, []) ∷ rest) = first_values rest
first_values ((name, value ∷ values) ∷ rest) = (name, value) ∷ first_values rest

-- The pairs and the `$raw` fragments that the loop over the inputs has collected.
abbrev pub Inputs : Type 0
Inputs = List (Text × Text) × List Text

abbrev pub join_query : Text → List Text → Text
join_query query [] = query
join_query query (fragment ∷ rest) =
    join_query ((if is_empty query then query else query ++ codes "&") ++ fragment) rest

abbrev pub or_blank : Option Text → Text
or_blank none = []
or_blank (some s) = s

module _ (urls : Urls) where
  unfoldable pub collect_input : Method → RenderedInput → Inputs → Inputs
  collect_input method (pair k v) (pairs, raws) = (pairs ++ (k, v) ∷ [], raws)
  collect_input Method.get (raw s) (pairs, raws) = (pairs, raws ++ s ∷ [])
  collect_input Method.post (raw s) (pairs, raws) =
      (pairs ++ filter (λ kv. not (is_empty kv.0)) (urls.parse_form s), raws)
  collect_input method (raw s) (pairs, raws) = (pairs, raws)
  collect_input method empty (pairs, raws) = (pairs, raws)

  abbrev pub with_pairs : List (Text × Text) → Url → Url
  with_pairs [] url = url
  with_pairs (kv ∷ pairs) url = urls.extend_pairs (kv ∷ pairs) url

  abbrev pub with_raws : List Text → Url → Url
  with_raws [] url = url
  with_raws (s ∷ raws) url = urls.set_query (join_query (or_blank (urls.query url)) (s ∷ raws)) url

  -- The URL and the body that carry the inputs.
  unfoldable pub place_inputs : Method → Url → Inputs → Url × Option Body
  place_inputs Method.get url (pairs, raws) = (with_raws raws (with_pairs pairs url), none)
  place_inputs Method.post url (pairs, raws) = (url, some (Body.form pairs))
  place_inputs method url inputs = (url, none)

  module _ {P : Type 0} (regex : Regex P) (debug : Text → Text) (def : Definition) where
    unfoldable pub resolve_base_url : Outcome Text Url
    resolve_base_url = of_links def.links
      where
        of_links : List Text → Outcome Text Url
        of_links [] = err (codes "definition declares no links")
        of_links (link ∷ links) =
            map_err (λ e. codes "invalid base link " ++ debug link ++ codes ": " ++ e)
              (urls.parse_url (normalised link))

    unfoldable pub base_url : Outcome IndexerError Url
    unfolding resolve_base_url
    base_url = map_err (request_build_error def) resolve_base_url

    module _ (scope : Scope) where
      unfoldable pub collect_inputs :
          Method → List (Text × Text) → Inputs → Outcome IndexerError Inputs
      unfolding render_input collect_input
      collect_inputs method [] inputs = ok inputs
      collect_inputs method ((key, template) ∷ rest) inputs =
          render_input regex debug def scope key template def.search.allow_empty_inputs
          >>= λ rendered. collect_inputs method rest (collect_input method rendered inputs)

      unfoldable pub render_header : Text × Text → Outcome IndexerError (Text × Text)
      unfolding render_part
      render_header (name, template) =
          render_part regex debug def scope template >>= λ rendered. ok (name, rendered)

      abbrev pub with_inputs : Method → Bool → Url × Option Body → List (Text × Text) → HttpRequest
      with_inputs method follow_redirects (url, body) headers = record {
        method = method;
        url = url;
        headers = headers;
        body = body;
        follow_redirects = follow_redirects;
      }

      -- `base.join`, with its error as one of building the request.
      unfoldable pub join_path : Url → Text → Outcome IndexerError Url
      join_path base rendered_path =
          map_err
            (λ e.
              request_build_error def
                (codes "invalid path " ++ debug rendered_path ++ codes ": " ++ e))
            (urls.join_url base rendered_path)

      -- The rest of `build_request`, from the joined URL on.
      unfoldable pub request_to : SearchPath → Url → Outcome IndexerError HttpRequest
      unfolding method_of merged_inputs collect_inputs place_inputs render_header
      request_to path url =
          collect_inputs (method_of path.method) (merged_inputs def.search path) ([], [])
          >>= λ inputs. map_all render_header (first_values def.search.headers) >>= λ headers. ok (
              with_inputs (method_of path.method) (or_true path.followredirect)
                (place_inputs (method_of path.method) url inputs) headers)

      unfoldable pub build_request : Url → SearchPath → Outcome IndexerError HttpRequest
      unfolding render_part join_path request_to
      build_request base path = render_part regex debug def scope path.path >>= λ rendered_path.
          join_path base rendered_path >>= request_to path

    unfoldable pub build_search_requests :
        SearchQuery → Settings → Outcome IndexerError (List HttpRequest)
    unfolding scope_for mapped_categories base_url build_request searched_paths
    build_search_requests query settings = base_url >>= λ base.
        map_all
          (build_request (scope_for def query settings (map codes (mapped_categories def query)))
            base)
          (searched_paths def query)
