-- ===== src/Examples/Searches.antt =====
-- The theorems on the requests of a search, at a concrete definition.
use oxidarr.Common.{
  ℕ, text_eq, if◌then◌else◌, ap, subst, ◌≢◌, ◌≡◌, ◌↔◌, refl, true, false, none, some, List, [], ◌∷◌,
  ◌++◌, map, Text, codes, Memᴰ, is_whitespace,
}
use oxidarr.Common.Outcome.{Outcome, ok, err}
use oxidarr.Http.{Url, Method, Body, HttpRequest}
use oxidarr.Model.{Setting, SearchPath, Search, Definition}
use oxidarr.Template.{Regex, lookup}
use oxidarr.Template.Tokens.{tokenize}
use oxidarr.Search.Query.{SearchQuery, Settings, scope_for}
use oxidarr.Search.Settings as Settings
use oxidarr.Search.Settings.{declared, config_value}
use oxidarr.Common.Ordered.{get}
use oxidarr.Search.Paths.{searched_paths, mapped_categories, effective_paths}
use oxidarr.Search.Session.{Site, execute_and_check, execute_with_reauth, search_inner}
use oxidarr.Search.Session.Sends as Sends
use oxidarr.Search.Session.Sends.{Modest}
use oxidarr.Search.Session.Recovery as Recovery
use oxidarr.Search.Session.Recovery.{IsAccepted, IsWelcoming}
use oxidarr.Search.Inputs.{LoginError, rejected, login, request_build}
use oxidarr.Search.Build.{Urls, base_url, build_search_requests}
use oxidarr.Search.Laws as Laws
use oxidarr.Search.Laws.{Serves}
use oxidarr.Search.Requests as Requests
use oxidarr.Search.Carried.{Pairwise}
use oxidarr.Search.Requests.{Answers}

abbrev regex : Regex Text
regex = record { compile = ok; replace_all = λ p s r. ok r }

abbrev encoded : List (Text × Text) → Text
encoded [] = []
encoded ((k, v) ∷ []) = k ++ codes "=" ++ v
encoded ((k, v) ∷ kv ∷ pairs) = k ++ codes "=" ++ v ++ codes "&" ++ encoded (kv ∷ pairs)

-- A URL is its text, and a query follows a `?`.
abbrev pub urls : Urls
urls = record {
  parse_url = ok;
  join_url = λ base path. ok (base ++ path);
  extend_pairs = λ pairs url. url ++ codes "?" ++ encoded pairs;
  query = λ url. none;
  set_query = λ query url. url ++ codes "?" ++ query;
  parse_form = λ s. (codes "cat", s) ∷ [];
}

abbrev sort : Setting
sort = record {
  name = codes "sort";
  kind = codes "select";
  label = codes "Sort";
  default = some (codes "created");
  options = [];
}

abbrev browse : SearchPath
browse = record {
  path = codes "browse";
  method = none;
  inputs = (codes "sort", codes "{{ .Config.sort }}") ∷ [];
  categories = [];
  response = none;
  followredirect = none;
}

abbrev films : SearchPath
films = record {
  path = codes "films";
  method = some (codes "POST");
  inputs = [];
  categories = "7" ∷ [];
  response = none;
  followredirect = some false;
}

abbrev search : Search
search = record {
  paths = browse ∷ films ∷ [];
  path = none;
  inputs = (codes "q", codes "{{ .Keywords }}") ∷ (codes "sort", codes "added") ∷ [];
  headers = (codes "x-site", codes "example" ∷ []) ∷ (codes "x-none", []) ∷ [];
  rows = record { selector = codes "tr"; after = none };
  fields = [];
  allow_empty_inputs = false;
}

abbrev pub def : Definition
def = record {
  id = codes "example";
  name = codes "Example";
  links = codes "https://example.org" ∷ [];
  categorymappings = record { id = "7"; cat = "Movies"; desc = ""; default = false } ∷ [];
  settings = sort ∷ [];
  search = search;
  login = none;
}

abbrev query : SearchQuery
query = record {
  q = some (codes "dune");
  imdb_id = none;
  season = none;
  episode = some 4;
  categories = 2000 ∷ [];
}

abbrev settings : Settings
settings = (codes "sort", codes "seeders") ∷ []

abbrev debug : Text → Text
debug s = s

abbrev requests : List HttpRequest
requests =
    record {
      method = Method.get;
      url = codes "https://example.org/browse?q=dune&sort=seeders";
      headers = (codes "x-site", codes "example") ∷ [];
      body = none;
      follow_redirects = true;
    }
    ∷ record {
      method = Method.post;
      url = codes "https://example.org/films";
      headers = (codes "x-site", codes "example") ∷ [];
      body = some (Body.form ((codes "q", codes "dune") ∷ (codes "sort", codes "added") ∷ []));
      follow_redirects = false;
    }
    ∷ []

built_requests : build_search_requests urls regex debug def query settings ≡ ok requests
unfolding build_search_requests is_whitespace tokenize
built_requests = refl

lookup-scope_for_example :
    lookup (scope_for def query settings []) (codes ".Config." ++ codes "sort")
    ≡ config_value (get (codes "sort") settings) (declared (codes "sort") def.settings)
lookup-scope_for_example = Settings.lookup-scope_for def query settings [] (codes "sort")

mem-searched_paths_example :
    Memᴰ films (searched_paths def query)
    ↔ (Memᴰ films (effective_paths search) × Serves films (mapped_categories def query))
mem-searched_paths_example = Laws.mem-searched_paths def query films

build_search_requests-Pairwise_example :
    (base : Url) × (base_url urls regex debug def ≡ ok base)
    × Pairwise
        (Answers urls regex debug def
          (scope_for def query settings (map codes (mapped_categories def query)))
          base)
        (searched_paths def query)
        requests
build_search_requests-Pairwise_example =
    Requests.build_search_requests-Pairwise urls regex debug def query settings requests
      built_requests

-- No link at all.
abbrev unlinked : Definition
unlinked = record def { links = [] }

failed_requests :
    build_search_requests urls regex debug unlinked query settings
    ≡ err (request_build (codes "example") (codes "definition declares no links"))
unfolding build_search_requests
failed_requests = refl

-- A tracker with the states 0, of no session, and 1, which a login leads to.
abbrev has_session : Text → Outcome LoginError (Unit {0})
has_session body = if text_eq body (1 ∷ []) then ok tt else err (rejected (codes "log in"))

abbrev site : Site ℕ Text
site = record {
  client =
      λ req s. (ok (record { status = 200; headers = []; body = s ∷ []; final_url = req.url }), s);
  has_login = true;
  authenticate = λ s. (ok tt, 1);
  check_error_rules = has_session;
  decode_body = λ b. b;
  extract = λ body url. ok (url ∷ []);
}

recovered_search : search_inner site urls regex debug def query settings 0 ≡ (
  ok (
      codes "https://example.org/browse?q=dune&sort=seeders"
      ∷ codes "https://example.org/films"
      ∷ []),
  1,
)
unfolding search_inner is_whitespace tokenize
recovered_search = refl

execute_with_reauth-Modest_example :
    Modest site
      (record { method = Method.get; url = []; headers = []; body = none; follow_redirects = true })
      0
      1
unfolding execute_with_reauth
execute_with_reauth-Modest_example =
    Sends.execute_with_reauth-Modest site
      (record { method = Method.get; url = []; headers = []; body = none; follow_redirects = true })
      0

session_is_checked :
    (req : HttpRequest) (s t : ℕ)
    → site.authenticate s ≡ (ok tt, t)
    → IsAccepted (execute_and_check site req t).0
unfolding execute_and_check
session_is_checked req s t e =
    subst (λ u. IsAccepted (execute_and_check site req u).0) (ap (λ x. x.1) e) tt

abbrev welcoming : IsWelcoming site
welcoming = record { offers_login = refl; logs_in = λ s. (1, refl); lets_in = session_is_checked }

search_inner-accepted_example :
    (search_inner site urls regex debug def query settings 0).0
    ≢ err (login (rejected (codes "log in")))
search_inner-accepted_example =
    Recovery.search_inner-accepted site welcoming urls regex debug def query settings 0
      (codes "log in")
