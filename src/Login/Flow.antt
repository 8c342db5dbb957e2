-- ===== src/Login/Flow.antt =====
-- The login methods of crates/oxidarr-indexer/src/login.rs, over a client.
use oxidarr.Common.{
  Bool, true, false, not, Option, none, some, List, [], ◌∷◌, ◌++◌, map, Text, codes, text_eq,
  if◌then◌else◌,
}
use oxidarr.Common.Outcome.{Outcome, ok, err, ◌>>=◌ as ◌>>?◌, map_err, map_all}
use oxidarr.Common.Act.{Act, pure, fail, lift, ◌>>=◌}
use oxidarr.Common.Halt.{Halt, raised}
use oxidarr.Common.Ordered.{get}
use oxidarr.Common.Split.{join}
use oxidarr.Common.Str.{trim}
use oxidarr.Common.Utf8.{from_utf8_lossy}
use oxidarr.Http.{Url, Method, Body, HttpRequest, HttpResponse, HttpError, HttpClient, is_success}
use oxidarr.Model.{Definition, Login, LoginTest}
use oxidarr.Template.{Scope, is_empty}
use oxidarr.Filters.{regex_of}
use oxidarr.Search.Build.{Urls, resolve_base_url, first_values, ascii_lower}
use oxidarr.Search.Inputs.{LoginError, rejected, needs_captcha, definition}
use oxidarr.Search.Inputs as Inputs
use oxidarr.Search.Query.{SearchQuery, Settings, or_default, resolved, scope_for}
use oxidarr.Selectors.{select}
use oxidarr.Extraction.{Libraries}
use oxidarr.Login.{Result, compile_html_selector, check_error_rules}
use oxidarr.Login.Form.{render, read_form}

-- `SearchQuery::default()`
abbrev no_query : SearchQuery
no_query = record { q = none; imdb_id = none; season = none; episode = none; categories = [] }

-- `response.text()`
unfoldable pub response_text : HttpResponse → Text
unfolding from_utf8_lossy
response_text resp = from_utf8_lossy resp.body

unfoldable pub login_cookie_header : Login → List (Text × Text)
unfolding join
login_cookie_header login =
    if is_empty login.cookies then [] else (codes "Cookie", join (codes "; ") login.cookies) ∷ []

-- How a login method is spelled.
unfoldable pub is_method : Text → Text → Bool
is_method name m = text_eq (map ascii_lower m) name

abbrev pub get_request : Url → List (Text × Text) → HttpRequest
get_request url headers = record {
  method = Method.get;
  url = url;
  headers = headers;
  body = none;
  follow_redirects = true;
}

module _ {I D T L F B E C R : Type 0} (lib : Libraries I D T L F B E C) (urls : Urls)
    (client : HttpClient R) where
  abbrev Step : Type 0 → Type 0
  Step A = Act R (Halt LoginError) A

  abbrev pub executed : Outcome HttpError HttpResponse × R → Result HttpResponse × R
  executed (ok resp, s) = (ok resp, s)
  executed (err e, s) = (err (raised (Inputs.LoginError.http e)), s)

  unfoldable pub execute : HttpRequest → Step HttpResponse
  execute req s = executed (client req s)

  -- `base.join` with the error of a login.
  unfoldable pub join_path : Text → Url → Text → Result Url
  join_path what base path =
      map_err
        (λ e.
          raised (
            definition
              (codes "invalid " ++ what ++ codes " " ++ lib.debug path ++ codes ": " ++ e)))
        (urls.join_url base path)

  abbrev pub check_session : LoginTest → HttpResponse → Option Text → Result Bool
  check_session test resp none = ok (is_success resp)
  check_session test resp (some sel) = compile_html_selector lib sel >>? λ compiled. ok (
      not
        (is_empty (select lib.scraper compiled (lib.scraper.parse_document (response_text resp)))))

  unfoldable pub verify_login : Url → LoginTest → Step Bool
  unfolding join_path execute compile_html_selector select response_text
  verify_login base test = lift (join_path (codes "login test path") base test.path) >>= λ url.
      execute (get_request url []) >>= λ resp. lift (check_session test resp test.selector)

  abbrev pub verified : Bool → Step (Unit {0})
  verified true = pure tt
  verified false = fail (raised (rejected (codes "login test failed")))

  unfoldable pub verify_test : Url → Option LoginTest → Step (Unit {0})
  unfolding verify_login
  verify_test base none = pure tt
  verify_test base (some test) = verify_login base test >>= verified

  module _ (def : Definition) (login : Login) (settings : Settings) where
    unfoldable pub base_url : Result Url
    unfolding resolve_base_url
    base_url =
        map_err
          (λ reason. raised (definition (codes "definition " ++ def.id ++ codes ": " ++ reason)))
          (resolve_base_url urls (regex_of lib.engines) lib.debug def)

    abbrev pub scope : Scope
    scope = scope_for def no_query settings []

    unfoldable pub declared_path : Option Text → Result Text
    declared_path (some path) = ok path
    declared_path none =
        err (raised (definition (codes "login block for " ++ def.id ++ codes " declares no path")))

    -- The URL of the login page, and the base it is resolved against.
    unfoldable pub login_url : Result (Url × Url)
    unfolding declared_path base_url render scope_for join_path
    login_url = declared_path login.path >>? λ path. base_url >>? λ base.
        render lib path scope >>? λ rendered.
        join_path (codes "login path") base rendered >>? λ url. ok (base, url)

    unfoldable pub rendered_headers : Result (List (Text × Text))
    unfolding render scope_for
    rendered_headers =
        map_all (λ (name, template). render lib template scope >>? λ v. ok (name, v))
          (first_values login.headers)

    unfoldable pub rendered_pairs : Result (List (Text × Text))
    unfolding render scope_for
    rendered_pairs =
        map_all (λ (name, template). render lib template scope >>? λ v. ok (name, v)) login.inputs

    abbrev with_pairs : List (Text × Text) → Url → Url
    with_pairs pairs url = if is_empty pairs then url else urls.extend_pairs pairs url

    abbrev pub submitted : Method → List (Text × Text) → Option Body
    submitted Method.get pairs = none
    submitted Method.post pairs = some (Body.form pairs)
    submitted Method.put pairs = none
    submitted Method.delete pairs = none

    -- The request of a `post` or `get` login.
    abbrev pub submission : Method → Url → List (Text × Text) → List (Text × Text) → HttpRequest
    submission Method.get url pairs headers = get_request (with_pairs pairs url) headers
    submission method url pairs headers = record {
      method = method;
      url = url;
      headers = headers;
      body = submitted method pairs;
      follow_redirects = true;
    }

    -- After the last request of a login.
    unfoldable pub finish : Url → HttpResponse → Step (Unit {0})
    unfolding check_error_rules verify_test response_text
    finish base resp = lift (check_error_rules lib login.error (response_text resp)) >>= λ u.
        verify_test base login.test

    unfoldable pub submit_login : Method → Step (Unit {0})
    unfolding login_url rendered_pairs rendered_headers execute finish
    submit_login method = lift login_url >>= λ (base, url). lift rendered_pairs >>= λ pairs.
        lift rendered_headers >>= λ headers.
        execute (submission method url pairs headers) >>= finish base

    abbrev pub configured : Option Text → Bool
    configured cookie = not (is_empty (trim (or_default cookie)))

    unfoldable pub cookie_login : Step (Unit {0})
    unfolding resolved get trim base_url verify_test
    cookie_login =
        if configured (get (codes "cookie") (resolved settings def))
        then (lift base_url >>= λ base. verify_test base login.test)
        else fail (raised (definition (codes "cookie login requires the 'cookie' setting")))

    module _ (now : I) where
      -- The second request of a form login, and what follows it.
      unfoldable pub submit_form : Url → List (Text × Text) × Url → Step (Unit {0})
      unfolding rendered_headers login_cookie_header execute finish
      submit_form base (pairs, url) = lift rendered_headers >>= λ headers.
          execute (submission Method.post url pairs (headers ++ login_cookie_header login))
          >>= finish base

      unfoldable pub form_login : Step (Unit {0})
      unfolding login_url login_cookie_header execute read_form submit_form response_text scope_for
      form_login = lift login_url >>= λ (base, url).
          execute (get_request url (login_cookie_header login)) >>= λ landing.
          lift (
            read_form lib urls login (response_text landing) landing.final_url
              (record { now = now; keywords = [] }) scope)
          >>= submit_form base

      abbrev unknown_method : Text → Step (Unit {0})
      unknown_method m = fail (
          raised
            (definition (codes "login method " ++ lib.debug m ++ codes " not yet implemented")))

      unfoldable pub by_method : Option Text → Step (Unit {0})
      unfolding submit_login cookie_login form_login is_method
      by_method none = form_login
      by_method (some m) =
          if is_method (codes "post") m
          then submit_login Method.post
          else if is_method (codes "get") m
          then submit_login Method.get
          else if is_method (codes "cookie") m
          then cookie_login
          else if is_method (codes "form") m
          then form_login
          else unknown_method m

  abbrev pub of_login : Definition → Settings → I → Option Login → Step (Unit {0})
  of_login def settings now none = pure tt
  of_login def settings now (some login) =
      if login.has_captcha
      then fail (raised needs_captcha)
      else by_method def login settings now login.method

  unfoldable pub authenticate : Definition → Settings → I → Step (Unit {0})
  unfolding by_method
  authenticate def settings now = of_login def settings now def.login
