-- ===== src/Login/Sends.antt =====
-- How many requests a login sends, in crates/oxidarr-indexer/src/login.rs.
use oxidarr.Common.{
  ℕ, suc, Bool, true, false, Option, none, some, [], ◌++◌, Text, codes, if◌then◌else◌,
}
use oxidarr.Common.Outcome.{Outcome, ok, err}
use oxidarr.Common.Act.{Act, pure, fail, lift, next, ◌>>=◌}
use oxidarr.Common.Halt.{Halt}
use oxidarr.Http.{Url, Method, HttpRequest, HttpResponse, HttpError, HttpClient}
use oxidarr.Model.{Definition, Login, LoginTest}
use oxidarr.Search.Build.{Urls}
use oxidarr.Search.Inputs.{LoginError}
use oxidarr.Search.Query.{Settings}
use oxidarr.Extraction.{Libraries}
use oxidarr.Common.Ordered.{get}
use oxidarr.Login.Form.{read_form}
use oxidarr.Search.Query.{resolved}
use oxidarr.Login.Flow.{
  of_login, login_url, rendered_pairs, rendered_headers, response_text, scope, login_cookie_header,
  get_request, submission, base_url, configured, executed, execute, join_path, verify_login,
  verified, verify_test, finish, submit_login, is_method, cookie_login, submit_form, form_login,
  by_method, authenticate,
}

-- From one state of the tracker to another by at most so many requests.
pub data Calls {R : Type 0} (client : HttpClient R) : ℕ → R → R → Type 0 where
  stay : {n : ℕ} {s : R} → Calls client n s s
  call :
      {n : ℕ} {s t : R} (req : HttpRequest)
      → Calls client n (client req s).1 t
      → Calls client (suc n) s t

module _ {R : Type 0} (client : HttpClient R) where
  pub record AtMost {E A : Type 0} (n : ℕ) (m : Act R E A) : Type 0 where
    pub at : (s : R) → Calls client n s (m s).1

  Calls-trans : {n : ℕ} {s t u : R} → Calls client n s t → Calls client 0 t u → Calls client n s u
  Calls-trans stay stay = stay
  Calls-trans (call req h) h' = call req (Calls-trans h h')

  module _ {E : Type 0} where
    AtMost-pure : {A : Type 0} (n : ℕ) (a : A) → AtMost {E = E} n (pure a)
    AtMost-pure n a = record { at = λ s. stay }

    AtMost-fail : {A : Type 0} (n : ℕ) (e : E) → AtMost {A = A} n (fail e)
    AtMost-fail n e = record { at = λ s. stay }

    AtMost-lift : {A : Type 0} (n : ℕ) (r : Outcome E A) → AtMost n (lift r)
    AtMost-lift n r = record { at = λ s. stay }

    AtMost-lift_bind :
        {A B : Type 0} (n : ℕ) (r : Outcome E A) (f : A → Act R E B)
        → ((a : A) → AtMost n (f a))
        → AtMost n (lift r >>= f)
    AtMost-lift_bind n (ok a) f h = h a
    AtMost-lift_bind n (err e) f h = record { at = λ s. stay }

    -- What follows sends nothing.
    AtMost-bind :
        {A B : Type 0} (n : ℕ) (m : Act R E A) (f : A → Act R E B)
        → AtMost n m
        → ((a : A) → AtMost 0 (f a))
        → AtMost n (m >>= f)
    AtMost-bind n m f h h' = record { at = λ s. go (m s) s (h.at s) }
      where
        go : (r : Outcome E _ × R) (s : R) → Calls client n s r.1 → Calls client n s (next r f).1
        go (ok a, t) s c = Calls-trans c ((h' a).at t)
        go (err e, t) s c = c

    AtMost-either :
        {A : Type 0} (n : ℕ) (b : Bool) (m m' : Act R E A)
        → AtMost n m
        → AtMost n m'
        → AtMost n (if b then m else m')
    AtMost-either n true m m' h h' = h
    AtMost-either n false m m' h h' = h'

    AtMost-if :
        {A : Type 0} (n k : ℕ) (b : Bool) (m m' : Act R E A)
        → AtMost n m
        → AtMost k m'
        → AtMost (if b then n else k) (if b then m else m')
    AtMost-if n k true m m' h h' = h
    AtMost-if n k false m m' h h' = h'

-- How many requests a test takes.
abbrev pub of_test : Option LoginTest → ℕ
of_test none = 0
of_test (some test) = 1

-- The requests that a login may take, by its method.
abbrev pub of_method : Option LoginTest → Option Text → ℕ
of_method test none = suc (suc (of_test test))
of_method test (some m) =
    if is_method (codes "post") m
    then suc (of_test test)
    else if is_method (codes "get") m
    then suc (of_test test)
    else if is_method (codes "cookie") m
    then of_test test
    else if is_method (codes "form") m
    then suc (suc (of_test test))
    else 0

abbrev pub allowed : Option Login → ℕ
allowed none = 0
allowed (some login) = if login.has_captcha then 0 else of_method login.test login.method

module _ {I D T L F B E C R : Type 0} (lib : Libraries I D T L F B E C) (urls : Urls)
    (client : HttpClient R) where
  -- A request, and then what follows its response.
  execute-AtMost :
      {A : Type 0} (n : ℕ) (req : HttpRequest) (f : HttpResponse → Act R (Halt LoginError) A)
      → ((resp : HttpResponse) → AtMost client n (f resp))
      → AtMost client (suc n) (execute lib urls client req >>= f)
  unfolding execute
  execute-AtMost n req f h = record { at = λ s. call req (go (client req s)) }
    where
      go :
          (r : Outcome HttpError HttpResponse × R)
          → Calls client n r.1 (next (executed lib urls client r) f).1
      go (ok resp, s) = (h resp).at s
      go (err e, s) = stay

  verify_test-AtMost :
      (base : Url) (test : Option LoginTest)
      → AtMost client (of_test test) (verify_test lib urls client base test)
  unfolding verify_test verify_login
  verify_test-AtMost base none = AtMost-pure client 0 tt
  verify_test-AtMost base (some test) =
      AtMost-bind client 1 (verify_login lib urls client base test) _
        (AtMost-lift_bind client 1
          (join_path lib urls client (codes "login test path") base test.path) _
          λ url. execute-AtMost 0 _ _ λ resp. AtMost-lift client 0 _)
        passes
    where
      passes : (b : Bool) → AtMost client 0 (verified lib urls client b)
      passes true = AtMost-pure client 0 tt
      passes false = AtMost-fail client 0 _

  module _ (def : Definition) (login : Login) (settings : Settings) where
    finish-AtMost :
        (base : Url) (resp : HttpResponse)
        → AtMost client (of_test login.test) (finish lib urls client def login settings base resp)
    unfolding finish
    finish-AtMost base resp =
        AtMost-lift_bind client (of_test login.test) _ _ λ u. verify_test-AtMost base login.test

    submit_login-AtMost :
        (method : Method)
        → AtMost client
            (suc (of_test login.test))
            (submit_login lib urls client def login settings method)
    unfolding submit_login
    submit_login-AtMost method =
        AtMost-lift_bind client (suc (of_test login.test))
          (login_url lib urls client def login settings) _
          λ (base, url).
            AtMost-lift_bind client (suc (of_test login.test))
              (rendered_pairs lib urls client def login settings) _
              λ pairs.
                AtMost-lift_bind client (suc (of_test login.test))
                  (rendered_headers lib urls client def login settings) _
                  λ headers.
                    execute-AtMost (of_test login.test)
                      (submission lib urls client def login settings method url pairs headers) _
                      (finish-AtMost base)

    cookie_login-AtMost :
        AtMost client (of_test login.test) (cookie_login lib urls client def login settings)
    unfolding cookie_login
    cookie_login-AtMost =
        AtMost-either client (of_test login.test)
          (configured lib urls client def login settings
            (get (codes "cookie") (resolved settings def)))
          _ _
          (AtMost-lift_bind client (of_test login.test)
            (base_url lib urls client def login settings) _
            λ base. verify_test-AtMost base login.test)
          (AtMost-fail client (of_test login.test) _)

    form_login-AtMost :
        (now : I)
        → AtMost client
            (suc (suc (of_test login.test)))
            (form_login lib urls client def login settings now)
    unfolding form_login submit_form
    form_login-AtMost now =
        AtMost-lift_bind client (suc (suc (of_test login.test)))
          (login_url lib urls client def login settings) _
          λ (base, url).
            execute-AtMost (suc (of_test login.test)) (get_request url (login_cookie_header login))
              _
              λ landing.
                AtMost-lift_bind client (suc (of_test login.test))
                  (read_form lib urls login (response_text landing) landing.final_url
                    (record { now = now; keywords = [] })
                    (scope lib urls client def login settings))
                  _
                  λ (pairs, to).
                    AtMost-lift_bind client (suc (of_test login.test))
                      (rendered_headers lib urls client def login settings) _
                      λ headers.
                        execute-AtMost (of_test login.test)
                          (submission lib urls client def login settings Method.post to pairs
                            (headers ++ login_cookie_header login))
                          _ (finish-AtMost base)

    by_method-AtMost :
        (now : I) (method : Option Text)
        → AtMost client
            (of_method login.test method)
            (by_method lib urls client def login settings now method)
    unfolding by_method
    by_method-AtMost now none = form_login-AtMost now
    by_method-AtMost now (some m) =
        AtMost-if client _ _ (is_method (codes "post") m) _ _ (submit_login-AtMost Method.post) (
          AtMost-if client _ _ (is_method (codes "get") m) _ _ (submit_login-AtMost Method.get) (
            AtMost-if client _ _ (is_method (codes "cookie") m) _ _ cookie_login-AtMost (
              AtMost-if client _ _ (is_method (codes "form") m) _ _ (form_login-AtMost now)
                (AtMost-fail client 0 _))))

  -- A login sends no request without a `login` block and at a captcha, and else at most one to
  -- submit, one more before it if it fills in a form, none of them if it is by cookie, and one for
  -- the test, if there is one.
  pub authenticate-Calls :
      (def : Definition) (settings : Settings) (now : I) (s : R)
      → Calls client (allowed def.login) s (authenticate lib urls client def settings now s).1
  unfolding authenticate
  authenticate-Calls def settings now s = go def.login
    where
      go :
          (login : Option Login)
          → Calls client (allowed login) s (of_login lib urls client def settings now login s).1
      go none = stay
      go (some login) =
          (AtMost-if client 0 (of_method login.test login.method) login.has_captcha _ _
              (AtMost-fail client 0 _) (by_method-AtMost def login settings now login.method)).at
            s
