-- ===== src/Login/Passes.antt =====
-- A login that succeeds has passed its test, in crates/oxidarr-indexer/src/login.rs.
use oxidarr.Common.{
  ◌≡◌, refl, sym, subst, Bool, true, false, Option, none, some, [], ◌++◌, Text, codes,
}
use oxidarr.Common.Outcome.{Outcome, ok, err, ◌>>=◌ as ◌>>?◌}
use oxidarr.Common.Act.{
  Act, lift, ◌>>=◌, Yields, Yields-any, Yields-self, Yields-pure, Yields-bind, Yields-if,
}
use oxidarr.Common.Halt.{Halt}
use oxidarr.Common.Ordered.{get}
use oxidarr.Http.{Url, Method, HttpResponse, HttpClient}
use oxidarr.Model.{Definition, Login, LoginTest}
use oxidarr.Search.Build.{Urls}
use oxidarr.Search.Inputs.{LoginError}
use oxidarr.Search.Query.{Settings, resolved}
use oxidarr.Extraction.{Libraries}
use oxidarr.Login.{Result, check_error_rules}
use oxidarr.Login.Form.{render, read_form}
use oxidarr.Login.Flow.{
  verify_login, verified, verify_test, finish, submit_login, is_method, cookie_login, submit_form,
  form_login, by_method, authenticate, of_login, login_url, rendered_pairs, rendered_headers,
  response_text, scope, login_cookie_header, get_request, submission, base_url, configured,
  declared_path, join_path, execute,
}

-- What follows a value that an outcome has.
Yields-lift_bind :
    {S E A B : Type 0} {s : S} {Q : B → S → Type 0} (r : Outcome E A) (f : A → Act S E B)
    → ((a : A) → r ≡ ok a → Yields (f a) s Q)
    → Yields (lift r >>= f) s Q
Yields-lift_bind (ok a) f h = h a refl
Yields-lift_bind (err e) f h = record { at = λ b t k. cc }

Yields-then :
    {S E A B : Type 0} {s : S} {Q : B → S → Type 0} (m : Act S E A) (f : A → Act S E B)
    → ((a : A) (t : S) → Yields (f a) t Q)
    → Yields (m >>= f) s Q
Yields-then m f h = Yields-bind m f (Yields-any m) (λ a t e. h a t)

module _ {I D T L F B E C R : Type 0} (lib : Libraries I D T L F B E C) (urls : Urls)
    (client : HttpClient R) (def : Definition) (login : Login) (settings : Settings)
    (test : LoginTest) where
  -- The state is the one that a test of the session has left, and the test passed.
  abbrev pub HasPassed : R → Type 0
  HasPassed t =
      (base : Url) × (s : R) × (base_url lib urls client def login settings ≡ ok base)
      × (verify_login lib urls client base test s ≡ (ok true, t))

  abbrev Passing : Act R (Halt LoginError) (Unit {0}) → R → Type 0
  Passing m s = Yields m s (λ u t. HasPassed t)

  test-Passing :
      (base : Url) (s : R)
      → base_url lib urls client def login settings ≡ ok base
      → Passing (verify_test lib urls client base (some test)) s
  unfolding verify_test
  test-Passing base s h =
      Yields-bind (verify_login lib urls client base test) _
        (Yields-self (verify_login lib urls client base test)) go
    where
      go :
          (b : Bool) (t : R)
          → verify_login lib urls client base test s ≡ (ok b, t)
          → Passing (verified lib urls client b) t
      go true t e = Yields-pure tt (base, s, h, e)
      go false t e = record { at = λ u v k. cc }

  abbrev OfUrl : Result (Url × Url) → Type 0
  OfUrl (ok (base, url)) = base_url lib urls client def login settings ≡ ok base
  OfUrl (err e) = Unit

  OfUrl-bind :
      {A : Type 0} (r : Result A) (f : A → Result (Url × Url))
      → ((a : A) → r ≡ ok a → OfUrl (f a))
      → OfUrl (r >>? f)
  OfUrl-bind (ok a) f h = h a refl
  OfUrl-bind (err e) f h = tt

  login_url-OfUrl : OfUrl (login_url lib urls client def login settings)
  unfolding login_url
  login_url-OfUrl =
      OfUrl-bind (declared_path lib urls client def login settings login.path) _ λ path e.
        OfUrl-bind (base_url lib urls client def login settings) _ λ base e'.
          OfUrl-bind (render lib path (scope lib urls client def login settings)) _ λ rendered e''.
            OfUrl-bind (join_path lib urls client (codes "login path") base rendered) _
              λ url e'''. e'

  login_url-base :
      (base url : Url)
      → login_url lib urls client def login settings ≡ ok (base, url)
      → base_url lib urls client def login settings ≡ ok base
  login_url-base base url h = subst OfUrl h login_url-OfUrl

  module _ (has_test : login.test ≡ some test) where
    login_test-Passing :
        (base : Url) (s : R)
        → base_url lib urls client def login settings ≡ ok base
        → Passing (verify_test lib urls client base login.test) s
    login_test-Passing base s h =
        subst (λ o. Passing (verify_test lib urls client base o) s) (sym has_test)
          (test-Passing base s h)

    finish-Passing :
        (base : Url) (resp : HttpResponse) (s : R)
        → base_url lib urls client def login settings ≡ ok base
        → Passing (finish lib urls client def login settings base resp) s
    unfolding finish
    finish-Passing base resp s h =
        Yields-lift_bind (check_error_rules lib login.error (response_text resp)) _
          λ u e. login_test-Passing base s h

    submit_login-Passing :
        (method : Method) (s : R)
        → Passing (submit_login lib urls client def login settings method) s
    unfolding submit_login
    submit_login-Passing method s =
        Yields-lift_bind (login_url lib urls client def login settings) _ λ (base, url) e.
          Yields-lift_bind (rendered_pairs lib urls client def login settings) _ λ pairs e'.
            Yields-lift_bind (rendered_headers lib urls client def login settings) _ λ headers e''.
              Yields-then
                (execute lib urls client
                  (submission lib urls client def login settings method url pairs headers))
                _ λ resp t. finish-Passing base resp t (login_url-base base url e)

    cookie_login-Passing : (s : R) → Passing (cookie_login lib urls client def login settings) s
    unfolding cookie_login
    cookie_login-Passing s =
        Yields-if
          (configured lib urls client def login settings
            (get (codes "cookie") (resolved settings def)))
          _ _
          (λ y.
            Yields-lift_bind (base_url lib urls client def login settings) _
              λ base e. login_test-Passing base s e)
          (λ n. record { at = λ u t k. cc })

    form_login-Passing :
        (now : I) (s : R) → Passing (form_login lib urls client def login settings now) s
    unfolding form_login submit_form
    form_login-Passing now s =
        Yields-lift_bind (login_url lib urls client def login settings) _ λ (base, url) e.
          Yields-then (execute lib urls client (get_request url (login_cookie_header login))) _
            λ landing t.
              Yields-lift_bind
                (read_form lib urls login (response_text landing) landing.final_url
                  (record { now = now; keywords = [] }) (scope lib urls client def login settings))
                _
                λ (pairs, to) e'.
                  Yields-lift_bind (rendered_headers lib urls client def login settings) _
                    λ headers e''.
                      Yields-then
                        (execute lib urls client (
                          submission lib urls client def login settings Method.post to pairs
                            (headers ++ login_cookie_header login)))
                        _ λ resp v. finish-Passing base resp v (login_url-base base url e)

    by_method-Passing :
        (now : I) (method : Option Text) (s : R)
        → Passing (by_method lib urls client def login settings now method) s
    unfolding by_method
    by_method-Passing now none s = form_login-Passing now s
    by_method-Passing now (some m) s =
        Yields-if (is_method (codes "post") m) _ _ (λ y. submit_login-Passing Method.post s)
          λ n.
            Yields-if (is_method (codes "get") m) _ _ (λ y. submit_login-Passing Method.get s)
              λ n'.
                Yields-if (is_method (codes "cookie") m) _ _ (λ y. cookie_login-Passing s)
                  λ n''.
                    Yields-if (is_method (codes "form") m) _ _ (λ y. form_login-Passing now s)
                      λ n'''. record { at = λ u t k. cc }

    -- A login of a definition with a login test succeeds only if the test is what it did last, and
    -- the test passed.
    pub authenticate-HasPassed :
        (now : I) (s t : R)
        → def.login ≡ some login
        → authenticate lib urls client def settings now s ≡ (ok tt, t)
        → HasPassed t
    unfolding authenticate
    authenticate-HasPassed now s t h e =
        (subst (λ o. Passing (of_login lib urls client def settings now o) s) (sym h)
            (Yields-if login.has_captcha _ _ (λ y. record { at = λ u v k. cc })
              (λ n. by_method-Passing now login.method s))).at
          tt t e
