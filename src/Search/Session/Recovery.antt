-- ===== src/Search/Session/Recovery.antt =====
-- That a search recovers from a lost session, in crates/oxidarr-indexer/src/cardigann.rs.
use oxidarr.Common.{◌≡◌, ◌≢◌, refl, subst, true, none, some, List, [], ◌∷◌, ◌++◌, Text}
use oxidarr.Common.Outcome.{Outcome, ok, err, map_err}
use oxidarr.Common.Act.{next}
use oxidarr.Http.{Url, HttpRequest}
use oxidarr.Model.{Definition}
use oxidarr.Template.{CardigannError, Regex}
use oxidarr.Search.Query.{SearchQuery, Settings}
use oxidarr.Search.Inputs.{
  LoginError, rejected, needs_captcha, definition, IndexerError, login, request_build, parse,
  engine,
}
use oxidarr.Search.Build.{Urls, build_search_requests}
use oxidarr.Search.Errors.{names, build_search_requests-names}
use oxidarr.Search.Session.{
  Site, execute_and_check, log_in_again, reissued, retried, execute_with_reauth, search_each,
  search_inner,
}

-- Anything but a rejection.
abbrev pub IsAccepted : {X : Type 0} → Outcome IndexerError X → Type 0
IsAccepted (ok x) = Unit
IsAccepted (err (login (rejected message))) = ⊥
IsAccepted (err (login needs_captcha)) = Unit
IsAccepted (err (login (LoginError.http e))) = Unit
IsAccepted (err (login (definition reason))) = Unit
IsAccepted (err (request_build id reason)) = Unit
IsAccepted (err (parse reason)) = Unit
IsAccepted (err (IndexerError.http e)) = Unit
IsAccepted (err (engine e)) = Unit

IsAccepted-next :
    {R X Y : Type 0} (r : Outcome IndexerError X) (s : R) (f : X → R → Outcome IndexerError Y × R)
    → IsAccepted r
    → ((x : X) → IsAccepted (f x s).0)
    → IsAccepted (next (r, s) f).0
IsAccepted-next (ok x) s f h k = k x
IsAccepted-next (err (login (rejected message))) s f h k = h
IsAccepted-next (err (login needs_captcha)) s f h k = tt
IsAccepted-next (err (login (LoginError.http e))) s f h k = tt
IsAccepted-next (err (login (definition reason))) s f h k = tt
IsAccepted-next (err (request_build id reason)) s f h k = tt
IsAccepted-next (err (parse reason)) s f h k = tt
IsAccepted-next (err (IndexerError.http e)) s f h k = tt
IsAccepted-next (err (engine e)) s f h k = tt

IsAccepted-engine : {X : Type 0} (r : Outcome CardigannError X) → IsAccepted (map_err engine r)
IsAccepted-engine (ok x) = tt
IsAccepted-engine (err e) = tt

IsAccepted-named :
    {X : Type 0} (id : Text) (r : Outcome IndexerError X)
    → ((e : IndexerError) → r ≡ err e → names e ≡ some id)
    → IsAccepted r
IsAccepted-named id (ok x) h = tt
IsAccepted-named id (err (login (rejected message))) h =
    none_is_not_some (h (login (rejected message)) refl)
  where
    none_is_not_some : none ≢ some id
    none_is_not_some e = cc
IsAccepted-named id (err (login needs_captcha)) h = tt
IsAccepted-named id (err (login (LoginError.http e))) h = tt
IsAccepted-named id (err (login (definition reason))) h = tt
IsAccepted-named id (err (request_build id' reason)) h = tt
IsAccepted-named id (err (parse reason)) h = tt
IsAccepted-named id (err (IndexerError.http e)) h = tt
IsAccepted-named id (err (engine e)) h = tt

not_rejected :
    {X : Type 0} (r : Outcome IndexerError X) (message : Text)
    → IsAccepted r
    → r ≢ err (login (rejected message))
not_rejected r message a e = subst IsAccepted e a

-- A tracker with a login block, at which a login works, and after one no request is rejected.
pub record IsWelcoming {R A : Type 0} (site : Site R A) : Type 0 where
  pub offers_login : site.has_login ≡ true
  pub logs_in : (s : R) → (t : R) × (site.authenticate s ≡ (ok tt, t))
  pub lets_in :
      (req : HttpRequest) (s t : R)
      → site.authenticate s ≡ (ok tt, t)
      → IsAccepted (execute_and_check site req t).0

module _ {R A : Type 0} (site : Site R A) (welcoming : IsWelcoming site) where
  again :
      (req : HttpRequest) (message : Text) (s : R)
      → IsAccepted (log_in_again site site.has_login req message s).0
  unfolding log_in_again reissued
  again req message s =
      let (t, e) = welcoming.logs_in s in
      rw (welcoming.offers_login, e) (welcoming.lets_in req s t e)

  IsAccepted-retried :
      (req : HttpRequest) (r : Outcome IndexerError (Text × Url)) (s : R)
      → IsAccepted (retried site req (r, s)).0
  unfolding retried
  IsAccepted-retried req (ok r) s = tt
  IsAccepted-retried req (err (login (rejected message))) s = again req message s
  IsAccepted-retried req (err (login needs_captcha)) s = tt
  IsAccepted-retried req (err (login (LoginError.http e))) s = tt
  IsAccepted-retried req (err (login (definition reason))) s = tt
  IsAccepted-retried req (err (request_build id reason)) s = tt
  IsAccepted-retried req (err (parse reason)) s = tt
  IsAccepted-retried req (err (IndexerError.http e)) s = tt
  IsAccepted-retried req (err (engine e)) s = tt

  IsAccepted-reauth : (req : HttpRequest) (s : R) → IsAccepted (execute_with_reauth site req s).0
  unfolding execute_with_reauth
  IsAccepted-reauth req s =
      IsAccepted-retried req (execute_and_check site req s).0 (execute_and_check site req s).1

  IsAccepted-search_each :
      (reqs : List HttpRequest) (releases : List A) (s : R)
      → IsAccepted (search_each site reqs releases s).0
  unfolding search_each
  IsAccepted-search_each [] releases s = tt
  IsAccepted-search_each (req ∷ reqs) releases s =
      IsAccepted-next (execute_with_reauth site req s).0 (execute_with_reauth site req s).1 _
        (IsAccepted-reauth req s)
        λ (body, base).
          IsAccepted-next (map_err engine (site.extract body base))
            (execute_with_reauth site req s).1 _ (IsAccepted-engine (site.extract body base))
            λ found.
              IsAccepted-search_each reqs (releases ++ found) (execute_with_reauth site req s).1

  -- At a tracker with a login block, where a login works and requests after it are let in, a search
  -- is never rejected, whatever session it starts with.
  pub search_inner-accepted :
      {P : Type 0} (urls : Urls) (regex : Regex P) (debug : Text → Text) (def : Definition)
      (query : SearchQuery) (settings : Settings) (s : R) (message : Text)
      → (search_inner site urls regex debug def query settings s).0 ≢ err (login (rejected message))
  unfolding search_inner
  search_inner-accepted urls regex debug def query settings s message = not_rejected _ message (
      IsAccepted-next (build_search_requests urls regex debug def query settings) s _
        (IsAccepted-named def.id (build_search_requests urls regex debug def query settings)
          (build_search_requests-names urls regex debug def query settings))
        λ reqs. IsAccepted-search_each reqs [] s)
