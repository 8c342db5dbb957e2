-- ===== src/Search/Session.antt =====
-- crates/oxidarr-indexer/src/cardigann.rs: a search sends its requests, and logs in again when a response says so.
pub mod Sends
pub mod Recovery
use oxidarr.Common.{ℕ, Bool, true, false, List, [], ◌∷◌, ◌++◌, Text, if◌then◌else◌}
use oxidarr.Common.Outcome.{Outcome, ok, err, map_err}
use oxidarr.Common.Act.{Act, pure, next, ◌>>=◌, lift}
use oxidarr.Http.{Url, HttpRequest, HttpResponse, HttpError, HttpClient}
use oxidarr.Model.{Definition}
use oxidarr.Template.{CardigannError, Regex}
use oxidarr.Search.Query.{SearchQuery, Settings}
use oxidarr.Search.Inputs.{LoginError, rejected, IndexerError, login}
use oxidarr.Search.Inputs as Inputs
use oxidarr.Search.Build.{Urls, build_search_requests}

-- A tracker with states in `R`: the transport, `authenticate` and `check_error_rules` of
-- login.rs, `decode_body` of decode.rs, and `extract` of the engine, with releases in `A`.
pub record Site (R A : Type 0) : Type 0 where
  pub client : HttpClient R
  pub has_login : Bool
  pub authenticate : R → Outcome LoginError (Unit {0}) × R
  pub check_error_rules : Text → Outcome LoginError (Unit {0})
  pub decode_body : List ℕ → Text
  pub extract : Text → Url → Outcome CardigannError (List A)

module _ {R A : Type 0} (site : Site R A) where
  abbrev checked : Text → Url → Outcome LoginError (Unit {0}) → Outcome IndexerError (Text × Url)
  checked body url (ok u) = ok (body, url)
  checked body url (err e) = err (login e)

  abbrev pub received : Outcome HttpError HttpResponse × R → Outcome IndexerError (Text × Url) × R
  received (err e, s) = (err (Inputs.IndexerError.http e), s)
  received (ok resp, s) =
      let body = site.decode_body resp.body in
      (checked body resp.final_url (site.check_error_rules body), s)

  unfoldable pub execute_and_check : HttpRequest → Act R IndexerError (Text × Url)
  execute_and_check req s = received (site.client req s)

  abbrev pub reissued :
      HttpRequest → Outcome LoginError (Unit {0}) × R → Outcome IndexerError (Text × Url) × R
  unfolding execute_and_check
  reissued req (ok u, s) = execute_and_check req s
  reissued req (err e, s) = (err (login e), s)

  -- What follows a rejection, from its message and the state it left.
  unfoldable pub log_in_again :
      Bool → HttpRequest → Text → R → Outcome IndexerError (Text × Url) × R
  unfolding reissued
  log_in_again true req message s = reissued req (site.authenticate s)
  log_in_again false req message s = (err (login (rejected message)), s)

  unfoldable pub retried :
      HttpRequest → Outcome IndexerError (Text × Url) × R → Outcome IndexerError (Text × Url) × R
  unfolding log_in_again
  retried req (err (login (rejected message)), s) = log_in_again site.has_login req message s
  retried req (r, s) = (r, s)

  unfoldable pub execute_with_reauth : HttpRequest → Act R IndexerError (Text × Url)
  unfolding retried execute_and_check
  execute_with_reauth req s = retried req (execute_and_check req s)

  unfoldable pub search_each : List HttpRequest → List A → Act R IndexerError (List A)
  unfolding execute_with_reauth
  search_each [] releases = pure releases
  search_each (req ∷ rest) releases = execute_with_reauth req >>= λ (body, base).
      lift (map_err Inputs.engine (site.extract body base)) >>= λ found.
      search_each rest (releases ++ found)

  unfoldable pub search_inner :
      {P : Type 0}
      → Urls
      → Regex P
      → (Text → Text)
      → Definition
      → SearchQuery
      → Settings
      → Act R IndexerError (List A)
  unfolding build_search_requests search_each
  search_inner urls regex debug def query settings =
      lift (build_search_requests urls regex debug def query settings) >>= λ requests.
      search_each requests []
