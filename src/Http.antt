-- ===== src/Http.antt =====
-- crates/oxidarr-indexer/src/client.rs: requests and responses. A `url::Url` is the text that
-- `as_str` gives. The transport is a function of the request and of the state of the remote side.
use oxidarr.Common.{ℕ, Bool, Option, List, Text, String, ◌&&◌, leb, ltb}
use oxidarr.Common.Json.{Json}
use oxidarr.Common.Outcome.{Outcome}

abbrev pub Url : Type 0
Url = Text

pub data Method : Type 0 where
  get post put delete : Method

pub data Body : Type 0 where
  form : List (Text × Text) → Body
  json : Json → Body

pub record HttpRequest : Type 0 where
  pub method : Method
  pub url : Url
  pub headers : List (Text × Text)
  pub body : Option Body
  pub follow_redirects : Bool

pub record HttpResponse : Type 0 where
  pub status : ℕ
  pub headers : List (Text × Text)
  pub body : List ℕ
  pub final_url : Url

-- A failure of the transport, by its message.
abbrev pub HttpError : Type 0
HttpError = String

-- The trait `HttpClient`, for a remote side with states in `R`.
abbrev pub HttpClient : Type 0 → Type 0
HttpClient R = HttpRequest → R → Outcome HttpError HttpResponse × R

-- `(200..300).contains(&resp.status)`
abbrev pub is_success : HttpResponse → Bool
is_success resp = leb 200 resp.status && ltb resp.status 300
