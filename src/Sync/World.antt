-- ===== src/Sync/World.antt =====
-- What `sync_application` of crates/oxidarr-prowl/src/sync.rs reads and writes: the database, the
-- definition store, and the applications behind the HTTP client. `sent` logs every request.
use oxidarr.Common.{ℕ, String, List, [], ◌∷◌, ◌++◌, Text}
use oxidarr.Common.Json.{Json}
use oxidarr.Common.Outcome.{Outcome, ok, err}
use oxidarr.Common.Act.{Act, zoom, Relates, Relates-zoom, Yields, Yields-zoom}
use oxidarr.Db.Kinds.{DbError}
use oxidarr.Db.Rows.{Codec}
use oxidarr.Db.Conn.{Conn, Disk, Query}
use oxidarr.Http.{Url, HttpRequest, HttpResponse, HttpError, HttpClient}
use oxidarr.Definitions.{DefinitionError, Files, Store}

-- The libraries that the engine calls: the transport, `url`, `serde_json`, SQLite and files.
pub record Services (R : Type 0) : Type 0 where
  pub http : HttpClient R
  pub parse_url : Text → Outcome String Url
  pub from_slice : List ℕ → Outcome String Json
  pub from_utf8_lossy : List ℕ → Text
  pub disk : Disk
  pub codec : Codec
  pub files : Files

pub record World (R : Type 0) : Type 0 where
  pub conn : Conn
  pub definitions : Store
  pub server : R
  pub sent : List HttpRequest

pub record SyncReport : Type 0 where
  pub created : ℕ
  pub updated : ℕ
  pub deleted : ℕ
  pub skipped : List Text

pub data SyncError : Type 0 where
  db : DbError → SyncError
  http : HttpError → SyncError
  definition : Text → DefinitionError → SyncError
  invalid_base_url : Text → Text → String → SyncError
  remote : Text → ℕ → Text → SyncError
  decode : Text → String → SyncError
  missing_remote_id : Text → SyncError
  remote_id_overflow : Text → SyncError

abbrev pub empty_report : SyncReport
empty_report = record { created = 0; updated = 0; deleted = 0; skipped = [] }

abbrev pub Sync : Type 0 → Type 0 → Type 0
Sync R A = Act (World R) SyncError A

module _ {R : Type 0} where
  -- A query, with `From<DbError>`.
  abbrev pub in_db : {A : Type 0} → Query A → Sync R A
  in_db = zoom (λ w. w.conn) (λ c w. record w { conn = c }) SyncError.db

  abbrev pub in_definitions :
      {A : Type 0} → (DefinitionError → SyncError) → Act Store DefinitionError A → Sync R A
  in_definitions wrap = zoom (λ w. w.definitions) (λ d w. record w { definitions = d }) wrap

  abbrev pub answered :
      HttpRequest
      → World R
      → Outcome HttpError HttpResponse × R
      → Outcome SyncError HttpResponse × World R
  answered req w (ok resp, r) = (ok resp, record w { server = r; sent = w.sent ++ req ∷ [] })
  answered req w (err e, r) =
      (err (SyncError.http e), record w { server = r; sent = w.sent ++ req ∷ [] })

  -- `client.execute(req).await?`
  unfoldable pub execute : Services R → HttpRequest → Sync R HttpResponse
  execute services req w = answered req w (services.http req w.server)

module _ {R : Type 0} {Rel : World R → World R → Type 0} {A : Type 0} where
  pub Relates-in_db :
      (q : Query A)
      → ((w : World R) → Rel w (record w { conn = (q w.conn).1 }))
      → Relates Rel (in_db q)
  Relates-in_db q h = Relates-zoom (λ w. w.conn) (λ c w. record w { conn = c }) SyncError.db q h

  pub Relates-in_definitions :
      (wrap : DefinitionError → SyncError) (m : Act Store DefinitionError A)
      → ((w : World R) → Rel w (record w { definitions = (m w.definitions).1 }))
      → Relates Rel (in_definitions wrap m)
  Relates-in_definitions wrap m h =
      Relates-zoom (λ w. w.definitions) (λ d w. record w { definitions = d }) wrap m h

pub Yields-in_db :
    {R A : Type 0} {Q : A → World R → Type 0} (q : Query A) (w : World R)
    → Yields q w.conn (λ a c. Q a (record w { conn = c }))
    → Yields (in_db q) w Q
Yields-in_db q w h = Yields-zoom (λ w. w.conn) (λ c w. record w { conn = c }) SyncError.db q w h
