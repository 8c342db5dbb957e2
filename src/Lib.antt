-- ===== src/Lib.antt =====
-- Oxidarr: a Prowlarr replacement in Rust, in the crates under crates/. An operator configures
-- indexers (trackers) and applications (Sonarr, Radarr). Each indexer has a Cardigann definition,
-- which maps the tracker's categories to the Newznab ones, and the application sync pushes every
-- enabled indexer to every application over HTTP. A search renders the templates of an indexer's
-- definition into requests, sends them, and runs its filters over what comes back. Modelled are the
-- parts on the way of a sync, the requests of a search, the login to a tracker, the releases of a
-- page, the filters, the configuration and the authentication of requests to the server:
--
-- * crates/oxidarr-prowl/src/sync.rs is `Sync`. `Sync.World` has the state that a sync reads and
--   writes: the database connection, the definition store, the remote side, and a log of all
--   requests. `Sync.Payload` is `build_indexer_payload`, `Sync.Remote` one request each
--   (`post_indexer`, `put_indexer`, `delete_indexer`), and `Sync.Run` the passes of
--   `sync_application`, and `sync_all`. `Sync.Rules` is one induction over a sync, which
--   `Sync.OnTables`, `Sync.Frame` and `Sync.Requests` use; `Sync.Report`, `Sync.Mapped`,
--   `Sync.Outcomes` and `Sync.Results` are about a sync that succeeds.
-- * crates/oxidarr-db is `Db`: the rows of the three tables and the config (`Rows`, `Kinds`), the
--   statements on them with the constraints of migrations/0001_initial.sql (`Conn`), and the
--   repositories `Indexers`, `Applications`, `Mappings` and `Config`. `Statements`, `Integrity`,
--   `Mappings.View`, `Mappings.Held`, `Indexers.Stored` and `Config.Key` prove things about them.
-- * crates/oxidarr-prowl/src/definitions.rs is `Definitions`, with `Cache` and `Guard`.
-- * crates/oxidarr-cardigann/src/categories.rs is `Categories`, catmap.rs is `CategoryMap`, and the
--   parts of model.rs that these read are `Model`.
-- * crates/oxidarr-indexer/src/client.rs is `Http`.
-- * crates/oxidarr-cardigann/src/template.rs is `Template`, with `tokenize` in `Tokens`, the
--   parser's expressions in `Arguments`, its actions and `render` in `Parse`, and theorems in
--   `Laws`, `Fuel`, `Builders` and `Rounds`.
-- * crates/oxidarr-cardigann/src/filters.rs is `Filters`: `parse_filter` and `Pattern` in the
--   parent, `apply` in `Apply`, and the filters in `Url`, `Html`, `Words` and `Diacritics`.
--   netlayout.rs is `Dates.Layout`, fuzzydate.rs is `Dates.Fuzzy`, and the dates of filters.rs are
--   `Dates.Parse`.
-- * crates/oxidarr-indexer/src/query.rs is `Search.Query`, builder.rs is `Search.Paths`,
--   `Search.Inputs` and `Search.Build`, cardigann.rs is `Search.Session`, and the URLs of
--   indexer.rs are `Search.Api`. `Search.Settings`, `Laws`, `Carried`, `Requests` and `Errors` are
--   about the requests, `Session.Sends` and `Session.Recovery` about logging in again.
-- * crates/oxidarr-cardigann/src/selector.rs is `Selectors`: `select` and `matches` in the parent,
--   the scans that mind quotes in `Scan`, `compile` in `JsonPath` and `Compile`, and theorems in
--   `Order`, `Rounds`, `Slices` and `Panics`. engine.rs is `Extraction`: the fields of a row in the
--   parent, `parse_size` in `Size`, `build_release` and the release of crates/oxidarr-core in
--   `Release`, `extract` in `Rows`, and theorems in `Outcomes` and `Exact`.
-- * crates/oxidarr-indexer/src/login.rs is `Login`: the checks of a page in the parent, the form in
--   `Form`, the methods in `Flow`, and theorems in `Sends`, `Passes` and `Pairs`.
-- * crates/oxidarr-prowl/src/config.rs is `Config`, with `Layers`. In definitions_sync.rs the swap
--   of directories is `Updates`, with `Swap`, and the unpacking of an archive, staging and
--   `sync_once` are `Updates.Fetch`, with `Updates.Run`.
-- * crates/oxidarr-http/src/auth.rs is `Auth`.
-- * `Common` has what all of them share: text, lists, results, JSON values, and `Common.Act`, an
--   action on a state that may fail, as `async` code with `?` is one. `Examples` runs it all at
--   concrete inputs.
--
-- Text is a list of code points, or of bytes in `Auth`. An id that SQLite assigns is a natural
-- number, checked against `i32::MAX` where the code does; priorities and remote ids are integers.
-- Every loop is a recursion on the list that it walks, except the binary search of the category
-- table, whose fuel is the length of the table and halves with it, and the decimal digits of a
-- number, whose fuel is the number, and the parser of templates, `html_decode`,
-- `net_layout_to_chrono` and `compile` of selectors, whose fuel is the length of the text and is
-- proved to be enough.
--
-- Parameters are what the code calls and does not contain: the HTTP transport, the `url` crate,
-- `serde_json` and `chrono` (`Codec`), the file system and the YAML parser (`Files`), random
-- bytes, the clock, which SQL statements fail for a reason of SQLite's own (`Disk`), axum's
-- headers and `form_urlencoded` (`Auth.Parsers`), and the regex engines (`Template.Regex`,
-- `Filters.Engines`), `chrono` on dates (`Dates.Chrono`), the tables of Unicode, the `url` crate
-- on URLs (`Search.Build.Urls`), and the `scraper` crate on pages and CSS (`Selectors.Scraper`). A
-- panic is a result of its own where the code has one (`Common.Halt`). A search takes the login,
-- the error rules and the extraction of results as a parameter (`Search.Session.Site`). Concurrent
-- requests are not modelled: a sync or a search runs alone, as one sequence of steps.
--
-- Not modelled: the decoding of response bodies, the feeds of Newznab and Torznab indexers, the
-- Torznab endpoint, the REST handlers, the download of definitions and the timer that repeats it,
-- the wiring of the server, the reqwest client, the web UI and the migration tool.
pub mod Common
pub mod Model
pub mod Categories
pub mod CategoryMap
pub mod Db
pub mod Http
pub mod Definitions
pub mod Auth
pub mod Template
pub mod Dates
pub mod Filters
pub mod Search
pub mod Selectors
pub mod Extraction
pub mod Login
pub mod Config
pub mod Updates
pub mod Sync
pub mod Examples
