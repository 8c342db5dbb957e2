-- ===== src/Sync/Remote.antt =====
-- One request each to an application: crates/oxidarr-prowl/src/sync.rs from `api_key_header` to
-- `delete_indexer`.
use oxidarr.Common.{◌==◌, ◌||◌, true, Option, none, some, [], ◌∷◌, ◌++◌, codes, Text, if◌then◌else◌}
use oxidarr.Common.Int.{ℤ, fits_i32}
use oxidarr.Common.Json.{Json, get_key, as_i64}
use oxidarr.Common.Outcome.{Outcome, ok, err, map_err, ok_or}
use oxidarr.Common.Outcome
use oxidarr.Common.Act.{lift, ◌>>=◌, ◌>>◌}
use oxidarr.Db.Rows.{ApplicationRow}
use oxidarr.Http.{Url, Method, Body, HttpRequest, HttpResponse, is_success}
use oxidarr.Definitions.{slash}
use oxidarr.Sync.World.{
  Services, Sync, SyncError, invalid_base_url, remote, decode, missing_remote_id,
  remote_id_overflow, execute,
}
use oxidarr.Sync.Payload.{show_int, trim_end_matches}

abbrev pub api_key_header : Text → Text × Text
api_key_header api_key = (codes "X-Api-Key", api_key)

abbrev pub id_suffix : Option ℤ → Text
id_suffix none = []
id_suffix (some id) = slash ∷ show_int id

module _ {R : Type 0} (services : Services R) where
  unfoldable pub indexer_url : ApplicationRow → Option ℤ → Outcome SyncError Url
  indexer_url app remote_id =
      let base = trim_end_matches slash app.base_url in
      map_err (invalid_base_url app.name app.base_url)
        (services.parse_url (base ++ codes "/api/v3/indexer" ++ id_suffix remote_id))

  unfoldable pub remote_error : ApplicationRow → HttpResponse → SyncError
  remote_error app resp = remote app.name resp.status (services.from_utf8_lossy resp.body)

  unfoldable pub ensure_success : ApplicationRow → HttpResponse → Outcome SyncError (Unit {0})
  unfolding remote_error
  ensure_success app resp = if is_success resp then ok tt else err (remote_error app resp)

  unfoldable pub parse_remote_id : ApplicationRow → HttpResponse → Outcome SyncError ℤ
  unfolding get_key as_i64
  parse_remote_id app resp =
      Outcome.◌>>=◌ (map_err (decode app.name) (services.from_slice resp.body)) λ value.
        Outcome.◌>>=◌ (ok_or (missing_remote_id app.name) (as_i64 (get_key "id" value)))
          λ id. if fits_i32 id then ok id else err (remote_id_overflow app.name)

  abbrev pub request : ApplicationRow → Method → Url → Option Body → HttpRequest
  request app method url body = record {
    method = method;
    url = url;
    headers = api_key_header app.api_key ∷ [];
    body = body;
    follow_redirects = true;
  }

  unfoldable pub post_indexer : ApplicationRow → Json → Sync R ℤ
  unfolding indexer_url ensure_success parse_remote_id execute
  post_indexer app payload = do
    url ← lift (indexer_url app none)
    resp ← execute services (request app Method.post url (some (Body.json payload)))
    lift (ensure_success app resp)
    lift (parse_remote_id app resp)

  unfoldable pub put_indexer : ApplicationRow → ℤ → Json → Sync R HttpResponse
  unfolding indexer_url execute
  put_indexer app remote_id payload = do
    url ← lift (indexer_url app (some remote_id))
    execute services (request app Method.put url (some (Body.json payload)))

  unfoldable pub delete_indexer : ApplicationRow → ℤ → Sync R (Unit {0})
  unfolding indexer_url remote_error execute
  delete_indexer app remote_id = do
    url ← lift (indexer_url app (some remote_id))
    resp ← execute services (request app Method.delete url none)
    lift (if is_success resp || resp.status == 404 then ok tt else err (remote_error app resp))
