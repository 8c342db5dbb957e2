-- ===== src/Search/Inputs.antt =====
-- The inputs of a request in crates/oxidarr-indexer/src/builder.rs, and its error.
use oxidarr.Common.{Bool, not, ◌&&◌, List, Text, codes, text_eq, if◌then◌else◌}
use oxidarr.Common.Outcome.{Outcome, ok, ◌>>=◌, map_err}
use oxidarr.Common.Ordered.{put_all}
use oxidarr.Common.Str.{trim}
use oxidarr.Http.{HttpError}
use oxidarr.Model.{Definition, Search, SearchPath}
use oxidarr.Template.{Scope, CardigannError, Regex, is_empty}
use oxidarr.Template.Render.{render_text, show_error}

-- The errors of login.rs.
pub data LoginError : Type 0 where
  rejected : Text → LoginError
  needs_captcha : LoginError
  http : HttpError → LoginError
  definition : Text → LoginError

pub data IndexerError : Type 0 where
  request_build : Text → Text → IndexerError
  parse : Text → IndexerError
  http : HttpError → IndexerError
  engine : CardigannError → IndexerError
  login : LoginError → IndexerError

abbrev pub request_build_error : Definition → Text → IndexerError
request_build_error def reason = request_build def.id reason

unfoldable pub merged_inputs : Search → SearchPath → List (Text × Text)
unfolding put_all
merged_inputs search path = put_all path.inputs search.inputs

pub data RenderedInput : Type 0 where
  pair : Text → Text → RenderedInput
  raw : Text → RenderedInput
  empty : RenderedInput

-- What a rendered text is as an input.
unfoldable pub classify : Text → Bool → Text → RenderedInput
unfolding trim
classify key allow_empty rendered =
    if text_eq key (codes "$raw")
    then if is_empty rendered then empty else raw rendered
    else if is_empty (trim rendered) && not allow_empty
    then empty
    else pair key rendered

module _ {P : Type 0} (regex : Regex P) (debug : Text → Text) (def : Definition)
    (scope : Scope) where
  -- `template::render`, with its error as one of building the request.
  unfoldable pub render_part : Text → Outcome IndexerError Text
  unfolding render_text show_error
  render_part template =
      map_err (λ e. request_build_error def (show_error debug e))
        (render_text regex debug template scope)

  unfoldable pub render_input : Text → Text → Bool → Outcome IndexerError RenderedInput
  unfolding render_part classify
  render_input key template allow_empty =
      render_part template >>= λ rendered. ok (classify key allow_empty rendered)
