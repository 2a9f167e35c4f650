-- ===== src/Client.antt =====
-- internal/control/client.go: the paths that the client calls, and what it makes of an answer.
pub mod Calls
use localapp.Base.{
  ℕ, ◌++◌, ◌∷◌, [], leb, if◌then◌else◌, Option, none, some, List, true, false, Bool, ◌&&◌, ◌==◌,
}
use localapp.Text.{Str, text}
use localapp.Control.{ErrorDetail}
use localapp.Control.Messages.{Body, error_body, Response}

unfoldable pub status_path : Str
status_path = text "/v1/status"

unfoldable pub apps_path : Str
apps_path = text "/v1/apps"

unfoldable pub app_path : Str → Str
app_path app = text "/v1/apps/" ++ app

unfoldable pub service_path : Str → Str → Str
service_path app service = text "/v1/apps/" ++ app ++ text "/services/" ++ service

unfoldable pub logs_path : Str → Str → Str
logs_path app service = text "/v1/apps/" ++ app ++ text "/services/" ++ service ++ text "/logs"

unfoldable pub stream_path : Str → Str → Str
stream_path app service =
    text "/v1/apps/" ++ app ++ text "/services/" ++ service ++ text "/logs/stream"

-- How a call ends: with a body, with an APIError (`none` where the body is not an error object), or
-- without a connection.
pub data Outcome : Type 0 where
  answered : Body → Outcome
  api_error : ℕ → Option ErrorDetail → Outcome
  unavailable : Outcome

abbrev error_of : Body → Option ErrorDetail
error_of (error_body e) = some e
error_of _ = none

-- do, on a response or a failed dial.
unfoldable pub outcome : Option Response → Outcome
outcome none = unavailable
outcome (some r) =
    if leb 400 r.status then api_error r.status (error_of r.body) else answered r.body

-- IsNotFound
unfoldable is_not_found : Outcome → Bool
is_not_found (api_error status e) = status == 404
is_not_found (answered b) = false
is_not_found unavailable = false
