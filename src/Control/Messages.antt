-- ===== src/Control/Messages.antt =====
-- internal/control/server.go: requests, responses, and the helpers that write them.
use localapp.Base.{ℕ, true, false, Bool, Option, none, some, List, [], ◌∷◌, ◌++◌, if◌then◌else◌}
use localapp.Text.{Str, text, str_eq}
use localapp.Registry.Store.{Failure, rejected, not_saved, World}
use localapp.Logstream.{Reading, read_from}
use localapp.Logstream.Stream.{Event}
use localapp.Control.{
  ServiceView, AppView, StatusResponse, ServiceRequest, ApiCode, code_validation,
  code_method_not_allowed, code_internal, ErrorDetail, Server,
}

pub data Method : Type 0 where
  method_get method_put method_delete method_post : Method
  other : Str → Method

unfoldable pub method_eq : Method → Method → Bool
method_eq method_get method_get = true
method_eq method_put method_put = true
method_eq method_delete method_delete = true
method_eq method_post method_post = true
method_eq (other a) (other b) = str_eq a b
method_eq _ _ = false

unfoldable pub method_name : Method → Str
method_name method_get = text "GET"
method_name method_put = text "PUT"
method_name method_delete = text "DELETE"
method_name method_post = text "POST"
method_name (other m) = m

-- What a JSON decoder makes of the body: the value, or the text of its error.
pub data Decoded (A : Type 0) : Type 0 where
  decoded : A → Decoded A
  decode_error : Str → Decoded A

-- A request: its method, the path of its URL, and its body as the two decoders read it.
pub record Request : Type 0 where
  pub method : Method
  pub path : Str
  pub service_request : Decoded ServiceRequest
  pub log_batch : Decoded Str

pub data Body : Type 0 where
  no_body : Body
  error_body : ErrorDetail → Body
  status_body : StatusResponse → Body
  apps_body : List AppView → Body
  app_body : AppView → Body
  service_body : ServiceView → Body
  event_body : Event → Body
  -- ServeSSE takes the connection over.
  stream_body : Str → Str → Body

pub record Response : Type 0 where
  pub status : ℕ
  pub allow : List Method
  pub body : Body

-- The registry with its disk, and the log store where there is one.
pub record State : Type 0 where
  pub world : World
  pub logs : Option localapp.Logstream.Store

unfoldable pub write_json : ℕ → Body → Response
write_json status body = record { status = status; allow = []; body = body }

unfoldable pub write_error : ℕ → ApiCode → Str → Response
write_error status code message =
    write_json status (error_body (record { code = code; message = message }))

-- writeErr
unfoldable pub write_err : Server → Failure → Response
write_err s (rejected e) = write_error 400 (code_validation e.code) e.message
write_err s (not_saved step) = write_error 500 code_internal (s.failure_text step)

abbrev pub no_content : Response
no_content = record { status = 204; allow = []; body = no_body }

-- allow: `none` if the method is one of those, else the 405 response.
has_method : Method → List Method → Bool
has_method m [] = false
has_method m (x ∷ xs) = if method_eq m x then true else has_method m xs

unfoldable pub not_allowed : Method → List Method → Option Response
unfolding has_method
not_allowed m methods =
    if has_method m methods
    then none
    else some
        (record (write_error 405 code_method_not_allowed
          (text "method not allowed: " ++ method_name m)) { allow = methods })

-- if !allow(…) { return }; rest
abbrev pub guarded : Option Response → State → Response × State → Response × State
guarded none st rest = rest
guarded (some r) st rest = (r, st)
