-- ===== src/Control/Logs.antt =====
-- internal/control/server.go, serveLogs: reading and forwarding the output of a service.
use localapp.Base.{true, false, Bool, not, Option, none, some, List, [], ◌∷◌, ◌++◌, if◌then◌else◌}
use localapp.Text.{Str, text, str_eq}
use localapp.Registry.{service}
use localapp.Registry.Store.{app}
use localapp.Logstream.{Reading, read_from}
use localapp.Control.{code_bad_json, code_not_found}
use localapp.Control.Messages.{
  method_get, method_post, method_eq, Decoded, decoded, decode_error, Request, event_body,
  stream_body, Response, State, write_json, write_error, no_content, not_allowed, guarded,
}

-- The closure `registered` of serveLogs.
unfoldable pub is_registered : Str → Str → State → Bool
is_registered name svc st = elim (app st.world.store name) [
  | none ↦ false
  | some a ↦ elim (service a svc) [ none ↦ false | some _ ↦ true ]
]

abbrev log_window : Reading → Response
log_window r =
    write_json 200 (event_body (record { text = r.text; captured = r.captured; next = r.next }))

abbrev pub append_batch :
    Str → Str → State → localapp.Logstream.Store → Decoded Str → Response × State
append_batch name svc st logs (decode_error e) =
    (write_error 400 code_bad_json (text "invalid log batch"), st)
append_batch name svc st logs (decoded t) =
    (no_content, record st { logs = some (localapp.Logstream.append name svc t logs) })

abbrev pub unknown_endpoint : Response
unknown_endpoint = write_error 404 code_not_found (text "no such endpoint")

abbrev unavailable : Str → Str → Response
unavailable name svc =
    write_error 404 code_not_found
      (text "log stream unavailable: " ++ name ++ b'/' ∷ svc ++ text " is not registered")

abbrev pub logs_window : Request → Str → Str → State → localapp.Logstream.Store → Response × State
logs_window r name svc st logs =
    if method_eq r.method method_get
    then (log_window (read_from name svc 0 logs), st)
    else guarded (not_allowed r.method (method_post ∷ [])) st
        (append_batch name svc st logs r.log_batch)

abbrev pub logs_rest :
    Request → Str → Str → State → localapp.Logstream.Store → List Str → Response × State
logs_rest r name svc st logs [] = logs_window r name svc st logs
logs_rest r name svc st logs (x ∷ []) =
    if str_eq x (text "stream")
    then guarded (not_allowed r.method (method_get ∷ [])) st
        (record { status = 200; allow = []; body = stream_body name svc }, st)
    else (unknown_endpoint, st)
logs_rest r name svc st logs (_ ∷ _ ∷ _) = (unknown_endpoint, st)

abbrev pub logs_of :
    Request → Str → Str → State → Option localapp.Logstream.Store → List Str → Response × State
logs_of r name svc st none rest = (unavailable name svc, st)
logs_of r name svc st (some logs) rest = logs_rest r name svc st logs rest

-- serveLogs
unfoldable pub serve_logs : Request → Str → Str → List Str → State → Response × State
serve_logs r name svc rest st =
    if not (is_registered name svc st)
    then (unavailable name svc, st)
    else logs_of r name svc st st.logs rest
