-- ===== src/Control/Handlers.antt =====
-- internal/control/server.go: the handlers of apps and services. The lock of the registry makes each
-- call on it one step.
use localapp.Base.{Option, none, some, List, [], ◌∷◌, ◌++◌, ℤ}
use localapp.Text.{Str, text}
use localapp.Registry.{App, validate_name, service_status}
use localapp.Registry.Store.{
  Faults, rejected, World, PutResult, saved, failed, RemoveResult, removed, absent, not_removed,
  put, remove_app, remove_service, app, counts,
}
use localapp.Control.{
  AppView, ServiceRequest, code_validation, code_bad_json, code_not_found, Server, app_views,
  service_view,
}
use localapp.Registry.{invalid_port}
use localapp.Control.Messages.{
  Decoded, decoded, decode_error, Request, Body, no_body, status_body, apps_body, app_body,
  service_body, Response, State, write_json, write_error, write_err, no_content,
}

unfoldable pub handle_status : Server → State → Response
handle_status s st =
    let (apps, services) = counts st.world.store in
    write_json 200 (
      status_body (record {
        version = s.version;
        uptime_sec = s.uptime;
        domain = s.domain;
        listeners = s.listeners;
        apps = apps;
        services = services;
      }))

unfoldable pub handle_list_apps : Server → State → Response
handle_list_apps s st = write_json 200 (apps_body (app_views s st.world.store.apps))

abbrev first_view : List AppView → Body
first_view [] = no_body
first_view (v ∷ vs) = app_body v

abbrev found_app : Server → Str → Option App → Response
found_app s name none = write_error 404 code_not_found (text "app not found: " ++ name)
found_app s name (some a) = write_json 200 (first_view (app_views s (a ∷ [])))

unfoldable pub handle_get_app : Server → Str → State → Response
handle_get_app s name st = elim (validate_name (text "app") name) [
  | some e ↦ write_err s (rejected e)
  | none ↦ found_app s name (app st.world.store name)
]

abbrev pub put_response : Server → Str → State → PutResult × World → Response × State
put_response s name st (failed f, w) = (write_err s f, record st { world = w })
put_response s name st (saved svc, w) = (
  write_json 200
      (service_body (service_view s name svc (some (service_status s.os svc s.probe_to)))),
  record st { world = w },
)

abbrev pub put_port :
    Server → Faults → Str → Str → ServiceRequest → State → Option ℤ → Response × State
put_port s faults name svc req st none =
    (write_error 400 (code_validation invalid_port) (text "\"port\" is required"), st)
put_port s faults name svc req st (some port) = put_response s name st (
    put faults name
      (record {
        name = svc;
        port = port;
        path = req.path;
        strip_path = req.strip_path;
        pid = req.pid;
      })
      st.world)

abbrev pub put_decoded :
    Server → Faults → Str → Str → State → Decoded ServiceRequest → Response × State
put_decoded s faults name svc st (decode_error e) =
    (write_error 400 code_bad_json (text "request body must be a JSON object: " ++ e), st)
put_decoded s faults name svc st (decoded req) = put_port s faults name svc req st req.port

-- The two checks that start a handler of one service.
abbrev pub checked : Server → Str → Str → State → Response × State → Response × State
checked s name svc st rest = elim (validate_name (text "app") name) [
  | some e ↦ (write_err s (rejected e), st)
  | none ↦ elim (validate_name (text "service") svc) [
    | some e ↦ (write_err s (rejected e), st)
    | none ↦ rest
  ]
]

unfoldable pub handle_put_service : Server → Faults → Request → Str → Str → State → Response × State
handle_put_service s faults r name svc st =
    checked s name svc st (put_decoded s faults name svc st r.service_request)

abbrev pub remove_response : Server → Str → State → RemoveResult × World → Response × State
remove_response s message st (removed, w) = (no_content, record st { world = w })
remove_response s message st (absent, w) =
    (write_error 404 code_not_found message, record st { world = w })
remove_response s message st (not_removed f, w) = (write_err s f, record st { world = w })

unfoldable pub handle_delete_app : Server → Faults → Str → State → Response × State
handle_delete_app s faults name st = elim (validate_name (text "app") name) [
  | some e ↦ (write_err s (rejected e), st)
  | none ↦ remove_response s (text "app not found: " ++ name) st (remove_app faults name st.world)
]

unfoldable pub handle_delete_service : Server → Faults → Str → Str → State → Response × State
handle_delete_service s faults name svc st = checked s name svc st (
    remove_response s (text "service not found: " ++ name ++ b'/' ∷ svc) st
      (remove_service faults name svc st.world))
