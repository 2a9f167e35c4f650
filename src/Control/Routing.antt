-- ===== src/Control/Routing.antt =====
-- internal/control/server.go, ServeHTTP: from the path of a request to its handler.
use localapp.Base.{◌&&◌, List, [], ◌∷◌, if◌then◌else◌}
use localapp.Text.{Str, text, str_eq}
use localapp.Registry.Store.{Faults}
use localapp.Control.{Server, split_path}
use localapp.Control.Messages.{
  method_get, method_put, method_delete, method_eq, Request, Response, State, not_allowed, guarded,
}
use localapp.Control.Handlers.{
  handle_status, handle_list_apps, handle_get_app, handle_put_service, handle_delete_app,
  handle_delete_service,
}
use localapp.Control.Logs.{unknown_endpoint, serve_logs}

-- The endpoints that ServeHTTP tells apart.
pub data Endpoint : Type 0 where
  logs_endpoint : Str → Str → List Str → Endpoint
  status_endpoint apps_endpoint no_endpoint : Endpoint
  app_endpoint : Str → Endpoint
  service_endpoint : Str → Str → Endpoint

-- The conditions of ServeHTTP on the parts of the path, in their order.
unfoldable pub endpoint : List Str → Endpoint
endpoint (v ∷ a ∷ name ∷ s ∷ svc ∷ l ∷ rest) =
    if str_eq v (text "v1")
      && str_eq a (text "apps")
      && str_eq s (text "services")
      && str_eq l (text "logs")
    then logs_endpoint name svc rest
    else no_endpoint
endpoint (v ∷ a ∷ []) =
    if str_eq v (text "v1") && str_eq a (text "status")
    then status_endpoint
    else if str_eq v (text "v1") && str_eq a (text "apps")
    then apps_endpoint
    else no_endpoint
endpoint (v ∷ a ∷ name ∷ []) =
    if str_eq v (text "v1") && str_eq a (text "apps") then app_endpoint name else no_endpoint
endpoint (v ∷ a ∷ name ∷ s ∷ svc ∷ []) =
    if str_eq v (text "v1") && str_eq a (text "apps") && str_eq s (text "services")
    then service_endpoint name svc
    else no_endpoint
endpoint _ = no_endpoint

unfoldable pub dispatch : Server → Faults → Request → State → Endpoint → Response × State
dispatch s faults r st (logs_endpoint name svc rest) = serve_logs r name svc rest st
dispatch s faults r st status_endpoint =
    guarded (not_allowed r.method (method_get ∷ [])) st (handle_status s st, st)
dispatch s faults r st apps_endpoint =
    guarded (not_allowed r.method (method_get ∷ [])) st (handle_list_apps s st, st)
dispatch s faults r st (app_endpoint name) =
    guarded (not_allowed r.method (method_get ∷ method_delete ∷ [])) st (
      if method_eq r.method method_get
      then (handle_get_app s name st, st)
      else handle_delete_app s faults name st)
dispatch s faults r st (service_endpoint name svc) =
    guarded (not_allowed r.method (method_put ∷ method_delete ∷ [])) st (
      if method_eq r.method method_put
      then handle_put_service s faults r name svc st
      else handle_delete_service s faults name svc st)
dispatch s faults r st no_endpoint = (unknown_endpoint, st)

-- ServeHTTP
unfoldable pub serve_http : Server → Faults → Request → State → Response × State
serve_http s faults r st = dispatch s faults r st (endpoint (split_path r.path))
