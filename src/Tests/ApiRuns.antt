-- ===== src/Tests/ApiRuns.antt =====
-- The Control Plane API: a registration by PUT, and the client's paths.
use localapp.Base.{◌≡◌, ◌⊎◌, refl, false, ◌&&◌, none, some, [], ◌∷◌, pos, map, if◌then◌else◌}
use localapp.Text.{Str, text, str_eq}
use localapp.Registry.{service_status}
use localapp.Registry.Names.{IsName, IsName, validate-IsName}
use localapp.Registry.Store.{Failure, failed, put}
use localapp.Registry.Store.Durable.{IsSound}
use localapp.Registry.Store.Runs.{fresh-IsSound}
use localapp.Registry.Store.Views.{view}
use localapp.Control.{ServiceRequest, Server, split_path, service_view, app_views, collect_all}
use localapp.Control.Messages.{
  method_put, Request, State, decoded, decode_error, service_body, write_json, write_err,
}
use localapp.Control.Routing.{endpoint, service_endpoint, serve_http}
use localapp.Control.Effects.{IsStep, serve_http-IsStep}
use localapp.Control.Routes.{registration, asked, put_service_effect}
use localapp.Control.Probes.{IsDistinct, status_app_view, app_views_lem}
use localapp.Client.{service_path}
use localapp.Client.Calls.{endpoint-paths}
use localapp.Registry.Store.Runs.{put_op, run}
use localapp.Tests.Fixtures.{
  web_service, no_faults, shop, domain, shop_app, registry_path, start, os,
}
use localapp.Tests.NameRuns.{shop-valid}

abbrev server : Server
server = record {
  domain = domain;
  version = [];
  listeners = [];
  probe_to = pos 200;
  uptime = 0;
  os = os;
  failure_text = λ step. [];
}

abbrev state : State
state = record { world = start; logs = none }

start-IsSound : IsSound state.world
start-IsSound = fresh-IsSound registry_path (λ e. cc)

abbrev wanted : ServiceRequest
wanted = record { port = some (pos 3000); path = []; strip_path = false; pid = pos 0 }

abbrev put_request : Request
put_request = record {
  method = method_put;
  path = service_path shop shop;
  service_request = decoded wanted;
  log_batch = decode_error [];
}

serve_http-IsStep_example : IsStep state (serve_http server no_faults put_request state)
serve_http-IsStep_example = serve_http-IsStep server no_faults state start-IsSound put_request

shop-IsName : IsName shop
shop-IsName = validate-IsName (text "app") shop shop-valid

put_request-endpoint : endpoint (split_path put_request.path) ≡ service_endpoint shop shop
put_request-endpoint = (endpoint-paths shop shop shop-IsName shop-IsName).3

put_service_effect_example :
    (((serve_http server no_faults put_request state).0
        ≡ write_json 200 (
            service_body (
              service_view server shop (registration shop wanted (pos 3000)) (
                some (
                  service_status server.os
                    (registration shop wanted (pos 3000))
                    server.probe_to)))))
      × ((a t : Str)
          → view (serve_http server no_faults put_request state).1.world.store.apps a t ≡ (
              if str_eq shop a && str_eq shop t
              then some (registration shop wanted (pos 3000))
              else view state.world.store.apps a t)))
    ⊎ ((f : Failure) × (put no_faults shop (asked shop wanted (pos 3000)) state.world
          ≡ (failed f, state.world))
        × (serve_http server no_faults put_request state ≡ (write_err server f, state)))
put_service_effect_example =
    put_service_effect server no_faults put_request state shop shop wanted (pos 3000) start-IsSound
      shop-IsName shop-IsName refl put_request-endpoint refl refl

app_views_lem_example :
    (app_views server (shop_app ∷ []) ≡ map (status_app_view server) (shop_app ∷ []))
    × IsDistinct (collect_all [] (shop_app ∷ []))
app_views_lem_example = app_views_lem server (shop_app ∷ [])

-- A daemon where shop/web is registered.
abbrev stocked : State
stocked = record { world = run start ((no_faults, put_op shop web_service) ∷ []); logs = none }
