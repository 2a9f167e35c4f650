-- ===== src/Tests/PageRuns.antt =====
-- The dashboard: a removal with the token, and the bound on log streams. The configuration.
use localapp.Base.{refl, none, some, List, [], ◌∷◌, ◌++◌, map, ◌≡◌, pos, arith}
use localapp.Text.{Str, text}
use localapp.Registry.Store.Durable.{IsSound}
use localapp.Registry.Store.Runs.{fresh-IsSound}
use localapp.Dashboard.Contents.{Handler, listing}
use localapp.Dashboard.{post, get, Request, State, serve_http}
use localapp.Dashboard.Statuses.{own_app_view, all_services, all_ups, listing_lem}
use localapp.Dashboard.Effects.{IsEffect, serve_http-IsEffect}
use localapp.Dashboard.Streams.{
  Live, Happening, request, count, back_off, hangup, run, IsBounded, run-IsBounded,
}
use localapp.Config.{Config, load, non_default_env}
use localapp.Config.RoundTrip.{IsLoadable, load-non_default_env}
use localapp.Tests.Fixtures.{no_faults, shop, web, domain, shop_app, registry_path, start, os}

abbrev handler : Handler
handler = record {
  domain = domain;
  version = [];
  listeners = [];
  probe_to = pos 200;
  csrf_token = web;
  os = os;
  encode = λ app service. app;
  failure_text = λ f. [];
}

abbrev state : State
state = record {
  world = start;
  logs = some (record { entries = []; subs = []; clock = 0 });
  streams = 0;
}

abbrev delete_request : Request
delete_request = record {
  method = post;
  path = text "/delete";
  query_app = [];
  query_service = [];
  form = some (record { csrf_token = web; app = shop; service = web });
}

abbrev stream_request : Request
stream_request = record {
  method = get;
  path = text "/logs/stream";
  query_app = shop;
  query_service = web;
  form = none;
}

start-IsSound : IsSound state.world
start-IsSound = fresh-IsSound registry_path (λ e. cc)

serve_http-IsEffect_example :
    IsEffect handler no_faults delete_request state
      (serve_http handler no_faults delete_request state).1.world
serve_http-IsEffect_example = serve_http-IsEffect handler no_faults delete_request state

listing_lem_example :
    ((listing handler (shop_app ∷ [])).apps ≡ map (own_app_view handler) (shop_app ∷ []))
    × ((listing handler (shop_app ∷ [])).services ≡ all_services (shop_app ∷ []))
    × ((listing handler (shop_app ∷ [])).up ≡ all_ups handler (shop_app ∷ []))
listing_lem_example = listing_lem handler (shop_app ∷ [])

abbrev idle : Live
idle = record { state = state; live = 0; refused = 0 }

idle-IsBounded : IsBounded idle
idle-IsBounded = record { exact = refl; bounded = omega arith }

abbrev visits : List Happening
visits = request no_faults stream_request ∷ count ∷ hangup ∷ back_off ∷ []

run-IsBounded_example : IsBounded (run handler idle visits)
run-IsBounded_example = run-IsBounded handler idle visits idle-IsBounded

-- A daemon on another port, for a service manager.
abbrev config : Config
config = record {
  domain = domain;
  state_dir = text "/s";
  socket_path = text "/s/control.sock";
  dns_port = 15353;
  http_port = 8080;
  https_port = 443;
}

abbrev join : Str → Str → Str
join dir name = dir ++ b'/' ∷ name

config-IsLoadable : IsLoadable config
unfolding text
config-IsLoadable = record {
  domain = λ e. cc;
  state_dir = λ e. cc;
  socket = λ e. cc;
  dns = (omega arith, omega arith);
  http = (omega arith, omega arith);
  https = (omega arith, omega arith);
}

load-non_default_env_example :
    load join (text "/d") (non_default_env join (text "/d") config) ≡ config
load-non_default_env_example = load-non_default_env join (text "/d") config config-IsLoadable
