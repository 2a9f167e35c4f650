-- ===== src/Proxy.antt =====
-- internal/proxy/route.go and proxy.go: from a Host header and a path to a target.
pub mod Mounts
pub mod Hosts
pub mod Routing
pub mod Mounted
pub mod Forward
use localapp.Base.{
  ℕ, ◌≡◌, true, false, Bool, not, ◌&&◌, ◌||◌, Option, none, some, List, [], ◌∷◌, ◌++◌, length, ltb,
  ◌==◌, if◌then◌else◌, ℤ, pos,
}
use localapp.Text.{
  Str, text, str_eq, has_prefix, cut_prefix, cut_suffix, trim_suffix, trim_prefix, split, to_lower,
}
use localapp.Net.{trim_space, split_host_port}
use localapp.Registry.{
  Service, App, Status, up, down, Os, service, default_service, normalize_path, service_status,
}

-- routeKind
pub data Kind : Type 0 where
  route_proxy route_apex route_unknown_host route_unknown_app : Kind
  route_unknown_service route_no_default : Kind

pub record Route : Type 0 where
  pub kind : Kind
  pub host : Str
  pub app_name : Str
  pub svc_name : Str
  pub app : App
  pub svc : Service
  pub mount : Str

abbrev zero_service : Service
zero_service = record { name = []; port = pos 0; path = []; strip_path = false; pid = pos 0 }

abbrev zero_app : App
zero_app = record { name = []; services = [] }

abbrev pub new_route : Str → Route
new_route h = record {
  kind = route_proxy;
  host = h;
  app_name = [];
  svc_name = [];
  app = zero_app;
  svc = zero_service;
  mount = [];
}

-- What the proxy reads: the domain, the probe timeout, and `App` of its store.
pub record Proxy : Type 0 where
  pub domain : Str
  pub probe_to : ℤ
  pub lookup : Str → Option App

abbrev or_whole : Str → Option Str → Str
or_whole h none = h
or_whole h (some host) = host

unfoldable pub normalize_host : (Str → Str) → Str → Str
normalize_host unicode host =
    let h = trim_space host in
    let bare = or_whole h (split_host_port h) in
    to_lower unicode
      (trim_suffix (trim_prefix (trim_suffix bare (b'.' ∷ [])) (b'[' ∷ [])) (b']' ∷ []))

unfoldable pub path_has_prefix : Str → Str → Bool
path_has_prefix path mount = str_eq path mount || has_prefix path (mount ++ b'/' ∷ [])

abbrev pub Match : Type 0
Match = Option (Service × Str)

abbrev longer : Service → Str → Match → Match
longer svc mount none = some (svc, mount)
longer svc mount (some (best, best_mount)) =
    if ltb (length best_mount) (length mount) then some (svc, mount) else some (best, best_mount)

-- The loop of matchPath over the services, with the best match so far.
match_from : Str → Match → List Service → Match
match_from path best [] = best
match_from path best (svc ∷ services) =
    let mount = normalize_path svc.path in
    match_from path
      (if str_eq mount [] || not (path_has_prefix path mount) then best else longer svc mount best)
      services

unfoldable pub match_path : App → Str → Match
unfolding match_from
match_path app path = match_from path none app.services

-- No mount matched: the default service.
abbrev resolve_default : Route → Option Service → Route
resolve_default r none = record r { kind = route_no_default; svc_name = default_service }
resolve_default r (some svc) = record r { kind = route_proxy; svc = svc; svc_name = svc.name }

abbrev resolve_mount : Route → App → Match → Route
resolve_mount r app none = resolve_default r (service app default_service)
resolve_mount r app (some (svc, mount)) = record r {
  kind = route_proxy;
  svc = svc;
  svc_name = svc.name;
  mount = mount;
}

abbrev resolve_named : Route → Option Service → Route
resolve_named r none = record r { kind = route_unknown_service }
resolve_named r (some svc) = record r { kind = route_proxy; svc = svc }

-- From the names to the service, once the labels are read.
unfoldable pub resolve_app : Str → Route → Option App → Route
resolve_app path r none = record r { kind = route_unknown_app }
resolve_app path r (some app) =
    let found = record r { app = app } in
    if not (str_eq r.svc_name [])
    then resolve_named found (service app r.svc_name)
    else resolve_mount found app (match_path app path)

-- One label is an app, two are a service and an app; other hosts are not defined.
unfoldable pub resolve_labels : Proxy → Str → Route → List Str → Route
resolve_labels p path r (app ∷ []) = resolve_app path (record r { app_name = app }) (p.lookup app)
resolve_labels p path r (svc ∷ app ∷ []) =
    resolve_app path (record r { svc_name = svc; app_name = app }) (p.lookup app)
resolve_labels p path r _ = record r { kind = route_unknown_host }

abbrev resolve_sub : Proxy → Str → Route → Option Str → Route
resolve_sub p path r none = record r { kind = route_unknown_host }
resolve_sub p path r (some sub) =
    if str_eq sub []
    then record r { kind = route_unknown_host }
    else resolve_labels p path r (split b'.' sub)

unfoldable pub resolve : (Str → Str) → Proxy → Str → Str → Route
resolve unicode p host path =
    let h = normalize_host unicode host in
    if str_eq h p.domain
    then record (new_route h) { kind = route_apex }
    else resolve_sub p path (new_route h) (cut_suffix h (b'.' ∷ p.domain))
