-- ===== src/Control.antt =====
-- internal/control/types.go and server.go: the types of the Control Plane API, and the views of the
-- registry that it answers with.
pub mod Messages
pub mod Handlers
pub mod Logs
pub mod Routing
pub mod Probes
pub mod Routes
pub mod Effects
use localapp.Base.{
  ℕ, true, false, Bool, not, Option, none, some, List, [], ◌∷◌, map, if◌then◌else◌, ℤ, pos, eqb_ℤ,
  ltb_ℤ,
}
use localapp.Text.{Str, str_eq, text, split, trim}
use localapp.Registry.{
  Service, App, Code, ValidationError, Status, up, down, Os, urls, process_alive, status,
  default_probe_timeout,
}
use localapp.Registry.Store.{SaveStep}

pub record ServiceView : Type 0 where
  pub app : Str
  pub service : Str
  pub port : ℤ
  pub path : Str
  pub strip_path : Bool
  pub pid : ℤ
  pub status : Option Status
  pub urls : List Str

pub record AppView : Type 0 where
  pub name : Str
  pub services : List ServiceView

pub record StatusResponse : Type 0 where
  pub version : Str
  pub uptime_sec : ℕ
  pub domain : Str
  pub listeners : List (Str × Str)
  pub apps : ℕ
  pub services : ℕ

-- The body of a PUT; a missing or null port is `none`.
pub record ServiceRequest : Type 0 where
  pub port : Option ℤ
  pub path : Str
  pub strip_path : Bool
  pub pid : ℤ

-- The error codes: those of validation, and those of the API.
pub data ApiCode : Type 0 where
  code_validation : Code → ApiCode
  code_bad_json code_not_found code_method_not_allowed code_internal : ApiCode

pub record ErrorDetail : Type 0 where
  pub code : ApiCode
  pub message : Str

-- What the handlers read: the options, and what the operating system answers. `failure_text` is
-- the text of an error of the file system, `uptime` the seconds since the start.
pub record Server : Type 0 where
  pub domain : Str
  pub version : Str
  pub listeners : List (Str × Str)
  pub probe_to : ℤ
  pub uptime : ℕ
  pub os : Os
  pub failure_text : SaveStep → Str

-- NewServer: the defaults of the domain and of the probe timeout.
unfoldable new_server : Server → Server
new_server s = record s {
  domain = if str_eq s.domain [] then text "localapp" else s.domain;
  probe_to = if not (ltb_ℤ (pos 0) s.probe_to) then default_probe_timeout else s.probe_to;
}

unfoldable pub drop_empty : List Str → List Str
drop_empty [] = []
drop_empty (x ∷ xs) = let rest = drop_empty xs in if not (str_eq x []) then x ∷ rest else rest

-- splitPath
unfoldable pub split_path : Str → List Str
unfolding drop_empty
split_path p = drop_empty (split b'/' (trim b'/' p))

-- The map `seen`, and the ports in the order in which they are first seen.
unfoldable pub has_port : ℤ → List ℤ → Bool
has_port port [] = false
has_port port (p ∷ ports) = if eqb_ℤ p port then true else has_port port ports

unfoldable pub collect_ports : List ℤ → List Service → List ℤ
collect_ports ports [] = ports
collect_ports ports (svc ∷ services) =
    collect_ports (if not (has_port svc.port ports) then svc.port ∷ ports else ports) services

unfoldable pub collect_all : List ℤ → List App → List ℤ
collect_all ports [] = ports
collect_all ports (a ∷ apps) = collect_all (collect_ports ports a.services) apps

-- The map `status`: the ports with what their probes found.
unfoldable pub lookup_port : ℤ → List (ℤ × Status) → Option Status
lookup_port port [] = none
lookup_port port ((p, st) ∷ statuses) = if eqb_ℤ p port then some st else lookup_port port statuses

unfoldable pub probe_all : Server → List ℤ → List (ℤ × Status)
probe_all s [] = []
probe_all s (port ∷ ports) = (port, status s.os port s.probe_to) ∷ probe_all s ports

unfoldable pub service_view : Server → Str → Service → Option Status → ServiceView
service_view s app svc st = record {
  app = app;
  service = svc.name;
  port = svc.port;
  path = svc.path;
  strip_path = svc.strip_path;
  pid = svc.pid;
  status = st;
  urls = urls svc app s.domain;
}

-- With a pid whose process has ended, the service is down.
unfoldable pub probed_view : Server → List (ℤ × Status) → Str → Service → ServiceView
probed_view s statuses app svc =
    service_view s app svc
      (if not (process_alive s.os svc.pid) then some down else lookup_port svc.port statuses)

abbrev app_view : Server → List (ℤ × Status) → App → AppView
app_view s statuses a = record {
  name = a.name;
  services = map (probed_view s statuses a.name) a.services;
}

-- appViews; the probes run concurrently, and each fills its own place.
unfoldable pub app_views : Server → List App → List AppView
app_views s apps = map (app_view s (probe_all s (collect_all [] apps))) apps
