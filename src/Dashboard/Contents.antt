-- ===== src/Dashboard/Contents.antt =====
-- internal/dashboard/dashboard.go, data: the contents of the listing page.
use localapp.Base.{
  ℕ, suc, ◌+◌, true, false, Bool, ◌&&◌, ◌==◌, Option, none, some, List, [], ◌∷◌, ◌++◌,
  if◌then◌else◌, ℤ, length,
}
use localapp.Text.{Str, text}
use localapp.Keyed.{sort_by_name}
use localapp.Registry.{Service, App, Status, up, down, Os, urls, normalize_path, service_status}
use localapp.Registry.Store.{Failure}

-- The fields of the handler that its pages read. `encode` is the encoding of a query with an app
-- and a service; `failure_text` the text of an error.
pub record Handler : Type 0 where
  pub domain : Str
  pub version : Str
  pub listeners : List (Str × Str)
  pub probe_to : ℤ
  pub csrf_token : Str
  pub os : Os
  pub encode : Str → Str → Str
  pub failure_text : Failure → Str

pub record ServiceView : Type 0 where
  pub name : Str
  pub port : ℤ
  pub path : Str
  pub pid : ℤ
  pub status : Option Status
  pub up : Bool
  pub urls : List Str
  pub delete_url : Str
  pub logs_url : Str

pub record AppView : Type 0 where
  pub name : Str
  pub services : List ServiceView

pub record Listing : Type 0 where
  pub domain : Str
  pub version : Str
  pub apps : List AppView
  pub services : ℕ
  pub up : ℕ
  pub listeners : List (Str × Str)

-- A `ref`: the position of an app, and of a service in it. The services go with theirs.
abbrev pub Ref : Type 0
Ref = ℕ × ℕ

unfoldable pub app_refs : ℕ → ℕ → List Service → List (Ref × Service)
app_refs i j [] = []
app_refs i j (svc ∷ services) = ((i, j), svc) ∷ app_refs i (suc j) services

unfoldable pub refs : ℕ → List App → List (Ref × Service)
unfolding app_refs
refs i [] = []
refs i (a ∷ apps) = app_refs i 0 a.services ++ refs (suc i) apps

-- The map `statusOf`, as the probes fill it.
unfoldable pub status_of : Handler → List (Ref × Service) → Ref → Option Status
status_of h [] r = none
status_of h (((i, j), svc) ∷ rest) (k, l) =
    if i == k && j == l then some (service_status h.os svc h.probe_to) else status_of h rest (k, l)

abbrev pub is_up : Option Status → Bool
is_up (some up) = true
is_up (some down) = false
is_up none = false

unfoldable pub service_view : Handler → Str → Service → Option Status → ServiceView
service_view h app svc st = record {
  name = svc.name;
  port = svc.port;
  path = normalize_path svc.path;
  pid = svc.pid;
  status = st;
  up = is_up st;
  urls = urls svc app h.domain;
  delete_url = text "/delete?" ++ h.encode app svc.name;
  logs_url = text "/logs?" ++ h.encode app svc.name;
}

abbrev pub service_views :
    Handler → (Ref → Option Status) → Str → ℕ → ℕ → List Service → List ServiceView
service_views h statuses app i j [] = []
service_views h statuses app i j (svc ∷ services) =
    service_view h app svc (statuses (i, j)) ∷ service_views h statuses app i (suc j) services

unfoldable pub app_views : Handler → (Ref → Option Status) → ℕ → List App → List AppView
app_views h statuses i [] = []
app_views h statuses i (a ∷ apps) =
    record { name = a.name; services = service_views h statuses a.name i 0 a.services }
    ∷ app_views h statuses (suc i) apps

-- The counters of the loop: every service, and every service that is up.
unfoldable pub count_up : List ServiceView → ℕ
count_up [] = 0
count_up (v ∷ views) = (if v.up then 1 else 0) + count_up views

unfoldable pub count_views : List AppView → ℕ × ℕ
unfolding count_up
count_views [] = (0, 0)
count_views (a ∷ apps) =
    let (services, ups) = count_views apps in
    (length a.services + services, count_up a.services + ups)

-- listenerViews
unfoldable pub listener_views : List (Str × Str) → List (Str × Str)
listener_views m = sort_by_name (λ (l : Str × Str). l.0) m

unfoldable pub listing : Handler → List App → Listing
listing h apps =
    let views = app_views h (status_of h (refs 0 apps)) 0 apps in
    let (services, ups) = count_views views in
    record {
      domain = h.domain;
      version = h.version;
      apps = views;
      services = services;
      up = ups;
      listeners = listener_views h.listeners;
    }
