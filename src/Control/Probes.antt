-- ===== src/Control/Probes.antt =====
-- The liveness that appViews reports, against that of each service by itself.
use localapp.Base.{
  ◌≡◌, refl, ap, true, false, Bool, not, some, List, [], ◌∷◌, map, if◌then◌else◌, All, All_mono, ℤ,
  eqb_ℤ, eqb_ℤ→eq, eqb_ℤ_refl, Bool-cases, inl, inr, arith,
}
use localapp.Text.{Str}
use localapp.Registry.{Service, App, process_alive, status, service_status}
use localapp.Control.{
  ServiceView, AppView, Server, has_port, collect_ports, collect_all, lookup_port, probe_all,
  service_view, probed_view, app_views,
}

lookup-probe :
    (s : Server) (port : ℤ) (ports : List ℤ)
    → has_port port ports ≡ true
    → lookup_port port (probe_all s ports) ≡ some (status s.os port s.probe_to)
unfolding has_port lookup_port probe_all
lookup-probe s port [] h = cc
lookup-probe s port (p ∷ ports) h = elim (Bool-cases (eqb_ℤ p port)) [
  | inl e ↦ rw e (ap (λ q. some (status s.os q s.probe_to)) (eqb_ℤ→eq p port e))
  | inr e ↦ rw e (lookup-probe s port ports (rw e at h))
]

-- A port that was seen stays seen.
collect_ports-keep :
    (port : ℤ) (services : List Service) (ports : List ℤ)
    → has_port port ports ≡ true
    → has_port port (collect_ports ports services) ≡ true
unfolding collect_ports
collect_ports-keep port [] ports h = h
collect_ports-keep port (svc ∷ services) ports h =
    collect_ports-keep port services _ (added (has_port svc.port ports))
  where
    added : (b : Bool) → has_port port (if not b then svc.port ∷ ports else ports) ≡ true
    added true = h
    added false = unfold has_port in (ground arith)

collect_all-keep :
    (port : ℤ) (apps : List App) (ports : List ℤ)
    → has_port port ports ≡ true
    → has_port port (collect_all ports apps) ≡ true
unfolding collect_all
collect_all-keep port [] ports h = h
collect_all-keep port (a ∷ apps) ports h =
    collect_all-keep port apps (collect_ports ports a.services)
      (collect_ports-keep port a.services ports h)

has_port-first : (port : ℤ) (ports : List ℤ) → has_port port (port ∷ ports) ≡ true
unfolding has_port
has_port-first port ports = rw (eqb_ℤ_refl port)

abbrev Seen : List ℤ → Service → Type 0
Seen ports svc = has_port svc.port ports ≡ true

collect_ports-Seen :
    (services : List Service) (ports : List ℤ) → All (Seen (collect_ports ports services)) services
unfolding collect_ports
collect_ports-Seen [] ports = tt
collect_ports-Seen (svc ∷ services) ports = (
  collect_ports-keep svc.port services _ (added (has_port svc.port ports) refl),
  collect_ports-Seen services _,
)
  where
    added :
        (b : Bool)
        → has_port svc.port ports ≡ b
        → has_port svc.port (if not b then svc.port ∷ ports else ports) ≡ true
    added true h = h
    added false h = has_port-first svc.port ports

collect_all-Seen :
    (apps : List App) (ports : List ℤ)
    → All (λ a. All (Seen (collect_all ports apps)) a.services) apps
unfolding collect_all
collect_all-Seen [] ports = tt
collect_all-Seen (a ∷ apps) ports =
    let here = collect_ports ports a.services in
    (
      All_mono (Seen here) (Seen (collect_all here apps))
          (λ svc h. collect_all-keep svc.port apps here h) a.services
          (collect_ports-Seen a.services ports),
      collect_all-Seen apps here,
    )

-- Each port occurs once, so it is probed once.
pub IsDistinct : List ℤ → Type 0
IsDistinct [] = Unit
IsDistinct (p ∷ ports) = (has_port p ports ≡ false) × IsDistinct ports

collect_ports-IsDistinct :
    (services : List Service) (ports : List ℤ)
    → IsDistinct ports
    → IsDistinct (collect_ports ports services)
unfolding collect_ports
collect_ports-IsDistinct [] ports h = h
collect_ports-IsDistinct (svc ∷ services) ports h =
    collect_ports-IsDistinct services _ (added (has_port svc.port ports) refl)
  where
    added :
        (b : Bool)
        → has_port svc.port ports ≡ b
        → IsDistinct (if not b then svc.port ∷ ports else ports)
    added true e = h
    added false e = unfold IsDistinct in (e, h)

collect_all-IsDistinct :
    (apps : List App) (ports : List ℤ) → IsDistinct ports → IsDistinct (collect_all ports apps)
unfolding collect_all
collect_all-IsDistinct [] ports h = h
collect_all-IsDistinct (a ∷ apps) ports h =
    collect_all-IsDistinct apps (collect_ports ports a.services)
      (collect_ports-IsDistinct a.services ports h)

-- The view of a service with the status that ServiceStatus gives it.
status_view : Server → Str → Service → ServiceView
status_view s app svc = service_view s app svc (some (service_status s.os svc s.probe_to))

pub status_app_view : Server → App → AppView
status_app_view s a = record { name = a.name; services = map (status_view s a.name) a.services }

probed-status :
    (s : Server) (ports : List ℤ) (app : Str) (svc : Service)
    → Seen ports svc
    → probed_view s (probe_all s ports) app svc ≡ status_view s app svc
unfolding probed_view status_view service_status
probed-status s ports app svc h = elim (Bool-cases (process_alive s.os svc.pid)) [
  | inl e ↦ rw (e, lookup-probe s svc.port ports h) refl
  | inr e ↦ rw e refl
]

map_of_All {ℓ κ μ} :
    {A : Type ℓ} {B : Type κ} (P : A → Type μ) (f g : A → B)
    → ((a : A) → P a → f a ≡ g a)
    → (xs : List A) → All P xs
    → map f xs ≡ map g xs
map_of_All P f g e [] h = refl
map_of_All P f g e (x ∷ xs) h = rw (e x h.0, map_of_All P f g e xs h.1)

-- Probing each distinct port once gives every service the status that ServiceStatus gives it by
-- itself, and no port is probed twice.
pub app_views_lem :
    (s : Server) (apps : List App)
    → (app_views s apps ≡ map (status_app_view s) apps) × IsDistinct (collect_all [] apps)
unfolding app_views status_app_view
app_views_lem s apps = (
  map_of_All (λ a. All (Seen (collect_all [] apps)) a.services) _ (status_app_view s)
      (λ a h.
        ap (λ views. record { name = a.name; services = views })
          (map_of_All (Seen (collect_all [] apps)) _ (status_view s a.name)
            (probed-status s (collect_all [] apps) a.name) a.services h))
      apps (collect_all-Seen apps []),
  collect_all-IsDistinct apps [] (unfold IsDistinct in tt),
)
