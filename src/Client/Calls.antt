-- ===== src/Client/Calls.antt =====
-- The paths of client.go against the routing of server.go.
use localapp.Base.{
  ◌≡◌, ◌≢◌, refl, ap, sym, ◌∙◌, subst, false, List, [], ◌∷◌, ◌++◌, arith, All, append_assoc,
  All_mono,
}
use localapp.Text.{Str, text, split, contains, str_eq, trim, trim_left}
use localapp.Text.Order.{str_eq-eq-false}
use localapp.Text.Split.{join, IsFree}
use localapp.Text.Joined.{split-join, All-LastFull, LastFull-LastIsNot, LastFull}
use localapp.Text.Trim.{FirstIsNot, LastIsNot, trim_left_of_FirstIsNot, trim_right_of_LastIsNot}
use localapp.Domain.Labels.{name-contains}
use localapp.Registry.{is_name_byte}
use localapp.Registry.Names.{IsName}
use localapp.Control.{split_path, drop_empty}
use localapp.Control.Routing.{
  endpoint, status_endpoint, apps_endpoint, app_endpoint, service_endpoint, logs_endpoint,
}
use localapp.Client.{status_path, apps_path, app_path, service_path, logs_path, stream_path}

-- A segment of a path.
pub record IsSegment (s : Str) : Type 0 where
  pub full : s ≢ []
  pub free : IsFree b'/' s

pub name-IsSegment : (s : Str) → IsName s → IsSegment s
name-IsSegment [] h = absurd (omega (arith, h.nonempty))
name-IsSegment (c ∷ s) h = record {
  full = λ e. cc;
  free = name-contains b'/' (c ∷ s) (unfold is_name_byte in refl) h.bytes;
}

drop_empty-full : (ps : List Str) → All IsSegment ps → drop_empty ps ≡ ps
unfolding drop_empty
drop_empty-full [] h = refl
drop_empty-full (p ∷ ps) h = rw (str_eq-eq-false p [] h.0.full, drop_empty-full ps h.1)

segment-FirstIsNot : (p : Str) (ps : List Str) → IsSegment p → FirstIsNot b'/' (join b'/' (p ∷ ps))
unfolding join contains
segment-FirstIsNot [] ps h = absurd (h.full refl)
segment-FirstIsNot (c ∷ p) [] h = ground (arith, h.free)
segment-FirstIsNot (c ∷ p) (q ∷ ps) h = ground (arith, h.free)

trim-rooted : (t : Str) → FirstIsNot b'/' t → LastIsNot b'/' t → trim b'/' (b'/' ∷ t) ≡ t
unfolding trim trim_left
trim-rooted t f l = rw (trim_left_of_FirstIsNot b'/' t f) (trim_right_of_LastIsNot b'/' t l)

-- The segments of a path that was joined from segments.
split_path-join :
    (p : Str) (ps : List Str)
    → All IsSegment (p ∷ ps)
    → split_path (b'/' ∷ join b'/' (p ∷ ps)) ≡ p ∷ ps
unfolding split_path
split_path-join p ps h =
    let t = join b'/' (p ∷ ps) in
    let parts : split b'/' t ≡ p ∷ ps =
      split-join b'/' p ps (All_mono IsSegment (IsFree b'/') (λ q k. k.free) (p ∷ ps) h) in
    let last : LastIsNot b'/' t = LastFull-LastIsNot b'/' t (
      subst LastFull (sym parts)
        (All-LastFull (p ∷ ps) (All_mono IsSegment (λ q. q ≢ []) (λ q k. k.full) (p ∷ ps) h))) in
    rw (trim-rooted t (segment-FirstIsNot p ps h.0) last, parts) (drop_empty-full (p ∷ ps) h)

literal : (s : Str) → s ≢ [] → contains b'/' s ≡ false → IsSegment s
literal s full free = record { full = full; free = free }

v1 : IsSegment (text "v1")
unfolding text contains
v1 = literal (text "v1") (λ e. cc) refl

apps : IsSegment (text "apps")
unfolding text contains
apps = literal (text "apps") (λ e. cc) refl

services : IsSegment (text "services")
unfolding text contains
services = literal (text "services") (λ e. cc) refl

logs : IsSegment (text "logs")
unfolding text contains
logs = literal (text "logs") (λ e. cc) refl

stream : IsSegment (text "stream")
unfolding text contains
stream = literal (text "stream") (λ e. cc) refl

status_word : IsSegment (text "status")
unfolding text contains
status_word = literal (text "status") (λ e. cc) refl

-- The parts of each path.
status_path-parts : split_path status_path ≡ text "v1" ∷ text "status" ∷ []
unfolding status_path text join
status_path-parts = split_path-join (text "v1") (text "status" ∷ []) (v1, (status_word, tt))

apps_path-parts : split_path apps_path ≡ text "v1" ∷ text "apps" ∷ []
unfolding apps_path text join
apps_path-parts = split_path-join (text "v1") (text "apps" ∷ []) (v1, (apps, tt))

module _ (app svc : Str) (a : IsName app) (s : IsName svc) where
  app_segment : IsSegment app
  app_segment = name-IsSegment app a

  svc_segment : IsSegment svc
  svc_segment = name-IsSegment svc s

  app_path-parts : split_path (app_path app) ≡ text "v1" ∷ text "apps" ∷ app ∷ []
  unfolding app_path text join
  app_path-parts =
      split_path-join (text "v1") (text "apps" ∷ app ∷ []) (v1, (apps, (app_segment, tt)))

  service_path-parts :
      split_path (service_path app svc) ≡ text "v1" ∷ text "apps" ∷ app ∷ text "services" ∷ svc ∷ []
  unfolding service_path text join
  service_path-parts =
      ap split_path (append_assoc (text "/v1/apps/" ++ app) (text "/services/") svc)
      ∙ ap split_path (append_assoc (text "/v1/apps/") app (text "/services/" ++ svc))
      ∙ split_path-join (text "v1") (text "apps" ∷ app ∷ text "services" ∷ svc ∷ [])
          (v1, (apps, (app_segment, (services, (svc_segment, tt)))))

  nested :
      (t : Str)
      → service_path app svc ++ t ≡ text "/v1/apps/" ++ (app ++ (text "/services/" ++ (svc ++ t)))
  unfolding service_path
  nested t =
      append_assoc (text "/v1/apps/" ++ app ++ text "/services/") svc t
      ∙ append_assoc (text "/v1/apps/" ++ app) (text "/services/") (svc ++ t)
      ∙ append_assoc (text "/v1/apps/") app (text "/services/" ++ (svc ++ t))

  logs_path-parts :
      split_path (logs_path app svc)
      ≡ text "v1" ∷ text "apps" ∷ app ∷ text "services" ∷ svc ∷ text "logs" ∷ []
  unfolding logs_path service_path text join
  logs_path-parts =
      ap split_path (nested (text "/logs"))
      ∙ split_path-join (text "v1") (text "apps" ∷ app ∷ text "services" ∷ svc ∷ text "logs" ∷ [])
          (v1, (apps, (app_segment, (services, (svc_segment, (logs, tt))))))

  stream_path-parts :
      split_path (stream_path app svc)
      ≡ text "v1" ∷ text "apps" ∷ app ∷ text "services" ∷ svc ∷ text "logs" ∷ text "stream" ∷ []
  unfolding stream_path service_path text join
  stream_path-parts =
      ap split_path (nested (text "/logs/stream"))
      ∙ split_path-join (text "v1")
          (text "apps" ∷ app ∷ text "services" ∷ svc ∷ text "logs" ∷ text "stream" ∷ [])
          (v1, (apps, (app_segment, (services, (svc_segment, (logs, (stream, tt)))))))

  -- For valid app and service names, the six paths that the client calls reach the endpoints that
  -- they are meant for, with the names as they are.
  pub endpoint-paths :
      (endpoint (split_path status_path) ≡ status_endpoint)
      × (endpoint (split_path apps_path) ≡ apps_endpoint)
      × (endpoint (split_path (app_path app)) ≡ app_endpoint app)
      × (endpoint (split_path (service_path app svc)) ≡ service_endpoint app svc)
      × (endpoint (split_path (logs_path app svc)) ≡ logs_endpoint app svc [])
      × (endpoint (split_path (stream_path app svc)) ≡ logs_endpoint app svc (text "stream" ∷ []))
  unfolding endpoint str_eq text
  endpoint-paths = (
    ap endpoint status_path-parts,
    ap endpoint apps_path-parts,
    ap endpoint app_path-parts,
    ap endpoint service_path-parts,
    ap endpoint logs_path-parts,
    ap endpoint stream_path-parts,
  )
