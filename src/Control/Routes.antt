-- ===== src/Control/Routes.antt =====
-- A registration through the API: what PUT stores, and what GET and the logs then see.
use localapp.Base.{
  ◌≡◌, ◌⊎◌, refl, ap, ◌∙◌, true, false, ◌&&◌, Option, none, some, if◌then◌else◌, ◌>>=◌, inl, inr,
  arith, ℤ,
}
use localapp.Text.{Str, text, str_eq}
use localapp.Registry.{Service, App, service, app_name, service_name, service_status}
use localapp.Registry.Names.{IsName, IsName-validate}
use localapp.Registry.Store.{Faults, World, PutResult, saved, failed, put, normalized, Failure}
use localapp.Registry.Store.Durable.{IsSound}
use localapp.Registry.Store.Views.{view, app-find}
use localapp.Registry.Store.Operations.{put_effect}
use localapp.Keyed.{find}
use localapp.Control.{ServiceRequest, Server, service_view, split_path}
use localapp.Control.Messages.{
  method_put, method_eq, Request, State, decoded, service_body, not_allowed, write_json, write_err,
}
use localapp.Control.Routing.{serve_http, dispatch, endpoint, service_endpoint}
use localapp.Control.Handlers.{handle_put_service, put_response, checked}
use localapp.Control.Logs.{is_registered}

-- The logs endpoints take a service for registered exactly if the registry maps it.
is_registered-view :
    (name svc : Str) (st : State)
    → is_registered name svc st
      ≡ elim (view st.world.store.apps name svc) [ none ↦ false | some _ ↦ true ]
unfolding is_registered view service
is_registered-view name svc st =
    rw (app-find st.world.store name, is_registered)
      (registered (find app_name name st.world.store.apps))
  where
    registered :
        (a : Option App)
        → (elim a [ none ↦ false | some x ↦ elim (service x svc) [ none ↦ false | some _ ↦ true ] ])
          ≡ elim (a >>= λ x. find service_name svc x.services) [ none ↦ false | some _ ↦ true ]
    registered none = refl
    registered (some x) = refl

-- The service that a PUT asks for, and as the registry stores it.
abbrev pub asked : Str → ServiceRequest → ℤ → Service
asked svc req port = record {
  name = svc;
  port = port;
  path = req.path;
  strip_path = req.strip_path;
  pid = req.pid;
}

pub registration : Str → ServiceRequest → ℤ → Service
registration svc req port = normalized (asked svc req port)

module _ (s : Server) (faults : Faults) (r : Request) (st : State) (name svc : Str)
    (req : ServiceRequest) (port : ℤ) where
  served :
      IsName name
      → IsName svc
      → r.method ≡ method_put
      → endpoint (split_path r.path) ≡ service_endpoint name svc
      → r.service_request ≡ decoded req
      → req.port ≡ some port
      → serve_http s faults r st
        ≡ put_response s name st (put faults name (asked svc req port) st.world)
  unfolding serve_http dispatch not_allowed method_eq handle_put_service
  served n k m e d p =
      rw (e, m, IsName-validate (text "app") name n, checked)
        (rw (IsName-validate (text "service") svc k, d, p) refl)

  answered-saved :
      (q : PutResult × World)
      → q.0 ≡ saved (normalized (asked svc req port))
      → (put_response s name st q).0
        ≡ write_json 200 (
            service_body (
              service_view s name
                (normalized (asked svc req port))
                (some (service_status s.os (normalized (asked svc req port)) s.probe_to))))
  answered-saved (failed f, w) e = cc
  answered-saved (saved x, w) e =
      let same : x ≡ normalized (asked svc req port) = ground arith in
      ap
        (λ (y : Service).
          write_json 200
            (service_body (service_view s name y (some (service_status s.os y s.probe_to)))))
        same

  put_response-apps : (q : PutResult × World) → (put_response s name st q).1.world ≡ q.1
  put_response-apps (failed f, w) = refl
  put_response-apps (saved x, w) = refl

  put_response-failed :
      (f : Failure) → put_response s name st (failed f, st.world) ≡ (write_err s f, st)
  put_response-failed f = refl

  -- A PUT with a port of a service with valid names, on a sound registry, either answers 200 with
  -- the view of the service that it stored, and then the registry maps that service to it and
  -- everything else as before; or the registry's Put reported a failure, the answer is the error
  -- response of that failure, and nothing changes.
  pub put_service_effect :
      IsSound st.world
      → IsName name
      → IsName svc
      → r.method ≡ method_put
      → endpoint (split_path r.path) ≡ service_endpoint name svc
      → r.service_request ≡ decoded req
      → req.port ≡ some port
      → (((serve_http s faults r st).0
            ≡ write_json 200 (
                service_body (
                  service_view s name
                    (registration svc req port)
                    (some (service_status s.os (registration svc req port) s.probe_to)))))
          × ((a t : Str)
              → view (serve_http s faults r st).1.world.store.apps a t ≡ (
                  if str_eq name a && str_eq svc t
                  then some (registration svc req port)
                  else view st.world.store.apps a t)))
        ⊎ ((f : Failure) × (put faults name (asked svc req port) st.world ≡ (failed f, st.world))
            × (serve_http s faults r st ≡ (write_err s f, st)))
  unfolding registration
  put_service_effect h n k m e d p =
      rw (served n k m e d p) (elim (put_effect faults name (asked svc req port) st.world h) [
        | inl (ok, v) ↦ inl (
          answered-saved (put faults name (asked svc req port) st.world) ok,
          λ a t. rw (put_response-apps (put faults name (asked svc req port) st.world)) (v a t),
        )
        | inr (f, q) ↦ inr (f, q, ap (put_response s name st) q ∙ put_response-failed f)
      ])
