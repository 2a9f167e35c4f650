-- ===== src/Control/Effects.antt =====
-- What any request does to the daemon's state.
use localapp.Base.{
  ℕ, ◌≡◌, ◌≢◌, ◌≤◌, ◌⊎◌, refl, ap, sym, ◌∙◌, subst, true, false, Bool, not, Option, none, some,
  List, [], ◌∷◌, ◌++◌, if◌then◌else◌, Bool-cases, Option-cases, inl, inr, arith, leb,
}
use localapp.Text.{Str, text, str_eq}
use localapp.Registry.{Service, validate_name}
use localapp.Registry.Store.{
  Faults, World, PutResult, saved, failed, RemoveResult, removed, absent, not_removed, put,
  remove_app, remove_service, normalized,
}
use localapp.Registry.Store.Durable.{IsSound}
use localapp.Registry.Store.Operations.{put-IsSound, put_effect}
use localapp.Registry.Store.Removals.{
  remove_app-IsSound, remove_service-IsSound, remove_app_effect, remove_service_effect,
}
use localapp.Control.{ServiceRequest, Server, split_path}
use localapp.Control.Messages.{
  Method, method_get, method_put, method_delete, method_post, method_eq, stream_body, Request,
  Response, State, Decoded, decoded, decode_error, guarded, not_allowed, write_err, write_error,
}
use localapp.Control.Handlers.{
  handle_status, handle_list_apps, handle_put_service, handle_delete_app, handle_delete_service,
  put_response, put_port, put_decoded, checked, remove_response,
}
use localapp.Control.Routing.{
  Endpoint, logs_endpoint, status_endpoint, apps_endpoint, no_endpoint, app_endpoint,
  service_endpoint, dispatch, serve_http, endpoint,
}
use localapp.Control.Logs.{serve_logs, is_registered, append_batch, logs_window, logs_rest, logs_of}

-- What every handler keeps: a sound registry stays sound, and a response that is an error means
-- that nothing changed.
pub record IsStep (st : State) (r : Response × State) : Type 0 where
  pub sound : IsSound r.1.world
  pub failed : 400 ≤ r.0.status → r.1 ≡ st

module _ (s : Server) (faults : Faults) (st : State) (h : IsSound st.world) where
  same : (r : Response) → IsStep st (r, st)
  same r = record { sound = h; failed = λ _. refl }

  guarded-IsStep :
      (g : Option Response) (r : Response × State) → IsStep st r → IsStep st (guarded g st r)
  guarded-IsStep none r k = k
  guarded-IsStep (some e) r k = same e

  put_response-world :
      (name : Str) (r : PutResult × World)
      → (put_response s name st r).1 ≡ record st { world = r.1 }
  put_response-world name (failed f, w) = refl
  put_response-world name (saved svc, w) = refl

  put_response-status :
      (name : Str) (svc : Service) (r : PutResult × World)
      → r.0 ≡ saved svc
      → (put_response s name st r).0.status ≡ 200
  put_response-status name svc (failed f, w) e = cc
  put_response-status name svc (saved x, w) e = unfold localapp.Control.Messages.write_json in refl

  put_response-IsStep :
      (name : Str) (svc : Service)
      → IsStep st (put_response s name st (put faults name svc st.world))
  put_response-IsStep name svc =
      let r = put faults name svc st.world in
      let world = put_response-world name r in
      record {
        sound = rw world (put-IsSound faults name svc st.world h);
        failed = λ bad. elim (put_effect faults name svc st.world h) [
          | inl (e, _) ↦ absurd (omega (arith, bad, put_response-status name (normalized svc) r e))
          | inr (f, e) ↦
              world
              ∙ ap (λ (w : World). record st { world = w }) (ap (λ (q : PutResult × World). q.1) e)
        ];
      }

  put_port-IsStep :
      (name svc : Str) (req : ServiceRequest) (port : Option localapp.Base.ℤ)
      → IsStep st (put_port s faults name svc req st port)
  put_port-IsStep name svc req none = same _
  put_port-IsStep name svc req (some p) = put_response-IsStep name _

  put_decoded-IsStep :
      (name svc : Str) (d : Decoded ServiceRequest) → IsStep st (put_decoded s faults name svc st d)
  put_decoded-IsStep name svc (decode_error e) = same _
  put_decoded-IsStep name svc (decoded req) = put_port-IsStep name svc req req.port

  checked-IsStep :
      (name svc : Str) (r : Response × State) → IsStep st r → IsStep st (checked s name svc st r)
  checked-IsStep name svc r k = elim (Option-cases (validate_name (text "app") name)) [
    | inr (e, bad) ↦ rw (bad, checked) (same _)
    | inl good ↦
        rw (good, checked)
          (elim (Option-cases (validate_name (text "service") svc)) [
            | inr (e, bad) ↦ rw (bad, checked) (same _)
            | inl fine ↦ rw fine k
          ])
  ]

  remove_response-world :
      (m : Str) (r : RemoveResult × World)
      → (remove_response s m st r).1 ≡ record st { world = r.1 }
  remove_response-world m (removed, w) = refl
  remove_response-world m (absent, w) = refl
  remove_response-world m (not_removed f, w) = refl

  remove_response-status :
      (m : Str) (r : RemoveResult × World)
      → r.0 ≡ removed
      → (remove_response s m st r).0.status ≡ 204
  remove_response-status m (removed, w) e = refl
  remove_response-status m (absent, w) e = cc
  remove_response-status m (not_removed f, w) e = cc

  -- A removal that is sound, and that changes nothing unless it removed.
  remove_response-IsStep :
      (m : Str) (r : RemoveResult × World)
      → IsSound r.1
      → (r.0 ≡ removed) ⊎ (r.1 ≡ st.world)
      → IsStep st (remove_response s m st r)
  remove_response-IsStep m r sound cases =
      let world = remove_response-world m r in
      record {
        sound = rw world sound;
        failed = λ bad. elim cases [
          | inl e ↦ absurd (omega (arith, bad, remove_response-status m r e))
          | inr e ↦ world ∙ ap (λ (w : World). record st { world = w }) e
        ];
      }

  delete_app-IsStep : (name : Str) → IsStep st (handle_delete_app s faults name st)
  unfolding handle_delete_app
  delete_app-IsStep name = elim (Option-cases (validate_name (text "app") name)) [
    | inr (e, bad) ↦ rw (bad, handle_delete_app) (same _)
    | inl good ↦
        rw (good, handle_delete_app)
          (remove_response-IsStep _ (remove_app faults name st.world)
            (remove_app-IsSound faults name st.world h)
            (elim (remove_app_effect faults name st.world h) [
              | inl p ↦ inl p.0
              | inr (inl (e, _)) ↦ inr (ap (λ (q : RemoveResult × World). q.1) e)
              | inr (inr (f, e)) ↦ inr (ap (λ (q : RemoveResult × World). q.1) e)
            ]))
  ]

  delete_service-IsStep : (name svc : Str) → IsStep st (handle_delete_service s faults name svc st)
  unfolding handle_delete_service
  delete_service-IsStep name svc = checked-IsStep name svc _ (
      remove_response-IsStep _ (remove_service faults name svc st.world)
        (remove_service-IsSound faults name svc st.world h)
        (elim (remove_service_effect faults name svc st.world h) [
          | inl p ↦ inl p.0
          | inr (inl (e, _)) ↦ inr (ap (λ (q : RemoveResult × World). q.1) e)
          | inr (inr (f, e)) ↦ inr (ap (λ (q : RemoveResult × World). q.1) e)
        ]))

  append_batch-IsStep :
      (name svc : Str) (logs : localapp.Logstream.Store) (d : Decoded Str)
      → IsStep st (append_batch name svc st logs d)
  append_batch-IsStep name svc logs (decode_error e) = same _
  append_batch-IsStep name svc logs (decoded t) = record {
    sound = h;
    failed = λ bad. absurd (omega (arith, bad));
  }

  logs_window-IsStep :
      (r : Request) (name svc : Str) (logs : localapp.Logstream.Store)
      → IsStep st (logs_window r name svc st logs)
  logs_window-IsStep r name svc logs = elim (Bool-cases (method_eq r.method method_get)) [
    | inl e ↦ rw e (same _)
    | inr e ↦ rw e (
        guarded-IsStep (not_allowed r.method (method_post ∷ []))
          (append_batch name svc st logs r.log_batch)
          (append_batch-IsStep name svc logs r.log_batch))
  ]

  logs_rest-IsStep :
      (r : Request) (name svc : Str) (logs : localapp.Logstream.Store) (rest : List Str)
      → IsStep st (logs_rest r name svc st logs rest)
  logs_rest-IsStep r name svc logs [] = logs_window-IsStep r name svc logs
  logs_rest-IsStep r name svc logs (x ∷ []) = elim (Bool-cases (str_eq x (text "stream"))) [
    | inl e ↦ rw e (
        guarded-IsStep (not_allowed r.method (method_get ∷ [])) _
          (same (record { status = 200; allow = []; body = stream_body name svc })))
    | inr e ↦ rw e (same _)
  ]
  logs_rest-IsStep r name svc logs (_ ∷ _ ∷ _) = same _

  logs_of-IsStep :
      (r : Request) (name svc : Str) (logs : Option localapp.Logstream.Store) (rest : List Str)
      → IsStep st (logs_of r name svc st logs rest)
  logs_of-IsStep r name svc none rest = same _
  logs_of-IsStep r name svc (some logs) rest = logs_rest-IsStep r name svc logs rest

  serve_logs-IsStep :
      (r : Request) (name svc : Str) (rest : List Str) → IsStep st (serve_logs r name svc rest st)
  unfolding serve_logs
  serve_logs-IsStep r name svc rest = elim (Bool-cases (is_registered name svc st)) [
    | inl e ↦ rw e (logs_of-IsStep r name svc st.logs rest)
    | inr e ↦ rw e (same _)
  ]

  dispatch-IsStep : (r : Request) (e : Endpoint) → IsStep st (dispatch s faults r st e)
  unfolding dispatch handle_put_service
  dispatch-IsStep r (logs_endpoint name svc rest) = serve_logs-IsStep r name svc rest
  dispatch-IsStep r status_endpoint =
      guarded-IsStep (not_allowed r.method (method_get ∷ [])) (handle_status s st, st) (same _)
  dispatch-IsStep r apps_endpoint =
      guarded-IsStep (not_allowed r.method (method_get ∷ [])) (handle_list_apps s st, st) (same _)
  dispatch-IsStep r (app_endpoint name) =
      guarded-IsStep (not_allowed r.method (method_get ∷ method_delete ∷ [])) _
        (elim (Bool-cases (method_eq r.method method_get)) [
          | inl e ↦ rw e (same _)
          | inr e ↦ rw e (delete_app-IsStep name)
        ])
  dispatch-IsStep r (service_endpoint name svc) =
      guarded-IsStep (not_allowed r.method (method_put ∷ method_delete ∷ [])) _
        (elim (Bool-cases (method_eq r.method method_put)) [
          | inl e ↦ rw e (checked-IsStep name svc _ (put_decoded-IsStep name svc r.service_request))
          | inr e ↦ rw e (delete_service-IsStep name svc)
        ])
  dispatch-IsStep r no_endpoint = same _

  -- On a sound registry every request to the Control Plane API, whatever its method, path and body
  -- and whatever fails on the disk, leaves the registry sound; and a response with status 400 or
  -- more means that the registry, its file and the logs are exactly as before.
  pub serve_http-IsStep : (r : Request) → IsStep st (serve_http s faults r st)
  unfolding serve_http
  serve_http-IsStep r = dispatch-IsStep r (endpoint (split_path r.path))
