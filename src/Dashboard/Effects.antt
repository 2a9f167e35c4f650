-- ===== src/Dashboard/Effects.antt =====
-- What a request to the dashboard may do to the registry.
use localapp.Base.{◌≡◌, refl, Option, none, some, Bool-cases, Option-cases, inl, inr, ltb, ◌+◌}
use localapp.Text.{Str, text, str_eq}
use localapp.Text.Order.{str_eq→eq}
use localapp.Registry.{validate_name}
use localapp.Registry.Names.{IsName, validate-IsName}
use localapp.Registry.Store.{
  Faults, World, RemoveResult, removed, absent, not_removed, remove_service,
}
use localapp.Registry.Store.Durable.{IsSound}
use localapp.Registry.Store.Removals.{remove_service-IsSound}
use localapp.Dashboard.Contents.{Handler}
use localapp.Dashboard.{
  Method, get, head, post, other, Route, to_root, to_logs, to_logs_data, to_logs_stream, to_delete,
  to_unknown, Form, Request, State, route, is_read, mapping_exists, delete_result, delete_checked,
  delete_mapping, max_log_streams, open_stream, logs_page, serve_logs, serve_delete, serve_route,
  serve_http,
}

-- The registry stays as it is, or exactly one service is removed from it, at the POST of a form
-- that carries the token and two valid names.
pub data IsEffect (h : Handler) (faults : Faults) (r : Request) (st : State) (w : World)
    : Type 0 where
  kept : w ≡ st.world → IsEffect h faults r st w
  deleted :
      (f : Form)
      → r.method ≡ post
      → route r.path ≡ to_delete
      → r.form ≡ some f
      → f.csrf_token ≡ h.csrf_token
      → IsName f.app
      → IsName f.service
      → w ≡ (remove_service faults f.app f.service st.world).1
      → IsEffect h faults r st w

module _ (h : Handler) (faults : Faults) (r : Request) (st : State) where
  open_stream-world : (app service : Str) → (open_stream app service st).1.world ≡ st.world
  unfolding open_stream
  open_stream-world app service = elim (Option-cases st.logs) [
    | inl e ↦ rw (e, open_stream) refl
    | inr (l, e) ↦
        rw (e, open_stream)
          (elim (Bool-cases (ltb max_log_streams (st.streams + 1))) [
            | inl b ↦ rw b refl
            | inr b ↦ rw b refl
          ])
  ]

  logs_page-world :
      (app service : Str) (to : Route) → (logs_page app service st to).1.world ≡ st.world
  logs_page-world app service to_root = refl
  logs_page-world app service to_logs = refl
  logs_page-world app service to_logs_data = refl
  logs_page-world app service to_logs_stream = open_stream-world app service
  logs_page-world app service to_delete = refl
  logs_page-world app service to_unknown = refl

  serve_logs-world : (to : Route) → (serve_logs r to st).1.world ≡ st.world
  unfolding serve_logs
  serve_logs-world to = elim (Bool-cases (is_read r.method)) [
    | inr e ↦ rw e refl
    | inl e ↦ rw e (elim (Bool-cases (mapping_exists r.query_app r.query_service st)) [
      | inr m ↦ rw m refl
      | inl m ↦ rw m (logs_page-world r.query_app r.query_service to)
    ])
  ]

  delete_result-world : (q : RemoveResult × World) → (delete_result h st q).1.world ≡ q.1
  delete_result-world (removed, w) = refl
  delete_result-world (absent, w) = refl
  delete_result-world (not_removed f, w) = refl

  delete_mapping-IsEffect :
      (form : Option Form)
      → r.form ≡ form
      → r.method ≡ post
      → route r.path ≡ to_delete
      → IsEffect h faults r st (delete_mapping h faults form st).1.world
  unfolding delete_mapping
  delete_mapping-IsEffect none e m p = kept refl
  delete_mapping-IsEffect (some f) e m p = elim (Bool-cases (str_eq f.csrf_token h.csrf_token)) [
    | inr t ↦ rw t (kept refl)
    | inl t ↦ rw t (elim (Option-cases (validate_name (text "app") f.app)) [
      | inr (x, bad) ↦ rw (bad, delete_checked) (kept refl)
      | inl good ↦
          rw (good, delete_checked)
            (elim (Option-cases (validate_name (text "service") f.service)) [
              | inr (x, bad) ↦ rw bad (kept refl)
              | inl fine ↦ rw fine (
                  deleted f m p e (str_eq→eq f.csrf_token h.csrf_token t)
                    (validate-IsName (text "app") f.app good)
                    (validate-IsName (text "service") f.service fine)
                    (delete_result-world (remove_service faults f.app f.service st.world)))
            ])
    ])
  ]

  serve_delete-IsEffect :
      (m : Method)
      → r.method ≡ m
      → route r.path ≡ to_delete
      → IsEffect h faults r st (serve_delete h faults r st m).1.world
  serve_delete-IsEffect get e p = kept refl
  serve_delete-IsEffect head e p = kept refl
  serve_delete-IsEffect post e p = delete_mapping-IsEffect r.form refl e p
  serve_delete-IsEffect other e p = kept refl

  serve_route-IsEffect :
      (to : Route)
      → route r.path ≡ to
      → IsEffect h faults r st (serve_route h faults r st to).1.world
  unfolding serve_route
  serve_route-IsEffect to_root p = elim (Bool-cases (is_read r.method)) [
    | inl e ↦ rw e (kept refl)
    | inr e ↦ rw e (kept refl)
  ]
  serve_route-IsEffect to_logs p = kept (serve_logs-world to_logs)
  serve_route-IsEffect to_logs_data p = kept (serve_logs-world to_logs_data)
  serve_route-IsEffect to_logs_stream p = kept (serve_logs-world to_logs_stream)
  serve_route-IsEffect to_delete p = serve_delete-IsEffect r.method refl p
  serve_route-IsEffect to_unknown p = kept refl

  -- A request to the dashboard leaves the registry as it is, or it is a POST to /delete whose form
  -- carries the handler's token and two valid names, and the registry is then what RemoveService
  -- makes of it for those names.
  pub serve_http-IsEffect : IsEffect h faults r st (serve_http h faults r st).1.world
  unfolding serve_http
  serve_http-IsEffect = serve_route-IsEffect (route r.path) refl

  -- Every request to the dashboard keeps the registry sound.
  serve_http-IsSound : IsSound st.world → IsSound (serve_http h faults r st).1.world
  serve_http-IsSound s = by_effect serve_http-IsEffect
    where
      by_effect : {w : World} → IsEffect h faults r st w → IsSound w
      by_effect (kept e) = rw e s
      by_effect (deleted f m p e t a b q) =
          rw q (remove_service-IsSound faults f.app f.service st.world s)
