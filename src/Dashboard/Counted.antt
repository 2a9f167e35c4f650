-- ===== src/Dashboard/Counted.antt =====
-- What one request, served as a whole, does to the counter of the open log streams.
use localapp.Base.{
  ◌<◌, ◌≡◌, ◌⊎◌, refl, true, false, Bool, Option, none, some, Bool-cases, Option-cases, inl, inr,
  arith, ltb, ◌+◌,
}
use localapp.Text.{Str, text, str_eq}
use localapp.Registry.{validate_name}
use localapp.Registry.Store.{
  Faults, World, RemoveResult, removed, absent, not_removed, remove_service,
}
use localapp.Dashboard.Contents.{Handler}
use localapp.Dashboard.{
  Method, get, head, post, other, Route, to_root, to_logs, to_logs_data, to_logs_stream, to_delete,
  to_unknown, Form, Request, Response, State, route, is_read, mapping_exists, confirm_delete,
  delete_result, delete_checked, delete_mapping, max_log_streams, count_stream, counted_stream,
  open_stream, close_stream, logs_page, serve_logs, serve_delete, serve_route, serve_http, Page,
  log_stream,
}

abbrev pub is_stream : Page → Bool
is_stream (log_stream app service) = true
is_stream _ = false

-- A stream is opened, and counted, below the bound; otherwise the counter is as it was.
unfoldable pub IsCounted : State → Response × State → Type 0
IsCounted st r =
    ((is_stream r.0.page ≡ true) × (r.1.streams ≡ st.streams + 1) × (st.streams < max_log_streams))
    ⊎ ((is_stream r.0.page ≡ false) × (r.1.streams ≡ st.streams))

module _ (h : Handler) (faults : Faults) (r : Request) (st : State) where
  open_stream-IsCounted : (app service : Str) → IsCounted st (open_stream app service st)
  unfolding IsCounted open_stream count_stream close_stream
  open_stream-IsCounted app service = elim (Option-cases st.logs) [
    | inl e ↦ rw (e, open_stream) (inr (refl, refl))
    | inr (l, e) ↦
        rw (e, open_stream)
          (elim (Bool-cases (ltb max_log_streams (st.streams + 1))) [
            | inl b ↦ rw (b, counted_stream) (inr (refl, omega arith))
            | inr b ↦ rw (b, counted_stream) (inl (refl, refl, ground arith))
          ])
  ]

  logs_page-IsCounted :
      (app service : Str) (to : Route) → IsCounted st (logs_page app service st to)
  unfolding IsCounted
  logs_page-IsCounted app service to_root = inr (refl, refl)
  logs_page-IsCounted app service to_logs = inr (refl, refl)
  logs_page-IsCounted app service to_logs_data = inr (refl, refl)
  logs_page-IsCounted app service to_logs_stream = open_stream-IsCounted app service
  logs_page-IsCounted app service to_delete = inr (refl, refl)
  logs_page-IsCounted app service to_unknown = inr (refl, refl)

  serve_logs-IsCounted : (to : Route) → IsCounted st (serve_logs r to st)
  unfolding serve_logs IsCounted
  serve_logs-IsCounted to = elim (Bool-cases (is_read r.method)) [
    | inr e ↦ rw e (inr (refl, refl))
    | inl e ↦ rw e (elim (Bool-cases (mapping_exists r.query_app r.query_service st)) [
      | inr m ↦ rw m (inr (refl, refl))
      | inl m ↦ rw m (logs_page-IsCounted r.query_app r.query_service to)
    ])
  ]

  delete_result-IsCounted : (q : RemoveResult × World) → IsCounted st (delete_result h st q)
  unfolding IsCounted
  delete_result-IsCounted (removed, w) = inr (refl, refl)
  delete_result-IsCounted (absent, w) = inr (refl, refl)
  delete_result-IsCounted (not_removed f, w) = inr (refl, refl)

  delete_mapping-IsCounted : (form : Option Form) → IsCounted st (delete_mapping h faults form st)
  unfolding IsCounted delete_mapping
  delete_mapping-IsCounted none = inr (refl, refl)
  delete_mapping-IsCounted (some f) = elim (Bool-cases (str_eq f.csrf_token h.csrf_token)) [
    | inr t ↦ rw t (inr (refl, refl))
    | inl t ↦ rw t (elim (Option-cases (validate_name (text "app") f.app)) [
      | inr (x, bad) ↦ rw (bad, delete_checked) (inr (refl, refl))
      | inl good ↦
          rw (good, delete_checked)
            (elim (Option-cases (validate_name (text "service") f.service)) [
              | inr (x, bad) ↦ rw bad (inr (refl, refl))
              | inl fine ↦
                  rw fine (delete_result-IsCounted (remove_service faults f.app f.service st.world))
            ])
    ])
  ]

  confirm_delete-IsCounted : IsCounted st (confirm_delete h r st, st)
  unfolding IsCounted confirm_delete
  confirm_delete-IsCounted = elim (Bool-cases (mapping_exists r.query_app r.query_service st)) [
    | inr m ↦ rw m (inr (refl, refl))
    | inl m ↦ rw m (inr (refl, refl))
  ]

  serve_delete-IsCounted : (m : Method) → IsCounted st (serve_delete h faults r st m)
  unfolding IsCounted
  serve_delete-IsCounted get = confirm_delete-IsCounted
  serve_delete-IsCounted head = confirm_delete-IsCounted
  serve_delete-IsCounted post = delete_mapping-IsCounted r.form
  serve_delete-IsCounted other = inr (refl, refl)

  serve_route-IsCounted : (to : Route) → IsCounted st (serve_route h faults r st to)
  unfolding IsCounted serve_route
  serve_route-IsCounted to_root = elim (Bool-cases (is_read r.method)) [
    | inl e ↦ rw e (inr (refl, refl))
    | inr e ↦ rw e (inr (refl, refl))
  ]
  serve_route-IsCounted to_logs = serve_logs-IsCounted to_logs
  serve_route-IsCounted to_logs_data = serve_logs-IsCounted to_logs_data
  serve_route-IsCounted to_logs_stream = serve_logs-IsCounted to_logs_stream
  serve_route-IsCounted to_delete = serve_delete-IsCounted r.method
  serve_route-IsCounted to_unknown = inr (refl, refl)

  pub serve_http-IsCounted : IsCounted st (serve_http h faults r st)
  unfolding serve_http
  serve_http-IsCounted = serve_route-IsCounted (route r.path)
