-- ===== src/Dashboard.antt =====
-- internal/dashboard/dashboard.go and logs.go: the page of the domain's apex, the removal of a
-- mapping from it, and its log streams.
pub mod Contents
pub mod Effects
pub mod Counted
pub mod Streams
pub mod Statuses
use localapp.Base.{
  ℕ, suc, ◌+◌, ◌-◌, ◌++◌, true, false, Bool, not, ◌&&◌, ◌||◌, Option, none, some, List, [], ◌∷◌,
  ltb, ◌==◌, if◌then◌else◌, ℤ, pos,
}
use localapp.Text.{Str, text, str_eq}
use localapp.Registry.{Service, App, Status, Os, validate_name}
use localapp.Registry.Store.{
  Faults, Failure, World, RemoveResult, removed, absent, not_removed, remove_service,
}
use localapp.Logstream.{snapshot}
use localapp.Dashboard.Contents.{Handler, Listing, listing}

pub data Method : Type 0 where
  get head post other : Method

-- A path of the dashboard, as its switch tells them apart.
pub data Route : Type 0 where
  to_root to_logs to_logs_data to_logs_stream to_delete to_unknown : Route

-- The form of a request, once it is parsed: the query and the body.
pub record Form : Type 0 where
  pub csrf_token : Str
  pub app : Str
  pub service : Str

-- `form` is `none` where ParseForm fails.
pub record Request : Type 0 where
  pub method : Method
  pub path : Str
  pub query_app : Str
  pub query_service : Str
  pub form : Option Form

pub data Page : Type 0 where
  listing_page : Listing → Page
  confirm_page : Str → Str → Str → Page
  error_page : Str → Str → Page
  not_found : Page
  log_page : Str → Str → Page
  log_data : Str → Bool → Page
  -- ServeSSE takes the connection over.
  log_stream : Str → Str → Page
  plain_error : Str → Page
  redirect : Str → Page

pub record Response : Type 0 where
  pub status : ℕ
  pub page : Page

-- The registry, the log store where there is one, and the counter of open streams.
pub record State : Type 0 where
  pub world : World
  pub logs : Option localapp.Logstream.Store
  pub streams : ℕ

unfoldable pub route : Str → Route
route path =
    if str_eq path (text "/")
    then to_root
    else if str_eq path (text "/logs")
    then to_logs
    else if str_eq path (text "/logs/data")
    then to_logs_data
    else if str_eq path (text "/logs/stream")
    then to_logs_stream
    else if str_eq path (text "/delete")
    then to_delete
    else to_unknown

unfoldable pub is_read : Method → Bool
is_read get = true
is_read head = true
is_read _ = false

abbrev page : ℕ → Page → Response
page status p = record { status = status; page = p }

abbrev method_not_allowed : Response
method_not_allowed = page 405 (
    error_page (text "Method not allowed")
      (text "This action does not support that request method."))

-- The two loops of mappingExists.
has_service : Str → List Service → Bool
has_service service [] = false
has_service service (s ∷ services) =
    if str_eq s.name service then true else has_service service services

has_mapping : Str → Str → List App → Bool
has_mapping app service [] = false
has_mapping app service (a ∷ apps) =
    let rest = has_mapping app service apps in
    if str_eq a.name app then (if has_service service a.services then true else rest) else rest

abbrev is_none : Option localapp.Registry.ValidationError → Bool
is_none none = true
is_none (some e) = false

unfoldable pub mapping_exists : Str → Str → State → Bool
unfolding has_mapping has_service
mapping_exists app service st =
    if not (is_none (validate_name (text "app") app))
      || not (is_none (validate_name (text "service") service))
    then false
    else has_mapping app service st.world.store.apps

unfoldable pub confirm_delete : Handler → Request → State → Response
confirm_delete h r st =
    if not (mapping_exists r.query_app r.query_service st)
    then page 404 (
        error_page (text "Mapping not found")
          (text "The requested mapping does not exist or has already been deleted."))
    else page 200 (confirm_page r.query_app r.query_service h.csrf_token)

abbrev pub delete_result : Handler → State → RemoveResult × World → Response × State
delete_result h st (not_removed f, w) =
    (page 500 (error_page (text "Delete failed") (h.failure_text f)), record st { world = w })
delete_result h st (absent, w) = (
  page 404 (
      error_page (text "Mapping not found")
        (text "The mapping does not exist or has already been deleted.")),
  record st { world = w },
)
delete_result h st (removed, w) = (page 303 (redirect (text "/")), record st { world = w })

abbrev invalid_mapping : localapp.Registry.ValidationError → Response
invalid_mapping e = page 400 (error_page (text "Invalid mapping") e.message)

-- deleteMapping once the token is checked.
abbrev pub delete_checked : Handler → Faults → Form → State → Response × State
delete_checked h faults f st = elim (validate_name (text "app") f.app) [
  | some e ↦ (invalid_mapping e, st)
  | none ↦ elim (validate_name (text "service") f.service) [
    | some e ↦ (invalid_mapping e, st)
    | none ↦ delete_result h st (remove_service faults f.app f.service st.world)
  ]
]

unfoldable pub delete_mapping : Handler → Faults → Option Form → State → Response × State
delete_mapping h faults none st = (
  page 400 (error_page (text "Invalid request") (text "The delete request could not be read.")),
  st,
)
delete_mapping h faults (some f) st =
    if not (str_eq f.csrf_token h.csrf_token)
    then (
      page 403 (
          error_page (text "Delete request expired")
            (text "Return to the dashboard and try deleting the mapping again.")),
      st,
    )
    else delete_checked h faults f st

abbrev pub max_log_streams : ℕ
max_log_streams = 32

-- h.streams.Add(1) > maxLogStreams, and h.streams.Add(-1), each one atomic operation. The second
-- follows for a refused stream at once, and for an open one, deferred, when ServeSSE returns.
unfoldable pub count_stream : State → Bool × State
count_stream st = (ltb max_log_streams (st.streams + 1), record st { streams = st.streams + 1 })

unfoldable pub close_stream : State → State
close_stream st = record st { streams = st.streams - 1 }

-- streamLogs up to the call of ServeSSE, from whether the count is too high.
abbrev pub counted_stream : Str → Str → Bool × State → Response × State
counted_stream app service (true, st) =
    (page 503 (plain_error (text "too many log streams")), close_stream st)
counted_stream app service (false, st) = (page 200 (log_stream app service), st)

unfoldable pub open_stream : Str → Str → State → Response × State
unfolding count_stream close_stream
open_stream app service st = elim st.logs [
  | none ↦ (page 501 (plain_error (text "streaming unsupported")), st)
  | some _ ↦ counted_stream app service (count_stream st)
]

abbrev no_output : Str × Bool
no_output = ([], false)

-- /logs/data
unfoldable pub logs_snapshot : Str → Str → Option localapp.Logstream.Store → Str × Bool
logs_snapshot app service none = no_output
logs_snapshot app service (some logs) = snapshot app service logs

abbrev pub logs_page : Str → Str → State → Route → Response × State
logs_page app service st to_logs_data =
    let (t, captured) = logs_snapshot app service st.logs in (page 200 (log_data t captured), st)
logs_page app service st to_logs_stream = open_stream app service st
logs_page app service st _ = (page 200 (log_page app service), st)

unfoldable pub serve_logs : Request → Route → State → Response × State
serve_logs r to st =
    if not (is_read r.method)
    then (method_not_allowed, st)
    else if not (mapping_exists r.query_app r.query_service st)
    then (page 404 not_found, st)
    else logs_page r.query_app r.query_service st to

abbrev pub serve_delete : Handler → Faults → Request → State → Method → Response × State
serve_delete h faults r st get = (confirm_delete h r st, st)
serve_delete h faults r st head = (confirm_delete h r st, st)
serve_delete h faults r st post = delete_mapping h faults r.form st
serve_delete h faults r st other = (method_not_allowed, st)

unfoldable pub serve_route : Handler → Faults → Request → State → Route → Response × State
serve_route h faults r st to_root =
    if not (is_read r.method)
    then (method_not_allowed, st)
    else (page 200 (listing_page (listing h st.world.store.apps)), st)
serve_route h faults r st to_logs = serve_logs r to_logs st
serve_route h faults r st to_logs_data = serve_logs r to_logs_data st
serve_route h faults r st to_logs_stream = serve_logs r to_logs_stream st
serve_route h faults r st to_delete = serve_delete h faults r st r.method
serve_route h faults r st to_unknown = (
  page 404
      (error_page (text "No such page") (text "Return to the dashboard to find apps and logs.")),
  st,
)

-- ServeHTTP
unfoldable pub serve_http : Handler → Faults → Request → State → Response × State
serve_http h faults r st = serve_route h faults r st (route r.path)
