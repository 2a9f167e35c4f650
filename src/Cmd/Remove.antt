-- ===== src/Cmd/Remove.antt =====
-- cmdRm of cmd/localapp/main.go behind its flags, with the client's call and the daemon's answer. Names
-- with a byte that a URL reads differently are not meant here.
pub mod Effects
use localapp.Base.{Bool, true, false, Option, none, some, [], ◌∷◌}
use localapp.Text.{Str}
use localapp.Registry.Store.{Faults}
use localapp.Control.{Server}
use localapp.Control.Messages.{method_delete, Request, Response, State, decode_error}
use localapp.Control.Routing.{serve_http}
use localapp.Client.{Outcome, answered, api_error, unavailable, outcome, app_path, service_path}
use localapp.Cmd.Args.{target}

pub data ExitCode : Type 0 where
  exit_ok exit_error exit_usage : ExitCode

-- exitOK, or reportError.
unfoldable pub exit_code : Outcome → ExitCode
exit_code (answered b) = exit_ok
exit_code (api_error status e) = exit_error
exit_code unavailable = exit_error

-- DeleteApp and DeleteService: a request without a body.
unfoldable pub delete_request : Str → Request
delete_request path = record {
  method = method_delete;
  path = path;
  service_request = decode_error [];
  log_batch = decode_error [];
}

abbrev reported : Response × State → ExitCode × State
reported (r, st) = (exit_code (outcome (some r)), st)

-- A call: the daemon does not answer the socket, or it serves the request.
unfoldable pub call : Server → Faults → Bool → Str → State → ExitCode × State
unfolding exit_code outcome
call s faults false path st = (exit_code (outcome none), st)
call s faults true path st = reported (serve_http s faults (delete_request path) st)

abbrev pub path_of : Str → Option Str → Str
path_of app none = app_path app
path_of app (some service) = service_path app service

-- cmdRm
unfoldable pub rm : Server → Faults → Bool → Str → State → ExitCode × State
rm s faults reachable arg st = elim (target arg) [
  | none ↦ (exit_usage, st)
  | some (app, service) ↦ call s faults reachable (path_of app service) st
]
