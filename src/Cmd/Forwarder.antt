-- ===== src/Cmd/Forwarder.antt =====
-- cmd/localapp/log_forward.go: the queue that `run` and `logforward` send output through. Write and
-- the two critical sections of `send` hold the mutex, so each is one step; a send is in flight
-- between its two steps, and the loop starts no other one then.
pub mod Gaps
pub mod Close
pub mod Warnings
use localapp.Base.{
  ℕ, ◌+◌, ◌-◌, true, false, Bool, not, ◌&&◌, Option, none, some, List, [], ◌∷◌, ◌++◌, length, drop,
  ltb, leb, if◌then◌else◌,
}
use localapp.Text.{Str, text, str_eq}
use localapp.Logstream.{max_bytes}
use localapp.Control.{ErrorDetail, ApiCode, code_not_found}
use localapp.Client.{Outcome, answered, api_error, unavailable}

-- The queue, with the variable `failing` of its goroutine and the text that a send is carrying.
pub record Forwarder : Type 0 where
  pub pending : Str
  pub dropped : Bool
  pub failing : Bool
  pub flight : Option Str

-- newLogForwarder
unfoldable pub new_forwarder : Bool → Forwarder
new_forwarder failing = record { pending = []; dropped = false; failing = failing; flight = none }

-- Write
unfoldable pub write : Str → Forwarder → Forwarder
write p w =
    if leb max_bytes (length p)
    then record w { pending = drop (length p - max_bytes) p; dropped = true }
    else if ltb max_bytes (length w.pending + length p)
    then record w {
      pending = drop (length w.pending + length p - max_bytes) w.pending ++ p;
      dropped = true;
    }
    else record w { pending = w.pending ++ p }

unfoldable pub omission : Str
omission = 10 ∷ text "[localapp: output omitted while log forwarding was behind]" ++ 10 ∷ []

-- The first part of `send`: the text to send, if there is anything to say.
unfoldable pub batch : Str → Bool → Str
batch pending true = omission ++ pending
batch pending false = pending

unfoldable pub take_batch : Forwarder → Forwarder
unfolding batch
take_batch w =
    if str_eq w.pending [] && not w.dropped
    then w
    else record w { pending = []; dropped = false; flight = some (batch w.pending w.dropped) }

-- A call of `warn`: a failure with its cause, or the line that forwarding resumed.
pub data Warning : Type 0 where
  failed : Outcome → Warning
  resumed : Warning

abbrev is_error : Outcome → Bool
is_error (answered b) = false
is_error (api_error status e) = true
is_error unavailable = true

-- The second part of `send`: how AppendLogs ended.
unfoldable pub settle : Outcome → Forwarder → Forwarder × List Warning
settle out w =
    if is_error out
    then (
      record w { dropped = true; failing = true; flight = none },
      if not w.failing then failed out ∷ [] else [],
    )
    else (record w { failing = false; flight = none }, if w.failing then resumed ∷ [] else [])

-- forwardFailureMessage; `suffix` is how an error reads in brackets.
abbrev not_registered : Str → Str → Str
not_registered app service =
    app
    ++ b'/' ∷ service
    ++ text
        " is not registered; output is shown but not captured until it is (localapp add <port> --app "
    ++ app
    ++ text " --service "
    ++ service
    ++ text ")"

abbrev is_not_found_code : Option ErrorDetail → Bool
is_not_found_code none = false
is_not_found_code (some e) = elim e.code [ code_not_found ↦ true | _ ↦ false ]

unfoldable pub failure_message : (Outcome → Str) → Outcome → Str → Str → Str
failure_message error_text (api_error status e) app service =
    if is_not_found_code e
    then not_registered app service
    else text "log forwarding failed; output is shown but not captured ("
      ++ error_text (api_error status e)
      ++ text ")"
failure_message error_text unavailable app service =
    text "cannot reach the daemon; output is shown but not captured ("
    ++ error_text unavailable
    ++ text ")"
failure_message error_text (answered b) app service =
    text "log forwarding failed; output is shown but not captured ("
    ++ error_text (answered b)
    ++ text ")"

-- What happens to a forwarder. A send that fails may have reached the daemon all the same.
pub data Event : Type 0 where
  writes : Str → Event
  sends : Event
  ends : Outcome → Bool → Event

-- The forwarder, what it was given, the texts that the daemon took, the last one first, and the
-- warnings, the last one first.
pub record Run : Type 0 where
  pub queue : Forwarder
  pub written : Str
  pub received : List Str
  pub warnings : List Warning

unfoldable pub start : Bool → Run
unfolding new_forwarder
start failing = record { queue = new_forwarder failing; written = []; received = []; warnings = [] }

abbrev starts : Forwarder → Option Str → Forwarder
starts w none = take_batch w
starts w (some t) = w

abbrev took : Outcome → Bool → Str → List Str → List Str
took out reached t received =
    if not (is_error out) then t ∷ received else if reached then t ∷ received else received

abbrev ending : Outcome → Bool → Run → Option Str → Run
ending out reached r none = r
ending out reached r (some t) = record r {
  queue = (settle out r.queue).0;
  received = took out reached t r.received;
  warnings = (settle out r.queue).1 ++ r.warnings;
}

unfoldable pub step : Event → Run → Run
step (writes p) r = record r { queue = write p r.queue; written = r.written ++ p }
step sends r = record r { queue = starts r.queue r.queue.flight }
step (ends out reached) r = ending out reached r r.queue.flight

unfoldable pub run : List Event → Run → Run
unfolding step
run [] r = r
run (e ∷ events) r = run events (step e r)
