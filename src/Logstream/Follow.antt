-- ===== src/Logstream/Follow.antt =====
-- A reader that follows the stream of a service while the service goes on writing: the store's entry
-- (store.go), the loop of ServeSSE (sse.go), and what the client makes of its events.
pub mod Pieces
pub mod Steps
pub mod Runs
use localapp.Base.{
  ℕ, ◌^◌, ◌<◌, ◌≡◌, ◌≢◌, ◌⊎◌, refl, ap, sym, ◌∙◌, true, false, Bool, not, ◌&&◌, Option, none, some,
  List, [], ◌∷◌, ◌++◌, arith, length, drop, take, take-append-drop, length-append,
  drop-length-append, append-nil, append_assoc, ◌==◌, if◌then◌else◌, Bool-cases, inl, inr, subst,
}
use localapp.Text.{Str, str_eq}
use localapp.Text.Utf8.{to_valid_utf8}
use localapp.Logstream.{Entry, append_entry, new_entry, Reading, read_entry}
use localapp.Logstream.Window.{Holds, new_entry-Holds, append_entry-Holds, read_entry-IsReading}
use localapp.Logstream.Stream.{
  EventName, event_name, reset, append, gone, Frame, first_event, wake_event, keep_alive_event,
}

-- A service's entry, all that the service wrote, and one connected reader: whether its channel
-- holds a signal, the offset that ServeSSE keeps, what the client shows, and whether it was told
-- that the service is gone.
pub record Session : Type 0 where
  pub key : Str
  pub entry : Option Entry
  pub total : Str
  pub pending : Bool
  pub offset : ℕ
  pub shown : Str
  pub closed : Bool

-- What the client does with an event.
abbrev pub show : Str → EventName → Str → Str
show shown reset text = text
show shown append text = shown ++ text
show shown gone text = shown

-- The payload travels as JSON.
abbrev pub receive : Session → Option Frame → Session
receive s none = s
receive s (some f) = record s {
  offset = f.id;
  shown = show s.shown f.event (to_valid_utf8 f.payload.text);
}

abbrev pub or_new : Str → Option Entry → Entry
or_new k none = new_entry k
or_new k (some e) = e

-- The service writes, the reader takes a signal, its keep-alive timer fires, or the first output of
-- another service takes the entry's place in a full store, which signals nothing.
pub data Happening : Type 0 where
  output : Str → ℕ → Happening
  wake : Happening
  keep_alive : Bool → Happening
  evicted : Happening

-- After "gone" the reader has left; without a signal it waits.
abbrev pub on_wake : Bool → Bool → Session → Session
on_wake true pending s = s
on_wake false false s = s
on_wake false true s =
    receive (record s { pending = false }) (wake_event (read_entry s.entry s.offset))

abbrev pub on_keep_alive : Bool → Option Frame → Session → Session
on_keep_alive true event s = s
on_keep_alive false none s = s
on_keep_alive false (some f) s = record s { closed = true }

unfoldable pub step : Session → Happening → Session
unfolding append_entry read_entry wake_event keep_alive_event
step s (output text clock) = record s {
  entry = some (append_entry text clock (or_new s.key s.entry));
  total = s.total ++ text;
  pending = true;
}
step s wake = on_wake s.closed s.pending s
step s (keep_alive alive) = on_keep_alive s.closed (keep_alive_event alive s.offset) s
step s evicted = record s { entry = none }

unfoldable pub run : Session → List Happening → Session
unfolding step
run s [] = s
run s (h ∷ hs) = run (step s h) hs

-- The first event of a connection that resumes from `offset`, for a client that shows `shown`.
unfoldable pub connect : Str → Option Entry → Str → ℕ → Str → Session
unfolding read_entry first_event
connect k entry total offset shown =
    receive
      (record {
        key = k;
        entry = entry;
        total = total;
        pending = false;
        offset = offset;
        shown = shown;
        closed = false;
      })
      (some (first_event offset (read_entry entry offset)))

-- All that the service writes in a run.
unfoldable pub written : List Happening → Str
written [] = []
written (output text clock ∷ hs) = text ++ written hs
written (wake ∷ hs) = written hs
written (keep_alive alive ∷ hs) = written hs
written (evicted ∷ hs) = written hs
