-- ===== src/Logstream/Stream.antt =====
-- internal/logstream/sse.go: the events of a log stream, as ServeSSE writes and ReadSSE reads them.
use localapp.Base.{
  ℕ, ◌+◌, ◌-◌, ◌*◌, ◌^◌, true, false, Bool, not, ◌&&◌, Option, none, some, List, [], ◌∷◌, ltb, leb,
  ◌==◌, ◌||◌, if◌then◌else◌, length, drop,
}
use localapp.Text.{Str, str_eq, text, has_prefix}
use localapp.Logstream.{Reading}

-- The payload, `Event`; a snapshot also carries `next`.
pub record Event : Type 0 where
  pub text : Str
  pub captured : Bool
  pub next : ℕ

pub data EventName : Type 0 where
  reset append gone : EventName

unfoldable pub event_name : Bool → EventName
event_name true = reset
event_name false = append

-- One event of the stream: its name, its id and its payload.
pub record Frame : Type 0 where
  pub event : EventName
  pub id : ℕ
  pub payload : Event

abbrev payload : Str → Bool → Event
payload t c = record { text = t; captured = c; next = 0 }

-- strconv.ParseUint(s, 10, 64) without its error: 0 on a syntax error, the largest value on a
-- range error.
parse_digits : ℕ → Str → ℕ
parse_digits n [] = n
parse_digits n (c ∷ s) =
    let m = n * 10 + (c - b'0') in
    let rest = parse_digits m s in
    if not (leb b'0' c && leb c b'9') then 0 else if leb (2 ^ 64) m then 2 ^ 64 - 1 else rest

unfoldable parse_uint : Str → ℕ
unfolding parse_digits
parse_uint s = parse_digits 0 s

abbrev frame_of : Bool → Reading → Frame
frame_of is_reset r = record {
  event = event_name is_reset;
  id = r.next;
  payload = payload r.text r.captured;
}

-- The first event: always a reset for a reader that starts at 0.
unfoldable pub first_event : ℕ → Reading → Frame
unfolding event_name
first_event offset r = frame_of (if offset == 0 then true else r.reset) r

-- After a wake: nothing if there is nothing new.
unfoldable pub wake_event : Reading → Option Frame
unfolding event_name str_eq
wake_event r = if str_eq r.text [] && not r.reset then none else some (frame_of r.reset r)

-- At a keep-alive: the stream ends with "gone" if the mapping is gone.
unfoldable pub keep_alive_event : Bool → ℕ → Option Frame
keep_alive_event alive offset =
    if alive then none else some (record { event = gone; id = offset; payload = payload [] false })

-- The fields that ReadSSE has read of the event at hand.
pub record Reader : Type 0 where
  pub event : Str
  pub id : ℕ
  pub payload : Str

-- trimNewline
unfoldable trim_newline : Str → Str
trim_newline [] = []
trim_newline (c ∷ s) =
    let rest = trim_newline s in if str_eq rest [] && (c == 10 || c == 13) then [] else c ∷ rest

-- One line of the body: the event to report, if the line ends one, and the new state.
unfoldable read_line : Reader → Str → Option Reader × Reader
unfolding str_eq has_prefix trim_newline
read_line r raw =
    let line = trim_newline raw in
    if str_eq line []
    then (
      (if str_eq r.event [] then none else some r),
      record { event = []; id = r.id; payload = [] },
    )
    else if ltb 7 (length line) && has_prefix line (text "event: ")
    then (none, record r { event = drop 7 line })
    else if ltb 4 (length line) && has_prefix line (text "id: ")
    then (none, record r { id = parse_uint (drop 4 line) })
    else if ltb 6 (length line) && has_prefix line (text "data: ")
    then (none, record r { payload = drop 6 line })
    else (none, r)

abbrev keep_event : Option Reader → List Reader → List Reader
keep_event none rest = rest
keep_event (some r) rest = r ∷ rest

-- The events of a body, cut at its newlines.
unfoldable read_lines : Reader → List Str → List Reader
unfolding read_line
read_lines r [] = []
read_lines r (line ∷ lines) =
    let (event, r') = read_line r line in keep_event event (read_lines r' lines)
