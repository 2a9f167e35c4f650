-- ===== src/Logstream.antt =====
-- internal/logstream/store.go: the bounded output of each service, and its subscribers. Every
-- method holds the mutex, so an operation is one step.
pub mod Lines
pub mod Trim
pub mod Window
pub mod Entries
pub mod Room
pub mod Stream
pub mod Follow
use localapp.Base.{
  ℕ, zero, suc, ◌+◌, ◌-◌, ◌^◌, true, false, Bool, not, ◌&&◌, ◌||◌, Option, none, some, List, [],
  ◌∷◌, ◌++◌, map, length, drop, ltb, leb, ◌==◌, if◌then◌else◌,
}
use Prim.Native.Nat.{◌%◌}
use localapp.Text.{Str, str_eq, index_byte}
use localapp.Keyed.{find}

abbrev pub max_lines : ℕ
max_lines = 1000

abbrev pub max_bytes : ℕ
max_bytes = 262144

abbrev pub max_services : ℕ
max_services = 64

-- uint64 addition.
abbrev pub add64 : ℕ → ℕ → ℕ
add64 a b = (a + b) % 2 ^ 64

abbrev pub newline : ℕ
newline = 10

-- The map entry of a service: its key, and `entry`.
pub record Entry : Type 0 where
  pub key : Str
  pub buf : Str
  pub start : ℕ
  pub used : ℕ

abbrev pub entry_key : Entry → Str
entry_key e = e.key

-- entry.end
unfoldable pub end : Entry → ℕ
end e = add64 e.start (length e.buf)

-- bytes.Count(s, '\n')
unfoldable count_newlines : Str → ℕ
count_newlines [] = 0
count_newlines (c ∷ s) = (if c == newline then 1 else 0) + count_newlines s

-- A trailing partial line.
unfoldable is_partial : Str → Bool
is_partial [] = false
is_partial (c ∷ []) = not (c == newline)
is_partial (c ∷ d ∷ s) = is_partial (d ∷ s)

unfoldable pub count_lines : Str → ℕ
unfolding count_newlines is_partial
count_lines s = count_newlines s + (if is_partial s then 1 else 0)

-- bytes.IndexByte(s, '\n') + 1
unfoldable pub next_line : Str → ℕ
unfolding index_byte
next_line s = elim (index_byte newline s) [ none ↦ 0 | some i ↦ suc i ]

-- The loop of trim that steps over the lines to drop.
unfoldable pub cut_lines : ℕ → Str → ℕ → ℕ
unfolding next_line
cut_lines zero buf cut = cut
cut_lines (suc n) buf cut = cut_lines n buf (cut + next_line (drop cut buf))

-- The byte limit: the cut moves on to a line boundary if there is one before the end.
abbrev to_boundary : ℕ → Str → Option ℕ → ℕ
to_boundary cut buf none = cut
to_boundary cut buf (some i) = if ltb (cut + suc i) (length buf) then cut + suc i else cut

unfoldable pub cut_bytes : ℕ → Str → ℕ → ℕ
unfolding index_byte
cut_bytes limit buf cut =
    let at = length buf - limit in
    if ltb limit (length buf - cut)
    then to_boundary at buf (index_byte newline (drop at buf))
    else cut

-- How many bytes trim drops, for any two limits.
unfoldable pub cut_for : ℕ → ℕ → Str → ℕ
unfolding cut_lines cut_bytes count_lines
cut_for lines bytes buf = cut_bytes bytes buf (cut_lines (count_lines buf - lines) buf 0)

-- entry.trim
unfoldable pub trim : Entry → Entry
unfolding cut_for
trim e =
    let cut = cut_for max_lines max_bytes e.buf in
    if cut == 0 then e else record e { buf = drop cut e.buf; start = add64 e.start cut }

-- A subscriber: the key that it follows, its channel, and whether a signal is pending.
pub record Subscriber : Type 0 where
  pub key : Str
  pub channel : ℕ
  pub pending : Bool

pub record Store : Type 0 where
  pub entries : List Entry
  pub subs : List Subscriber
  pub clock : ℕ

unfoldable pub key_of : Str → Str → Str
key_of app service = app ++ b'/' ∷ service

-- The loop that looks for the least recently used entry; at first `age` is the largest uint64.
unfoldable pub oldest_from : Str → ℕ → List Entry → Str
oldest_from oldest age [] = oldest
oldest_from oldest age (e ∷ es) =
    if ltb e.used age then oldest_from e.key e.used es else oldest_from oldest age es

unfoldable pub delete_entry : Str → List Entry → List Entry
unfolding str_eq
delete_entry k [] = []
delete_entry k (e ∷ es) = let rest = delete_entry k es in if str_eq e.key k then rest else e ∷ rest

unfoldable pub evict : List Entry → List Entry
unfolding oldest_from delete_entry
evict es =
    if leb max_services (length es) then delete_entry (oldest_from [] (2 ^ 64 - 1) es) es else es

abbrev pub new_entry : Str → Entry
new_entry k = record { key = k; buf = []; start = 0; used = 0 }

-- The entry after the text: appended, trimmed, and marked as used.
unfoldable pub append_entry : Str → ℕ → Entry → Entry
unfolding trim
append_entry text clock e = record (trim (record e { buf = e.buf ++ text })) { used = clock }

unfoldable pub update_entry : Str → (Entry → Entry) → List Entry → List Entry
unfolding str_eq
update_entry k f [] = []
update_entry k f (e ∷ es) = if str_eq e.key k then f e ∷ es else e ∷ update_entry k f es

-- The non-blocking send on each channel of the key.
abbrev pub signal : Str → Subscriber → Subscriber
signal k s = if str_eq s.key k then record s { pending = true } else s

unfoldable pub append : Str → Str → Str → Store → Store
append app service text s =
    let k = key_of app service in
    let clock = add64 s.clock 1 in
    record {
      entries = elim (find entry_key k s.entries) [
        | none ↦ append_entry text clock (new_entry k) ∷ evict s.entries
        | some e ↦ update_entry k (append_entry text clock) s.entries
      ];
      subs = map (signal k) s.subs;
      clock = clock;
    }

-- The results of ReadFrom.
pub record Reading : Type 0 where
  pub text : Str
  pub next : ℕ
  pub captured : Bool
  pub reset : Bool

unfoldable pub read_entry : Option Entry → ℕ → Reading
unfolding end
read_entry none offset = record { text = []; next = 0; captured = false; reset = not (offset == 0) }
read_entry (some e) offset =
    if ltb offset e.start || ltb (end e) offset
    then record { text = e.buf; next = end e; captured = true; reset = true }
    else record {
      text = drop (offset - e.start) e.buf;
      next = end e;
      captured = true;
      reset = false;
    }

unfoldable pub read_from : Str → Str → ℕ → Store → Reading
unfolding read_entry key_of find
read_from app service offset s = read_entry (find entry_key (key_of app service) s.entries) offset

-- Snapshot
unfoldable pub snapshot : Str → Str → Store → Str × Bool
unfolding read_from
snapshot app service s = let r = read_from app service 0 s in (r.text, r.captured)

unfoldable subscribe : Str → Str → ℕ → Store → Store
unfolding key_of
subscribe app service channel s = record s {
  subs = record { key = key_of app service; channel = channel; pending = false } ∷ s.subs;
}

-- cancel: the channel is deleted from the subscribers of its key.
unfoldable drop_channel : Str → ℕ → List Subscriber → List Subscriber
unfolding str_eq
drop_channel k channel [] = []
drop_channel k channel (x ∷ xs) =
    let rest = drop_channel k channel xs in
    if str_eq x.key k && x.channel == channel then rest else x ∷ rest

unfoldable cancel : Str → Str → ℕ → Store → Store
unfolding key_of drop_channel
cancel app service channel s = record s { subs = drop_channel (key_of app service) channel s.subs }

count_key : Str → List Subscriber → ℕ
count_key k [] = 0
count_key k (x ∷ xs) = (if str_eq x.key k then 1 else 0) + count_key k xs

-- Subscribers
unfoldable subscribers : Str → Str → Store → ℕ
unfolding count_key key_of str_eq
subscribers app service s = count_key (key_of app service) s.subs
