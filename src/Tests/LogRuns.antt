-- ===== src/Tests/LogRuns.antt =====
-- The log of a service: what is kept, and what a reader sees.
use localapp.Text.{contains}
use localapp.Base.{◌≤◌, ◌≡◌, ◌++◌, refl, false, some, List, [], ◌∷◌, arith}
use localapp.Text.{Str, text}
use localapp.Text.Utf8.{to_valid_utf8}
use localapp.Logstream.{
  Store, entry_key, key_of, append, add64, Entry, new_entry, append_entry, cut_for, max_lines,
  max_bytes, Reading, read_entry,
}
use localapp.Logstream.Trim.{IsCut, cut_for-IsCut}
use localapp.Logstream.Window.{
  Holds, IsReading, new_entry-Holds, append_entry-Holds, read_entry-IsReading,
}
use localapp.Logstream.Follow.{Session, Happening, output, wake, evicted, connect, run, written}
use localapp.Logstream.Room.{IsRoomy, append-IsRoomy}
use localapp.Tests.Fixtures.{web}

-- Three lines, of which two are kept.
abbrev three_lines : Str
three_lines = b'a' ∷ b'\n' ∷ b'b' ∷ b'\n' ∷ b'c' ∷ b'\n' ∷ []

three_lines-cut : cut_for 2 100 three_lines ≡ 2
unfolding cut_for localapp.Logstream.cut_lines localapp.Logstream.cut_bytes
    localapp.Logstream.count_lines localapp.Logstream.next_line localapp.Text.index_byte
three_lines-cut = refl

-- Four bytes are the limit: the cut moves on to the next line.
three_lines-bytes : cut_for 10 3 three_lines ≡ 4
unfolding cut_for localapp.Logstream.cut_lines localapp.Logstream.cut_bytes
    localapp.Logstream.count_lines localapp.Logstream.next_line localapp.Text.index_byte
three_lines-bytes = refl

cut_for-IsCut_example : IsCut 2 100 three_lines (cut_for 2 100 three_lines)
cut_for-IsCut_example = cut_for-IsCut 2 100 three_lines (omega arith)

abbrev written_once : Entry
written_once = append_entry three_lines 1 (new_entry web)

written_once-Holds : Holds three_lines written_once
written_once-Holds =
    append_entry-Holds [] three_lines 1 (new_entry web) (omega arith) (new_entry-Holds web)

read_entry-IsReading_example :
    IsReading three_lines written_once.start 2 (read_entry (some written_once) 2)
read_entry-IsReading_example =
    read_entry-IsReading three_lines written_once 2 (omega arith) written_once-Holds

abbrev one_line : Str
one_line = b'd' ∷ b'\n' ∷ []

abbrev happenings : List Happening
happenings = output one_line 2 ∷ wake ∷ []

-- After the wake-up there is no signal left, and the client shows all four lines.
abbrev settled : Session
settled = run (connect web (some written_once) three_lines 0 []) happenings

settled-shown : settled.shown ≡ three_lines ++ one_line
unfolding run connect written append_entry read_entry localapp.Logstream.trim localapp.Logstream.end
    cut_for localapp.Logstream.cut_lines localapp.Logstream.cut_bytes localapp.Logstream.count_lines
    localapp.Logstream.next_line localapp.Logstream.Follow.step
    localapp.Logstream.Stream.first_event localapp.Logstream.Stream.event_name
    localapp.Logstream.Stream.wake_event localapp.Text.index_byte localapp.Text.str_eq
    localapp.Text.Utf8.to_valid_utf8 localapp.Text.Utf8.coerce_after localapp.Text.Utf8.rune_size
settled-shown = refl

-- Output of another service took the entry's place, and the service wrote more than before: the
-- offset that the client keeps lies inside the new window.
abbrev evicted_then : List Happening
evicted_then = evicted ∷ output (one_line ++ three_lines) 3 ∷ wake ∷ []

stale_offset-shown :
    (run (connect web (some written_once) three_lines 0 []) evicted_then).shown
    ≡ three_lines ++ b'c' ∷ b'\n' ∷ []
unfolding run connect append_entry read_entry localapp.Logstream.trim localapp.Logstream.end cut_for
    localapp.Logstream.cut_lines localapp.Logstream.cut_bytes localapp.Logstream.count_lines
    localapp.Logstream.next_line localapp.Logstream.Follow.step
    localapp.Logstream.Stream.first_event localapp.Logstream.Stream.event_name
    localapp.Logstream.Stream.wake_event localapp.Text.index_byte localapp.Text.str_eq
    localapp.Text.Utf8.to_valid_utf8 localapp.Text.Utf8.coerce_after localapp.Text.Utf8.rune_size
stale_offset-shown = refl

-- A code point of two bytes is kept, a byte of it alone is not, and a surrogate is three bytes that
-- are not.
coercions :
    (to_valid_utf8 (97 ∷ 195 ∷ 169 ∷ []) ≡ 97 ∷ 195 ∷ 169 ∷ [])
    × (to_valid_utf8 (97 ∷ 195 ∷ []) ≡ 97 ∷ 239 ∷ 191 ∷ 189 ∷ [])
    × (to_valid_utf8 (237 ∷ 160 ∷ 128 ∷ [])
        ≡ 239 ∷ 191 ∷ 189 ∷ 239 ∷ 191 ∷ 189 ∷ 239 ∷ 191 ∷ 189 ∷ [])
unfolding to_valid_utf8 localapp.Text.Utf8.coerce_after localapp.Text.Utf8.rune_size
coercions = (refl, refl, refl)

-- A first read of an entry that was never trimmed is no reset.
first_read : (read_entry (some written_once) 0).reset ≡ false
unfolding read_entry append_entry localapp.Logstream.trim localapp.Logstream.end cut_for
    localapp.Logstream.cut_lines localapp.Logstream.cut_bytes localapp.Logstream.count_lines
    localapp.Logstream.next_line localapp.Text.index_byte
first_read = refl

abbrev one_entry : Store
one_entry = record { entries = written_once ∷ []; subs = []; clock = 1 }

written_once-used : written_once.used ≤ 1
unfolding append_entry
written_once-used = omega arith

one_entry-IsRoomy : IsRoomy one_entry
one_entry-IsRoomy = record { few = omega arith; past = (written_once-used, tt) }

append-IsRoomy_example : IsRoomy (append web web one_line one_entry)
append-IsRoomy_example = append-IsRoomy web web one_line one_entry (omega arith) one_entry-IsRoomy

web-slash : contains b'/' web ≡ false
unfolding contains
web-slash = refl
