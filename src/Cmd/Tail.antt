-- ===== src/Cmd/Tail.antt =====
-- cmd/localapp/logs.go and logcat.go: the last lines of a log. A negative number of lines is refused
-- before these are called.
pub mod Lines
pub mod Agreement
pub mod Blank
use localapp.Base.{
  ℕ, zero, suc, ◌-◌, Bool, true, false, not, ◌||◌, Option, none, some, [], ◌∷◌, length, take, drop,
  get_elem?, ◌==◌, if◌then◌else◌,
}
use localapp.Text.{Str, last_index_byte, str_eq}
use localapp.Logstream.{newline}

-- data[i], within bounds.
abbrev pub byte_at : Str → ℕ → ℕ
byte_at s i = elim (get_elem? s i) [ none ↦ 0 | some c ↦ c ]

-- The end of the last line: before a newline that ends the text.
unfoldable pub line_end : Str → ℕ
line_end s = if byte_at s (length s - 1) == newline then length s - 1 else length s

-- The loop of lastLines over `i - 1`, …, 0.
unfoldable pub scan_back : ℕ → Str → ℕ → ℕ → Str
scan_back zero text n count = text
scan_back (suc i) text n count =
    let on = scan_back i text n count in
    let counted = scan_back i text n (suc count) in
    if not (byte_at text i == newline)
    then on
    else if suc count == n
    then drop (suc i) text
    else counted

-- lastLines
unfoldable pub last_lines : Str → ℕ → Str
last_lines text n = if n == 0 || str_eq text [] then text else scan_back (line_end text) text n 0

-- The loop of tailLines.
unfoldable pub tail_loop : ℕ → Str → ℕ → Str
unfolding last_index_byte
tail_loop zero text i = drop (suc i) text
tail_loop (suc n) text i =
    if i == 0
    then drop (suc i) text
    else elim (last_index_byte newline (take i text)) [ none ↦ text | some j ↦ tail_loop n text j ]

-- tailLines
unfoldable pub tail_lines : Str → ℕ → Str
tail_lines text n = if n == 0 || str_eq text [] then text else tail_loop n text (line_end text)
