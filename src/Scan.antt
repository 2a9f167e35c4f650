-- ===== src/Scan.antt =====
-- internal/scan/scan.go: the listening sockets that lsof reports, and which of them are candidates.
pub mod Parsing
pub mod Filtering
use localapp.Base.{
  ℕ, suc, true, false, Bool, not, ◌&&◌, ◌||◌, Option, none, some, List, [], ◌∷◌, length, take, drop,
  ltb, leb, ◌==◌, if◌then◌else◌, ℤ, pos, negsuc, eqb_ℤ, ◌>>=◌,
}
use localapp.Text.{Str, str_eq, text, split, trim_right, last_index_byte}
use localapp.Text.Number.{atoi}

-- A port is between 1 and 65535 here, so it is a number.
pub record Listener : Type 0 where
  pub port : ℕ
  pub pid : ℤ
  pub command : Str
  pub address : Str

-- The checks on Atoi's result: no error, and 1-65535.
unfoldable pub checked_port : Option ℤ → Option ℕ
checked_port none = none
checked_port (some (negsuc n)) = none
checked_port (some (pos n)) = if ltb n 1 || ltb 65535 n then none else some n

unfoldable pub is_local : Str → Bool
is_local addr =
    str_eq addr (text "127.0.0.1") || str_eq addr (text "*") || str_eq addr (text "0.0.0.0")

abbrev socket_at : Str → Option ℕ → Option (Str × ℕ)
socket_at name none = none
socket_at name (some i) = checked_port (atoi (drop (suc i) name)) >>= λ port.
    if is_local (take i name) then some (take i name, port) else none

unfoldable pub parse_socket_name : Str → Option (Str × ℕ)
parse_socket_name name = socket_at name (last_index_byte b':' name)

-- What ParseLsof carries from line to line.
pub record Current : Type 0 where
  pub pid : ℤ
  pub command : Str

abbrev set_pid : Current → Option ℤ → Current
set_pid c none = record c { pid = pos 0 }
set_pid c (some n) = record { pid = n; command = [] }

abbrev listed : Current → Option (Str × ℕ) → Option Listener
listed c none = none
listed c (some (addr, port)) =
    if eqb_ℤ c.pid (pos 0)
    then none
    else some (record { port = port; pid = c.pid; command = c.command; address = addr })

-- One line: the field's type is its first byte.
unfoldable pub parse_line : Current → Str → Option Listener × Current
parse_line c [] = (none, c)
parse_line c (field ∷ []) = (none, c)
parse_line c (field ∷ v ∷ value) =
    if field == b'p'
    then (none, set_pid c (atoi (v ∷ value)))
    else if field == b'c'
    then (none, record c { command = v ∷ value })
    else if field == b'n'
    then (listed c (parse_socket_name (v ∷ value)), c)
    else (none, c)

abbrev append_some : Option Listener → List Listener → List Listener
append_some none rest = rest
append_some (some l) rest = l ∷ rest

unfoldable pub parse_lines : Current → List Str → List Listener
parse_lines c [] = []
parse_lines c (line ∷ lines) =
    let (found, c') = parse_line c (trim_right b'\r' line) in
    append_some found (parse_lines c' lines)

unfoldable pub parse_lsof : Str → List Listener
parse_lsof out = parse_lines (record { pid = pos 0; command = [] }) (split b'\n' out)

-- The map `seen`, as the ports that it holds.
unfoldable pub has_port : ℕ → List ℕ → Bool
has_port port [] = false
has_port port (p ∷ ports) = p == port || has_port port ports

-- The loop of Filter.
unfoldable pub keep_new : (ℕ → Bool) → List ℕ → List Listener → List Listener
keep_new exclude seen [] = []
keep_new exclude seen (l ∷ list) =
    let skipped = keep_new exclude seen list in
    let kept = keep_new exclude (l.port ∷ seen) list in
    if exclude l.port || has_port l.port seen then skipped else l ∷ kept

-- sort.Slice by port, as an insertion sort; the ports differ, so every sort gives this result.
unfoldable pub insert_by_port : Listener → List Listener → List Listener
insert_by_port l [] = l ∷ []
insert_by_port l (x ∷ xs) = if ltb x.port l.port then x ∷ insert_by_port l xs else l ∷ x ∷ xs

unfoldable pub sort_by_port : List Listener → List Listener
sort_by_port [] = []
sort_by_port (l ∷ list) = insert_by_port l (sort_by_port list)

unfoldable pub filter : List Listener → (ℕ → Bool) → List Listener
filter list exclude = sort_by_port (keep_new exclude [] list)

abbrev or_zero : Option ℕ → ℕ
or_zero none = 0
or_zero (some n) = n

unfoldable port_of : Str → ℕ
port_of addr = or_zero (last_index_byte b':' addr >>= λ i. checked_port (atoi (drop (suc i) addr)))
