-- ===== src/Net.antt =====
-- The functions of packages `strings` and `net` that take a Host header apart.
pub mod HostPort
pub mod Spaces
use localapp.Base.{
  ℕ, suc, ◌-◌, ◌+◌, Bool, true, false, ◌||◌, Option, none, some, List, [], ◌∷◌, take, drop, length,
  ◌==◌, leb, ◌&&◌, if◌then◌else◌,
}
use localapp.Text.{Str, contains, index_byte, last_index_byte, has_prefix}

-- The ASCII white space of strings.TrimSpace. A Host header is ASCII.
unfoldable pub is_space : ℕ → Bool
is_space c = c == b' ' || (leb 9 c && leb c 13)

trim_space_left : Str → Str
trim_space_left [] = []
trim_space_left (c ∷ s) = if is_space c then trim_space_left s else c ∷ s

abbrev keep_unless_space : ℕ → Str → Str
keep_unless_space c [] = if is_space c then [] else c ∷ []
keep_unless_space c (d ∷ s) = c ∷ d ∷ s

trim_space_right : Str → Str
trim_space_right [] = []
trim_space_right (c ∷ s) = keep_unless_space c (trim_space_right s)

unfoldable pub trim_space : Str → Str
unfolding trim_space_left trim_space_right is_space
trim_space s = trim_space_right (trim_space_left s)

-- The end of net.SplitHostPort: stray brackets are errors.
abbrev check_brackets : Str → Str → Str → Option Str
check_brackets host after_open after_close =
    if contains b'[' after_open then none else if contains b']' after_close then none else some host

abbrev bracketed : Str → ℕ → Option ℕ → Option Str
bracketed s i none = none
bracketed s i (some end) =
    if end + 1 == length s
    then none
    else if end + 1 == i
    then check_brackets (take (end - 1) (drop 1 s)) (drop 1 s) (drop (end + 1) s)
    else none

abbrev unbracketed : Str → ℕ → Option Str
unbracketed s i = if contains b':' (take i s) then none else check_brackets (take i s) s s

-- net.SplitHostPort, the host; `none` is an error.
unfoldable pub split_host_port : Str → Option Str
unfolding contains index_byte last_index_byte has_prefix
split_host_port s = elim (last_index_byte b':' s) [
  | none ↦ none
  | some i ↦ if has_prefix s (b'[' ∷ []) then bracketed s i (index_byte b']' s) else unbracketed s i
]
