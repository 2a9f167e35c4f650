-- ===== src/Registry.antt =====
-- internal/registry/registry.go and process.go: services and apps, their validation and
-- normalisation, the URLs of a registration, and its liveness.
pub mod Names
pub mod Paths
pub mod File
pub mod Store
use localapp.Base.{
  ℕ, ◌≡◌, true, false, Bool, not, ◌&&◌, ◌||◌, Option, none, some, List, [], ◌∷◌, ◌++◌, length, take,
  ltb, leb, ◌==◌, if◌then◌else◌, ℤ, pos, negsuc, ltb_ℤ,
}
use localapp.Text.{Str, text, str_eq, has_prefix, contains, all_bytes, trim, trim_right, to_lower}
use localapp.Keyed.{find}

-- Status: the liveness states.
pub data Status : Type 0 where
  up down : Status

unfoldable pub default_service : Str
unfolding text
default_service = text "web"

pub record Service : Type 0 where
  pub name : Str
  pub port : ℤ
  pub path : Str
  pub strip_path : Bool
  pub pid : ℤ

abbrev pub service_name : Service → Str
service_name s = s.name

pub record App : Type 0 where
  pub name : Str
  pub services : List Service

abbrev pub app_name : App → Str
app_name a = a.name

-- App.Service(name)
unfoldable pub service : App → Str → Option Service
unfolding find
service a name = find service_name name a.services

-- The validation error codes.
pub data Code : Type 0 where
  invalid_name invalid_port invalid_path invalid_pid : Code

pub record ValidationError : Type 0 where
  pub code : Code
  pub message : Str

abbrev failed : Code → Str → Option ValidationError
failed c m = some (record { code = c; message = m })

-- if err := first; err != nil { return err }; return rest
abbrev or_else : Option ValidationError → Option ValidationError → Option ValidationError
or_else none rest = rest
or_else (some e) rest = some e

-- [a-z0-9-]
unfoldable pub is_name_byte : ℕ → Bool
is_name_byte c = (leb b'a' c && leb c b'z') || (leb b'0' c && leb c b'9') || c == b'-'

-- nameRe.MatchString for ^[a-z0-9-]{1,63}$
unfoldable pub name_re : Str → Bool
unfolding is_name_byte all_bytes
name_re s = leb 1 (length s) && leb (length s) 63 && all_bytes is_name_byte s

unfoldable pub validate_name : Str → Str → Option ValidationError
validate_name kind name =
    if name_re name
    then none
    else failed invalid_name (kind ++ text " name must match [a-z0-9-]{1,63}")

unfoldable pub validate_port : ℤ → Option ValidationError
validate_port port =
    if ltb_ℤ port (pos 1) || ltb_ℤ (pos 65535) port
    then failed invalid_port (text "port must be 1-65535")
    else none

-- strings.ContainsAny(p, " \t\r\n"), with the tests for "?" and "#" before it.
unfoldable pub has_forbidden : Str → Bool
unfolding contains
has_forbidden p =
    contains b'?' p
    || contains b'#' p
    || contains b' ' p
    || contains b'\t' p
    || contains b'\r' p
    || contains b'\n' p

unfoldable pub validate_path : Str → Option ValidationError
unfolding has_forbidden has_prefix str_eq
validate_path p =
    if str_eq p []
    then none
    else if not (has_prefix p (b'/' ∷ []))
    then failed invalid_path (text "path must start with \"/\"")
    else if has_forbidden p
    then failed invalid_path (text "path must not contain query, fragment or whitespace")
    else none

unfoldable pub validate_pid : ℤ → Option ValidationError
validate_pid pid =
    if ltb_ℤ pid (pos 0) then failed invalid_pid (text "pid must not be negative") else none

-- Service.Validate
unfoldable pub validate : Service → Option ValidationError
validate s =
    or_else (validate_name (text "service") s.name)
      (or_else (validate_port s.port) (or_else (validate_path s.path) (validate_pid s.pid)))

-- [a-z0-9]
abbrev pub is_alnum : ℕ → Bool
is_alnum r = (leb b'a' r && leb r b'z') || (leb b'0' r && leb r b'9')

-- The loop of NormalizeName over the lowercased input, with `prevDash`.
collapse : Bool → Str → Str
collapse prev_dash [] = []
collapse prev_dash (r ∷ s) =
    if is_alnum r
    then r ∷ collapse false s
    else if prev_dash
    then collapse true s
    else b'-' ∷ collapse true s

unfoldable pub truncate : Str → Str
unfolding trim
truncate out = if ltb 63 (length out) then trim b'-' (take 63 out) else out

-- `unicode` is strings.ToLower on a string that is not ASCII.
unfoldable pub normalize_name : (Str → Str) → Str → Str
unfolding collapse
normalize_name unicode s = truncate (trim b'-' (collapse false (to_lower unicode s)))

unfoldable pub normalize_path : Str → Str
unfolding trim_right str_eq
normalize_path p = if str_eq p [] then [] else trim_right b'/' p

-- The closure `add` of URLs: a URL that is already there is not added again.
unfoldable add_url : Str → List Str → List Str
add_url u [] = u ∷ []
add_url u (x ∷ urls) = if str_eq x u then x ∷ urls else x ∷ add_url u urls

unfoldable pub app_host : Str → Str → Str
app_host app domain = app ++ b'.' ∷ domain

unfoldable pub service_host : Str → Str → Str → Str
service_host name app domain = name ++ b'.' ∷ app ++ b'.' ∷ domain

abbrev url : Str → Str → Str
url host path = text "https://" ++ host ++ path ++ b'/' ∷ []

-- Service.URLs
unfoldable pub urls : Service → Str → Str → List Str
unfolding add_url app_host service_host normalize_path default_service
urls s app domain =
    let apex =
      if str_eq s.name default_service then add_url (url (app_host app domain) []) [] else [] in
    let named = add_url (url (service_host s.name app domain) []) apex in
    let p = normalize_path s.path in
    if str_eq p [] then named else add_url (url (app_host app domain) p) named

-- What the operating system answers. `signal` is sending signal 0 to a process, `dial` a TCP
-- connection to a port of 127.0.0.1 within a timeout in milliseconds.
pub data Signalled : Type 0 where
  delivered not_permitted no_such_process : Signalled

pub record Os : Type 0 where
  pub find_process : ℤ → Bool
  pub signal : ℤ → Signalled
  pub dial : ℤ → ℤ → Bool

-- The end of ProcessAlive: no error, or EPERM.
abbrev alive_signal : Signalled → Bool
alive_signal delivered = true
alive_signal not_permitted = true
alive_signal no_such_process = false

unfoldable pub process_alive : Os → ℤ → Bool
process_alive os pid =
    if not (ltb_ℤ (pos 0) pid)
    then true
    else if os.find_process pid
    then alive_signal (os.signal pid)
    else false

abbrev pub default_probe_timeout : ℤ
default_probe_timeout = pos 200

unfoldable pub status : Os → ℤ → ℤ → Status
status os port timeout =
    if os.dial port (if ltb_ℤ (pos 0) timeout then timeout else default_probe_timeout)
    then up
    else down

unfoldable pub service_status : Os → Service → ℤ → Status
unfolding process_alive status
service_status os svc timeout =
    if not (process_alive os svc.pid) then down else status os svc.port timeout
