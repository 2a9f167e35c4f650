-- ===== src/Config.antt =====
-- internal/config/config.go: the configuration from the environment, and the environment that a
-- service manager is given. `join` is filepath.Join.
pub mod RoundTrip
use localapp.Base.{
  ℕ, ◌||◌, ◌==◌, true, false, Bool, Option, none, some, List, [], ◌∷◌, ◌++◌, ltb, if◌then◌else◌, ℤ,
  pos, negsuc, ◌>>=◌,
}
use localapp.Text.{Str, text, str_eq}
use localapp.Text.Number.{atoi, itoa}

-- The variables, by the names after LOCALAPP_.
pub data Variable : Type 0 where
  var_domain var_state_dir var_dns_port var_http_port var_https_port var_socket : Variable

unfoldable pub same_variable : Variable → Variable → Bool
same_variable var_domain var_domain = true
same_variable var_state_dir var_state_dir = true
same_variable var_dns_port var_dns_port = true
same_variable var_http_port var_http_port = true
same_variable var_https_port var_https_port = true
same_variable var_socket var_socket = true
same_variable _ _ = false

abbrev pub Environment : Type 0
Environment = List (Variable × Str)

-- os.LookupEnv
unfoldable pub lookup_env : Variable → Environment → Option Str
lookup_env k [] = none
lookup_env k ((v, value) ∷ env) = if same_variable v k then some value else lookup_env k env

-- A port is never negative here.
pub record Config : Type 0 where
  pub domain : Str
  pub state_dir : Str
  pub socket_path : Str
  pub dns_port : ℕ
  pub http_port : ℕ
  pub https_port : ℕ

unfoldable pub default_domain : Str
default_domain = text "localapp"

abbrev pub default_dns_port : ℕ
default_dns_port = 15353

abbrev pub default_http_port : ℕ
default_http_port = 80

abbrev pub default_https_port : ℕ
default_https_port = 443

abbrev pub string_or : Str → Option Str → Str
string_or default none = default
string_or default (some []) = default
string_or default (some (c ∷ v)) = c ∷ v

unfoldable pub env_string : Environment → Variable → Str → Str
env_string env k default = string_or default (lookup_env k env)

abbrev in_range : ℕ → Option ℤ → ℕ
in_range default none = default
in_range default (some (negsuc n)) = default
in_range default (some (pos n)) = if ltb n 1 || ltb 65535 n then default else n

abbrev pub int_or : ℕ → Option Str → ℕ
int_or default none = default
int_or default (some []) = default
int_or default (some (c ∷ v)) = in_range default (atoi (c ∷ v))

unfoldable pub env_int : Environment → Variable → ℕ → ℕ
env_int env k default = int_or default (lookup_env k env)

-- `platform_dir` is the platform's state directory.
unfoldable pub load : (Str → Str → Str) → Str → Environment → Config
load join platform_dir env =
    let dir = env_string env var_state_dir platform_dir in
    record {
      domain = env_string env var_domain default_domain;
      state_dir = dir;
      dns_port = env_int env var_dns_port default_dns_port;
      http_port = env_int env var_http_port default_http_port;
      https_port = env_int env var_https_port default_https_port;
      socket_path = env_string env var_socket (join dir (text "control.sock"));
    }

-- if value != default { env[key] = value }
abbrev pub unless : Bool → Variable → Str → Environment → Environment
unless true k value env = env
unless false k value env = (k, value) ∷ env

unfoldable pub non_default_env : (Str → Str → Str) → Str → Config → Environment
non_default_env join platform_dir c = unless (str_eq c.domain default_domain) var_domain c.domain (
    unless (c.dns_port == default_dns_port) var_dns_port (itoa c.dns_port) (
      unless (c.http_port == default_http_port) var_http_port (itoa c.http_port) (
        unless (c.https_port == default_https_port) var_https_port (itoa c.https_port) (
          unless (str_eq c.state_dir platform_dir) var_state_dir c.state_dir (
            unless (str_eq c.socket_path (join c.state_dir (text "control.sock"))) var_socket
              c.socket_path [])))))

unfoldable listeners : Config → List (Str × Str)
listeners c =
    (text "dns", text "127.0.0.1:" ++ itoa c.dns_port)
    ∷ (text "http", text "127.0.0.1:" ++ itoa c.http_port)
    ∷ (text "https", text "127.0.0.1:" ++ itoa c.https_port)
    ∷ []

-- The files of the state directory.
unfoldable registry_path : (Str → Str → Str) → Config → Str
registry_path join c = join c.state_dir (text "registry.json")

unfoldable log_path : (Str → Str → Str) → Config → Str
log_path join c = join c.state_dir (text "daemon.log")

unfoldable ca_dir : (Str → Str → Str) → Config → Str
ca_dir join c = join c.state_dir (text "ca")

unfoldable certs_dir : (Str → Str → Str) → Config → Str
certs_dir join c = join c.state_dir (text "certs")
