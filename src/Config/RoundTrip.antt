-- ===== src/Config/RoundTrip.antt =====
-- NonDefaultEnv and Load against each other.
use localapp.Base.{
  ℕ, ◌≤◌, ◌≡◌, ◌≢◌, ◌||◌, ◌==◌, refl, sym, ◌∙◌, true, false, Bool, Option, none, some, [], ◌∷◌,
  arith, ltb, Bool-cases, inl, inr, pos,
}
use localapp.Text.{Str, text, str_eq}
use localapp.Text.Order.{str_eq→eq}
use localapp.Text.Number.{atoi, itoa, atoi-itoa}
use localapp.Config.{
  Variable, var_domain, var_state_dir, var_dns_port, var_http_port, var_https_port, var_socket,
  same_variable, Environment, lookup_env, Config, default_domain, default_dns_port,
  default_http_port, default_https_port, string_or, env_string, int_or, env_int, load, unless,
  non_default_env,
}

-- A port that may be listened on.
abbrev IsPort : ℕ → Type 0
IsPort n = (1 ≤ n) × (n ≤ 65535)

-- The configurations that Load can produce: nothing is empty, and the ports are ports.
pub record IsLoadable (c : Config) : Type 0 where
  pub domain : c.domain ≢ []
  pub state_dir : c.state_dir ≢ []
  pub socket : c.socket_path ≢ []
  pub dns : IsPort c.dns_port
  pub http : IsPort c.http_port
  pub https : IsPort c.https_port

lookup-other :
    (b : Bool) (k v : Variable) (value : Str) (env : Environment)
    → same_variable v k ≡ false
    → lookup_env k (unless b v value env) ≡ lookup_env k env
unfolding lookup_env
lookup-other true k v value env h = refl
lookup-other false k v value env h = rw h refl

same_variable_refl : (k : Variable) → same_variable k k ≡ true
unfolding same_variable
same_variable_refl var_domain = refl
same_variable_refl var_state_dir = refl
same_variable_refl var_dns_port = refl
same_variable_refl var_http_port = refl
same_variable_refl var_https_port = refl
same_variable_refl var_socket = refl

-- What an entry of the environment gives back.
abbrev given : Bool → Str → Option Str
given true value = none
given false value = some value

lookup-own :
    (b : Bool) (k : Variable) (value : Str) (env : Environment)
    → lookup_env k env ≡ none
    → lookup_env k (unless b k value env) ≡ given b value
unfolding lookup_env
lookup-own true k value env h = h
lookup-own false k value env h = rw (same_variable_refl k) refl

string_or-given :
    (default value : Str)
    → value ≢ []
    → string_or default (given (str_eq value default) value) ≡ value
string_or-given default [] n = absurd (n refl)
string_or-given default (c ∷ v) n = elim (Bool-cases (str_eq (c ∷ v) default)) [
  | inl e ↦ rw (e, given) (sym (str_eq→eq (c ∷ v) default e))
  | inr e ↦ rw (e, given) refl
]

int_or-some :
    (default n : ℕ) (s : Str) → IsPort n → atoi s ≡ some (pos n) → int_or default (some s) ≡ n
int_or-some default n [] h e = absurd (unfold atoi in cc)
int_or-some default n (c ∷ s) h e =
    let ok : (ltb n 1 || ltb 65535 n) ≡ false = ground arith in rw (e, int_or) (rw ok refl)

int_or-given : (default n : ℕ) → IsPort n → int_or default (given (n == default) (itoa n)) ≡ n
int_or-given default n h = elim (Bool-cases (n == default)) [
  | inl e ↦ rw (e, given) (ground arith)
  | inr e ↦ rw (e, given) (int_or-some default n (itoa n) h (atoi-itoa n (omega arith)))
]

module _ (join : Str → Str → Str) (platform_dir : Str) (c : Config) where
  abbrev socket_default : Str
  socket_default = join c.state_dir (text "control.sock")

  -- The environment from each of its entries on.
  abbrev env_socket : Environment
  env_socket = unless (str_eq c.socket_path socket_default) var_socket c.socket_path []

  abbrev env_dir : Environment
  env_dir = unless (str_eq c.state_dir platform_dir) var_state_dir c.state_dir env_socket

  abbrev env_https : Environment
  env_https = unless (c.https_port == default_https_port) var_https_port (itoa c.https_port) env_dir

  abbrev env_http : Environment
  env_http = unless (c.http_port == default_http_port) var_http_port (itoa c.http_port) env_https

  abbrev env_dns : Environment
  env_dns = unless (c.dns_port == default_dns_port) var_dns_port (itoa c.dns_port) env_http

  abbrev env : Environment
  env = unless (str_eq c.domain default_domain) var_domain c.domain env_dns

  past_socket : (k : Variable) → same_variable var_socket k ≡ false → lookup_env k env_socket ≡ none
  past_socket k h =
      lookup-other (str_eq c.socket_path socket_default) k var_socket c.socket_path [] h
      ∙ (unfold lookup_env in refl)

  past_dir :
      (k : Variable)
      → same_variable var_state_dir k ≡ false
      → lookup_env k env_dir ≡ lookup_env k env_socket
  past_dir k h =
      lookup-other (str_eq c.state_dir platform_dir) k var_state_dir c.state_dir env_socket h

  past_https :
      (k : Variable)
      → same_variable var_https_port k ≡ false
      → lookup_env k env_https ≡ lookup_env k env_dir
  past_https k h =
      lookup-other (c.https_port == default_https_port) k var_https_port (itoa c.https_port) env_dir
        h

  past_http :
      (k : Variable)
      → same_variable var_http_port k ≡ false
      → lookup_env k env_http ≡ lookup_env k env_https
  past_http k h =
      lookup-other (c.http_port == default_http_port) k var_http_port (itoa c.http_port) env_https h

  past_dns :
      (k : Variable)
      → same_variable var_dns_port k ≡ false
      → lookup_env k env_dns ≡ lookup_env k env_http
  past_dns k h =
      lookup-other (c.dns_port == default_dns_port) k var_dns_port (itoa c.dns_port) env_http h

  past_domain :
      (k : Variable) → same_variable var_domain k ≡ false → lookup_env k env ≡ lookup_env k env_dns
  past_domain k h = lookup-other (str_eq c.domain default_domain) k var_domain c.domain env_dns h

  found_domain : lookup_env var_domain env ≡ given (str_eq c.domain default_domain) c.domain
  unfolding same_variable
  found_domain = lookup-own (str_eq c.domain default_domain) var_domain c.domain env_dns (
      past_dns _ refl ∙ past_http _ refl ∙ past_https _ refl ∙ past_dir _ refl ∙ past_socket _ refl)

  found_dns : lookup_env var_dns_port env ≡ given (c.dns_port == default_dns_port) (itoa c.dns_port)
  unfolding same_variable
  found_dns =
      past_domain _ refl
      ∙ lookup-own (c.dns_port == default_dns_port) var_dns_port (itoa c.dns_port) env_http
          (past_http _ refl ∙ past_https _ refl ∙ past_dir _ refl ∙ past_socket _ refl)

  found_http :
      lookup_env var_http_port env ≡ given (c.http_port == default_http_port) (itoa c.http_port)
  unfolding same_variable
  found_http =
      past_domain _ refl
      ∙ past_dns _ refl
      ∙ lookup-own (c.http_port == default_http_port) var_http_port (itoa c.http_port) env_https
          (past_https _ refl ∙ past_dir _ refl ∙ past_socket _ refl)

  found_https :
      lookup_env var_https_port env ≡ given (c.https_port == default_https_port) (itoa c.https_port)
  unfolding same_variable
  found_https =
      past_domain _ refl
      ∙ past_dns _ refl
      ∙ past_http _ refl
      ∙ lookup-own (c.https_port == default_https_port) var_https_port (itoa c.https_port) env_dir
          (past_dir _ refl ∙ past_socket _ refl)

  found_dir : lookup_env var_state_dir env ≡ given (str_eq c.state_dir platform_dir) c.state_dir
  unfolding same_variable
  found_dir =
      past_domain _ refl
      ∙ past_dns _ refl
      ∙ past_http _ refl
      ∙ past_https _ refl
      ∙ lookup-own (str_eq c.state_dir platform_dir) var_state_dir c.state_dir env_socket
          (past_socket _ refl)

  found_socket :
      lookup_env var_socket env ≡ given (str_eq c.socket_path socket_default) c.socket_path
  unfolding same_variable
  found_socket =
      past_domain _ refl
      ∙ past_dns _ refl
      ∙ past_http _ refl
      ∙ past_https _ refl
      ∙ past_dir _ refl
      ∙ lookup-own (str_eq c.socket_path socket_default) var_socket c.socket_path []
          (unfold lookup_env in refl)

  -- Load, given the environment that NonDefaultEnv writes for a configuration with no empty
  -- string and with ports between 1 and 65535, gives that configuration back, for any state
  -- directory of the platform.
  pub load-non_default_env :
      IsLoadable c → load join platform_dir (non_default_env join platform_dir c) ≡ c
  unfolding load non_default_env env_string env_int
  load-non_default_env h =
      rw
        (
          found_domain,
          found_dns,
          found_http,
          found_https,
          found_dir,
          found_socket,
          string_or-given default_domain c.domain h.domain,
          int_or-given default_dns_port c.dns_port h.dns,
          int_or-given default_http_port c.http_port h.http,
          int_or-given default_https_port c.https_port h.https,
          string_or-given platform_dir c.state_dir h.state_dir,
          string_or-given socket_default c.socket_path h.socket,
        )
        refl
