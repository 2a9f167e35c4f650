-- ===== src/Cmd/Redirect.antt =====
-- redirectHandler and isIPv6Literal of cmd/localapp/daemon.go. `is_ipv4` is net.ParseIP: `none` where it
-- finds no address, and else whether To4 gives one. An absolute URL passes http.Redirect as it is.
pub mod Hosts
use localapp.Base.{
  ℕ, true, false, Bool, not, Option, none, some, [], ◌∷◌, ◌++◌, ◌==◌, if◌then◌else◌,
}
use localapp.Text.{Str, text, str_eq, contains}
use localapp.Text.Number.{itoa}
use localapp.Net.{split_host_port}

unfoldable pub is_ipv6_literal : (Str → Option Bool) → Str → Bool
is_ipv6_literal is_ipv4 host = elim (is_ipv4 host) [ none ↦ false | some four ↦ not four ]

-- net.JoinHostPort
unfoldable pub join_host_port : Str → Str → Str
unfolding contains
join_host_port host port =
    if contains b':' host then b'[' ∷ host ++ b']' ∷ b':' ∷ port else host ++ b':' ∷ port

pub data Redirected : Type 0 where
  missing_host : Redirected
  moved_permanently : Str → Redirected

abbrev without_port : Str → Option Str → Str
without_port host none = host
without_port host (some h) = h

unfoldable pub redirect_host : (Str → Option Bool) → ℕ → Str → Str
unfolding join_host_port is_ipv6_literal
redirect_host is_ipv4 https_port host =
    if not (https_port == 443)
    then join_host_port host (itoa https_port)
    else if is_ipv6_literal is_ipv4 host
    then b'[' ∷ host ++ b']' ∷ []
    else host

-- redirectHandler, of the Host header and the URL's RequestURI.
unfoldable pub redirect : (Str → Option Bool) → ℕ → Str → Str → Redirected
unfolding redirect_host str_eq
redirect is_ipv4 https_port header uri =
    let host = without_port header (split_host_port header) in
    if str_eq host []
    then missing_host
    else moved_permanently (text "https://" ++ redirect_host is_ipv4 https_port host ++ uri)
