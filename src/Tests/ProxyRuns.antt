-- ===== src/Tests/ProxyRuns.antt =====
-- The proxy: from a Host header and a path to the service.
use localapp.Base.{
  arith, ◌≡◌, Option, Bool, false, ◌⊎◌, ◌++◌, refl, none, some, [], ◌∷◌, pos, All, if◌then◌else◌,
}
use localapp.Text.{Str, text, contains, str_eq, lower_byte}
use localapp.Registry.{Service, App, app_host, service_host, Status, up}
use localapp.Registry.Names.{IsName, validate-IsName}
use localapp.Proxy.{
  Kind, route_proxy, Route, Proxy, match_path, normalize_host, resolve, resolve_app, new_route,
}
use localapp.Proxy.Mounts.{IsMounted, IsLongest, match_path_lem}
use localapp.Proxy.Hosts.{IsRawHost}
use localapp.Proxy.Routing.{IsRegistered, resolve-IsRegistered}
use localapp.Proxy.Forward.{
  Url, Outbound, forwarded, rewrite, serve_http, IsForwarded, serve_http-IsForwarded,
}
use localapp.Cmd.Redirect.{moved_permanently, redirect_host, redirect}
use localapp.Cmd.Redirect.Hosts.{ColonInV6, redirect-same_host}
use localapp.Tests.Fixtures.{same, domain, shop, api_mount, api_service, shop_app, os}
use localapp.Tests.NameRuns.{shop_host, shop-valid}

abbrev proxy : Proxy
proxy = record {
  domain = domain;
  probe_to = pos 200;
  lookup = λ name. if str_eq name shop then some shop_app else none;
}

-- /api/x
abbrev api_path : Str
api_path = api_mount ++ b'/' ∷ b'x' ∷ []

api_path-match : match_path shop_app api_path ≡ some (api_service, api_mount)
unfolding match_path localapp.Proxy.path_has_prefix localapp.Registry.normalize_path
    localapp.Text.has_prefix localapp.Text.str_eq localapp.Text.trim_right
api_path-match = refl

match_path_lem_example :
    ((match_path shop_app api_path ≡ none) × All (λ s. ¬ IsMounted api_path s) shop_app.services)
    ⊎ ((svc : Service) × (mount : Str) × (match_path shop_app api_path ≡ some (svc, mount))
        × IsLongest shop_app api_path svc mount)
match_path_lem_example = match_path_lem shop_app api_path

abbrev out : Outbound
out =
    rewrite (resolve same proxy shop_host api_path) shop_host
      (record { path = api_path; raw_path = [] })

shop_host-resolved : (resolve same proxy shop_host api_path).kind ≡ route_proxy
unfolding resolve normalize_host resolve_app match_path localapp.Proxy.resolve_labels
    localapp.Proxy.path_has_prefix localapp.Registry.normalize_path localapp.Net.trim_space
    localapp.Net.is_space localapp.Net.split_host_port localapp.Text.last_index_byte
    localapp.Text.trim_suffix localapp.Text.trim_prefix localapp.Text.cut_suffix
    localapp.Text.cut_prefix localapp.Text.has_suffix localapp.Text.has_prefix localapp.Text.str_eq
    localapp.Text.split localapp.Text.to_lower localapp.Text.trim_right
shop_host-resolved = refl

resolve-IsRegistered_example : IsRegistered proxy (resolve same proxy shop_host api_path)
resolve-IsRegistered_example = resolve-IsRegistered same proxy shop_host api_path shop_host-resolved

shop_host-forwarded :
    serve_http same os proxy shop_host (record { path = api_path; raw_path = [] }) ≡ forwarded out
unfolding serve_http resolve normalize_host resolve_app match_path localapp.Proxy.resolve_labels
    localapp.Proxy.path_has_prefix localapp.Registry.normalize_path localapp.Registry.service_status
    localapp.Registry.process_alive localapp.Registry.status localapp.Net.trim_space
    localapp.Net.is_space localapp.Net.split_host_port localapp.Text.last_index_byte
    localapp.Text.trim_suffix localapp.Text.trim_prefix localapp.Text.cut_suffix
    localapp.Text.cut_prefix localapp.Text.has_suffix localapp.Text.has_prefix localapp.Text.str_eq
    localapp.Text.split localapp.Text.to_lower localapp.Text.trim_right
shop_host-forwarded = refl

serve_http-IsForwarded_example :
    IsForwarded same os proxy shop_host (record { path = api_path; raw_path = [] }) out
serve_http-IsForwarded_example =
    serve_http-IsForwarded same os proxy shop_host (record { path = api_path; raw_path = [] }) out
      shop_host-forwarded

abbrev api_url : Url
api_url = record { path = api_path; raw_path = [] }

-- Shop.Localapp
abbrev raw_host : Str
raw_host = b'S' ∷ b'H' ∷ b'.' ∷ b'L' ∷ []

raw_host-IsRawHost : IsRawHost raw_host
unfolding localapp.Domain.Labels.is_host_byte lower_byte localapp.Registry.is_name_byte
raw_host-IsRawHost = (refl, (refl, (refl, (refl, tt))))

abbrev port : Str
port = b'8' ∷ b'0' ∷ []

shop-IsName : IsName shop
shop-IsName = validate-IsName (text "app") shop shop-valid

shop_host-normal : normalize_host same shop_host ≡ app_host shop domain
unfolding normalize_host app_host localapp.Net.trim_space localapp.Net.is_space
    localapp.Net.split_host_port localapp.Text.last_index_byte localapp.Text.trim_suffix
    localapp.Text.trim_prefix localapp.Text.cut_suffix localapp.Text.cut_prefix
    localapp.Text.has_suffix localapp.Text.has_prefix localapp.Text.str_eq localapp.Text.to_lower
shop_host-normal = refl

abbrev own_host : Str
own_host = shop ++ b'.' ∷ shop ++ b'.' ∷ domain

own_host-normal : normalize_host same own_host ≡ service_host shop shop domain
unfolding normalize_host service_host localapp.Net.trim_space localapp.Net.is_space
    localapp.Net.split_host_port localapp.Text.last_index_byte localapp.Text.trim_suffix
    localapp.Text.trim_prefix localapp.Text.cut_suffix localapp.Text.cut_prefix
    localapp.Text.has_suffix localapp.Text.has_prefix localapp.Text.str_eq localapp.Text.to_lower
own_host-normal = refl

-- Whether an address is an IPv4 one, by its colons.
abbrev by_colon : Str → Option Bool
by_colon s = if contains b':' s then some false else none

by_colon-ColonInV6 : ColonInV6 by_colon
unfolding ColonInV6
by_colon-ColonInV6 s h e = cc (rw h at e)

redirect-same_host_example :
    (redirect by_colon 8443 raw_host api_path
      ≡ moved_permanently (text "https://" ++ redirect_host by_colon 8443 raw_host ++ api_path))
    × (redirect by_colon 8443 (raw_host ++ b':' ∷ port) api_path
        ≡ moved_permanently (text "https://" ++ redirect_host by_colon 8443 raw_host ++ api_path))
    × (normalize_host same (redirect_host by_colon 8443 raw_host) ≡ normalize_host same raw_host)
    × (normalize_host same (redirect_host by_colon 8443 raw_host)
        ≡ normalize_host same (raw_host ++ b':' ∷ port))
redirect-same_host_example =
    redirect-same_host by_colon 8443 raw_host raw_host-IsRawHost same port api_path
      by_colon-ColonInV6 (λ e. cc) (λ e. omega (arith, e)) (refl, (refl, tt))
