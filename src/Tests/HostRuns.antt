-- ===== src/Tests/HostRuns.antt =====
-- One host from the registry to the DNS server, the CA and the proxy.
use localapp.Base.{◌≡◌, ◌≤◌, refl, none, some, [], ◌∷◌, pos, arith, length}
use localapp.Text.{Str, text, str_eq}
use localapp.Registry.{service_host, validate_name}
use localapp.Registry.Names.{validate-IsName}
use localapp.Registry.Store.{Store}
use localapp.Registry.Store.Views.{view}
use localapp.Proxy.{Proxy, Kind, route_proxy, resolve}
use localapp.EndToEnd.{proxy_of, IsReachable, host-IsReachable}
use localapp.Tests.Fixtures.{
  same, domain, shop, api, api_service, api_mount, shop_app, registry_path,
}
use localapp.Tests.NameRuns.{domain-IsDomain, shop-valid, shop_host}
use localapp.Tests.DnsRuns.{fqdn, fqdn-IsFqdn}

abbrev store : Store
store = record { path = registry_path; apps = shop_app ∷ [] }

api-valid : validate_name (text "service") api ≡ none
unfolding validate_name localapp.Registry.name_re localapp.Text.all_bytes
    localapp.Registry.is_name_byte
api-valid = refl

api-view : view store.apps shop api ≡ some api_service
unfolding view localapp.Keyed.find str_eq
api-view = refl

host-short : length (service_host api shop domain) ≤ 253
unfolding service_host
host-short = omega arith

host-IsReachable_example :
    IsReachable same fqdn
      (proxy_of domain (pos 200) store)
      api_mount
      (service_host api shop domain)
      api_service
host-IsReachable_example =
    host-IsReachable same fqdn domain (pos 200) store api shop api_mount api_service fqdn-IsFqdn
      domain-IsDomain (validate-IsName (text "service") api api-valid)
      (validate-IsName (text "app") shop shop-valid) host-short api-view

-- A host with an empty first label resolves like the app's own host.
dotted_host-proxied :
    (resolve same (proxy_of domain (pos 200) store) (b'.' ∷ shop_host) api_mount).kind ≡ route_proxy
unfolding resolve localapp.Registry.Store.app localapp.Keyed.index_of localapp.Proxy.normalize_host
    localapp.Proxy.resolve_app localapp.Proxy.match_path localapp.Proxy.resolve_labels
    localapp.Proxy.path_has_prefix localapp.Registry.normalize_path localapp.Net.trim_space
    localapp.Net.is_space localapp.Net.split_host_port localapp.Text.last_index_byte
    localapp.Text.trim_suffix localapp.Text.trim_prefix localapp.Text.cut_suffix
    localapp.Text.cut_prefix localapp.Text.has_suffix localapp.Text.has_prefix str_eq
    localapp.Text.split localapp.Text.to_lower localapp.Text.trim_right
dotted_host-proxied = refl
