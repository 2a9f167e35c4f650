-- ===== src/EndToEnd.antt =====
-- A registered service, from its URL to its port: the DNS server, the CA and the proxy together.
use localapp.Base.{
  ◌≤◌, ◌≡◌, ◌≢◌, refl, ap, sym, ◌∙◌, subst, true, false, none, some, [], ◌∷◌, ◌++◌, arith, All,
  length, length-append, Option-cases, inl, inr, ℤ,
}
use localapp.Text.{Str, split, contains}
use localapp.Text.Order.{str_eq-eq-false}
use localapp.Text.Split.{split-append, split_of_contains}
use localapp.Text.Joined.{All-LastFull, LastFull-LastIsNot}
use localapp.Text.Trim.{LastIsNot}
use localapp.Keyed.{find}
use localapp.Registry.{Service, App, app_name, service_host, service, is_name_byte}
use localapp.Registry.Names.{IsName}
use localapp.Registry.Store.{Store, app}
use localapp.Registry.Store.Views.{view, app-find}
use localapp.Domain.Labels.{name-contains}
use localapp.Domain.Laws.{IsDomain}
use localapp.Ca.{validate_host}
use localapp.Ca.Hosts.{IsUnder, validate_host_iff, validate_host-IsHost}
use localapp.Dnsd.{matches, default_ttl}
use localapp.Dnsd.Matching.{IsFqdn, IsWithin, matches_iff}
use localapp.Proxy.{Proxy, Route, route_proxy, normalize_host, resolve, resolve_app, new_route}
use localapp.Proxy.Hosts.{IsHostBytes-IsRawHost, IsHostBytes-lower, normalize_host_forms}
use localapp.Proxy.Routing.{resolve-service_host}

-- The proxy of a store.
abbrev pub proxy_of : Str → ℤ → Store → Proxy
proxy_of domain probe_to st = record { domain = domain; probe_to = probe_to; lookup = app st }

-- The host gets a certificate and an address, and the proxy takes it to the service.
pub record IsReachable (unicode fqdn : Str → Str) (p : Proxy) (path host : Str) (s : Service)
    : Type 0 where
  pub certified : validate_host host p.domain ≡ none
  pub answered :
      matches unicode fqdn (record { domain = p.domain ++ b'.' ∷ []; ttl = default_ttl }) host
      ≡ true
  pub proxied : (resolve unicode p host path).kind ≡ route_proxy
  pub reached : (resolve unicode p host path).svc ≡ s

name-ne-nil : (s : Str) → IsName s → s ≢ []
name-ne-nil [] n e = absurd (omega (arith, n.nonempty))
name-ne-nil (c ∷ s) n e = cc

name-dot_free : (s : Str) → IsName s → contains b'.' s ≡ false
name-dot_free s n = name-contains b'.' s (unfold is_name_byte in refl) n.bytes

host-IsUnder :
    (svc a domain : Str) → IsName svc → IsName a → IsUnder (service_host svc a domain) domain
unfolding service_host
host-IsUnder svc a domain s n = record {
  prefix = svc ++ b'.' ∷ a;
  joined = refl;
  labels =
      subst (All IsName)
        (sym (
          split-append b'.' svc a (name-dot_free svc s)
          ∙ ap (λ l. svc ∷ l) (split_of_contains b'.' a (name-dot_free a n))))
        (s, (n, tt));
}

host-ne-nil : (svc a domain : Str) → service_host svc a domain ≢ []
unfolding service_host
host-ne-nil svc a domain e =
    omega (arith, ap length e, length-append (svc ++ b'.' ∷ a) (b'.' ∷ domain))

-- A service of the view, under its app.
view-service :
    (st : Store) (a svc : Str) (s : Service)
    → view st.apps a svc ≡ some s
    → (x : App) × (app st a ≡ some x) × (service x svc ≡ some s)
unfolding view service
view-service st a svc s h = elim (Option-cases (find app_name a st.apps)) [
  | inl e ↦ cc (rw e at h)
  | inr (x, e) ↦ (x, app-find st a ∙ e, rw e at h)
]

resolve_app-found :
    (path : Str) (r : Route) (x : App) (s : Service)
    → r.svc_name ≢ []
    → service x r.svc_name ≡ some s
    → ((resolve_app path r (some x)).kind ≡ route_proxy) × ((resolve_app path r (some x)).svc ≡ s)
unfolding resolve_app
resolve_app-found path r x s n h = rw (str_eq-eq-false r.svc_name [] n, h) (refl, refl)

module _ (unicode fqdn : Str → Str) (domain : Str) (probe_to : ℤ) (st : Store) (svc a path : Str)
    (s : Service) where
  abbrev host : Str
  host = service_host svc a domain

  -- For a valid domain and a registered service whose app and service names are valid and whose
  -- host <service>.<app>.<domain> has at most 253 bytes, where Fqdn does what its documentation
  -- says: the CA issues for the host, the DNS server answers for it, and the proxy resolves it, on
  -- any path, to that service.
  pub host-IsReachable :
      IsFqdn fqdn
      → IsDomain domain
      → IsName svc
      → IsName a
      → length (service_host svc a domain) ≤ 253
      → view st.apps a svc ≡ some s
      → IsReachable unicode fqdn (proxy_of domain probe_to st) path (service_host svc a domain) s
  host-IsReachable f d n m short h =
      let u = host-IsUnder svc a domain n m in
      let valid : validate_host host domain ≡ none =
        (validate_host_iff host domain).1
          (record { nonempty = host-ne-nil svc a domain; short = short; place = inr u }) in
      let is_host = validate_host-IsHost host domain d valid in
      let raw = IsHostBytes-IsRawHost host is_host.bytes in
      let low = IsHostBytes-lower host is_host.bytes in
      let last : LastIsNot b'.' host =
        LastFull-LastIsNot b'.' host (All-LastFull (split b'.' host) is_host.full) in
      let within : IsWithin domain host = inr (u.prefix, low ∙ u.joined) in
      let normal : normalize_host unicode host ≡ host =
        (normalize_host_forms unicode host raw last [] tt).0 ∙ low in
      let (x, is_x, is_s) = view-service st a svc s h in
      let p = proxy_of domain probe_to st in
      let r = record (new_route host) { svc_name = svc; app_name = a } in
      let resolved : resolve unicode p host path ≡ resolve_app path r (some x) =
        resolve-service_host unicode p path host svc a n m normal ∙ ap (resolve_app path r) is_x in
      let found = resolve_app-found path r x s (name-ne-nil svc n) is_s in
      record {
        certified = valid;
        answered = ((matches_iff unicode fqdn domain f host raw last).0).1 within;
        proxied = ap (λ (q : Route). q.kind) resolved ∙ found.0;
        reached = ap (λ (q : Route). q.svc) resolved ∙ found.1;
      }
