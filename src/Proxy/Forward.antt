-- ===== src/Proxy/Forward.antt =====
-- ServeHTTP, rewrite and stripMount of internal/proxy/proxy.go: which answer a request gets, and
-- what a forwarded request looks like.
use localapp.Base.{
  ◌≡◌, ◌≢◌, ◌⊎◌, refl, ap, sym, subst, ◌∙◌, true, false, Bool-cases, Option-cases, not, ◌&&◌,
  Option, none, some, [], ◌∷◌, ◌++◌, arith, if◌then◌else◌, inl, inr, ℤ, append-nil,
}
use localapp.Text.{Str, text, str_eq, cut_prefix}
use localapp.Text.Affix.{cut_prefix-append, eq_of_cut_prefix}
use localapp.Text.Order.{str_eq→eq, str_eq_refl}
use localapp.Registry.{Status, up, down, Os, normalize_path, service_status}
use localapp.Proxy.{
  Kind, route_proxy, route_apex, route_unknown_host, route_unknown_app, route_unknown_service,
  route_no_default, Route, Proxy, resolve,
}
use localapp.Proxy.Mounts.{IsBelow}
use localapp.Proxy.Mounted.{IsMountRoute, resolve-IsMountRoute}
use localapp.Proxy.Routing.{IsRegistered, resolve-IsRegistered}

-- The path of a URL, decoded, and as it was encoded where that is not the default encoding.
pub record Url : Type 0 where
  pub path : Str
  pub raw_path : Str

-- What rewrite sets: the target address and port, the Host header, X-Forwarded-Proto, and the URL.
pub record Outbound : Type 0 where
  pub scheme : Str
  pub address : Str
  pub port : ℤ
  pub host_header : Str
  pub forwarded_proto : Str
  pub url : Url

-- The answers: the dashboard, a 404 page, a 503 page with a detail, or the forwarded request.
pub data Response : Type 0 where
  dashboard : Response
  not_found : Route → Response
  unavailable : Route → Str → Response
  forwarded : Outbound → Response

abbrev pub or_slash : Str → Str
or_slash [] = b'/' ∷ []
or_slash (c ∷ p) = c ∷ p

abbrev strip_raw : Url → Option Str → Url
strip_raw u none = record u { raw_path = [] }
strip_raw u (some rp) = record u { raw_path = or_slash rp }

abbrev strip_found : Url → Str → Option Str → Url
strip_found u mount none = u
strip_found u mount (some p) =
    let v = record u { path = or_slash p } in
    if str_eq u.raw_path [] then v else strip_raw v (cut_prefix u.raw_path mount)

unfoldable pub strip_mount : Url → Str → Url
strip_mount u mount = strip_found u mount (cut_prefix u.path mount)

unfoldable pub rewrite : Route → Str → Url → Outbound
rewrite rt host url = record {
  scheme = text "http";
  address = text "127.0.0.1";
  port = rt.svc.port;
  host_header = host;
  forwarded_proto = text "https";
  url = if not (str_eq rt.mount []) && rt.svc.strip_path then strip_mount url rt.mount else url;
}

-- The liveness probe before forwarding.
abbrev probed : Status → Route → Str → Url → Response
probed down rt host url = unavailable rt []
probed up rt host url = forwarded (rewrite rt host url)

abbrev answer : Kind → Os → Proxy → Route → Str → Url → Response
answer route_apex os p rt host url = dashboard
answer route_proxy os p rt host url = probed (service_status os rt.svc p.probe_to) rt host url
answer _ os p rt host url = not_found rt

unfoldable pub serve_http : (Str → Str) → Os → Proxy → Str → Url → Response
unfolding rewrite
serve_http unicode os p host url =
    let rt = resolve unicode p host url.path in answer rt.kind os p rt host url

-- handleTransportError: nothing if the client went away, a 503 page otherwise.
pub data TransportError : Type 0 where
  canceled : TransportError
  failed : Str → TransportError

unfoldable handle_transport_error : Route → TransportError → Option Response
handle_transport_error rt canceled = none
handle_transport_error rt (failed detail) = some (unavailable rt detail)

-- For a path at or below the mount, stripping the mount leaves what follows it, beginning with a
-- slash, and a single slash at the mount itself.
strip_mount-IsBelow :
    (u : Url) (mount : Str)
    → IsBelow u.path mount
    → ((u.path ≡ mount) × ((strip_mount u mount).path ≡ b'/' ∷ []))
      ⊎ ((rest : Str) × (u.path ≡ mount ++ b'/' ∷ rest)
          × ((strip_mount u mount).path ≡ b'/' ∷ rest))
unfolding strip_mount
strip_mount-IsBelow u mount (inl e) = inl (e, path_of (cut e))
  where
    cut : u.path ≡ mount → cut_prefix u.path mount ≡ some []
    cut q = ap (λ s. cut_prefix s mount) (q ∙ sym (append-nil mount)) ∙ cut_prefix-append mount []

    path_of :
        cut_prefix u.path mount ≡ some []
        → (strip_found u mount (cut_prefix u.path mount)).path ≡ b'/' ∷ []
    path_of q = ground arith
strip_mount-IsBelow u mount (inr (rest, e)) = inr (rest, e, path_of (cut e))
  where
    cut : u.path ≡ mount ++ b'/' ∷ rest → cut_prefix u.path mount ≡ some (b'/' ∷ rest)
    cut q = ap (λ s. cut_prefix s mount) q ∙ cut_prefix-append mount (b'/' ∷ rest)

    path_of :
        cut_prefix u.path mount ≡ some (b'/' ∷ rest)
        → (strip_found u mount (cut_prefix u.path mount)).path ≡ b'/' ∷ rest
    path_of q = ground arith

cut_of_below :
    (path mount : Str) → IsBelow path mount → (t : Str) × (cut_prefix path mount ≡ some t)
cut_of_below path mount (inl e) =
    ([], ap (λ s. cut_prefix s mount) (e ∙ sym (append-nil mount)) ∙ cut_prefix-append mount [])
cut_of_below path mount (inr (rest, e)) =
    (b'/' ∷ rest, ap (λ s. cut_prefix s mount) e ∙ cut_prefix-append mount (b'/' ∷ rest))

-- The encoded path is cut at the mount as well, or left to be encoded again.
strip_mount-raw :
    (u : Url) (mount : Str)
    → IsBelow u.path mount
    → ((strip_mount u mount).raw_path ≡ [])
      ⊎ ((rest : Str) × (u.raw_path ≡ mount ++ rest)
          × ((strip_mount u mount).raw_path ≡ or_slash rest))
unfolding strip_mount
strip_mount-raw u mount b =
    let (t, cut) = cut_of_below u.path mount b in
    elim (Bool-cases (str_eq u.raw_path [])) [
      | inl e ↦ inl (rw (cut, strip_found, e) (str_eq→eq u.raw_path [] e))
      | inr e ↦ elim (Option-cases (cut_prefix u.raw_path mount)) [
        | inl f ↦ inl (rw (cut, strip_found, e, f) refl)
        | inr (rest, f) ↦
            inr (rest, eq_of_cut_prefix u.raw_path mount rest f, rw (cut, strip_found, e, f) refl)
      ]
    ]

-- The URL that the service sees: as it was, or, where the service wants it, what follows the mount.
pub IsRewritten : Route → Url → Url → Type 0
IsRewritten rt url out =
    (((rt.mount ≡ []) ⊎ (rt.svc.strip_path ≡ false)) × (out ≡ url))
    ⊎ ((rt.mount ≢ [])
        × (rt.svc.strip_path ≡ true)
        × (rt.mount ≡ normalize_path rt.svc.path)
        × (((url.path ≡ rt.mount) × (out.path ≡ b'/' ∷ []))
            ⊎ ((rest : Str) × (url.path ≡ rt.mount ++ b'/' ∷ rest) × (out.path ≡ b'/' ∷ rest)))
        × ((out.raw_path ≡ [])
            ⊎ ((rest : Str) × (url.raw_path ≡ rt.mount ++ rest) × (out.raw_path ≡ or_slash rest))))

rewrite-IsRewritten :
    (rt : Route) (host : Str) (url : Url)
    → IsMountRoute url.path rt
    → IsRewritten rt url (rewrite rt host url).url
unfolding rewrite IsRewritten
rewrite-IsRewritten rt host url m = elim (Bool-cases (str_eq rt.mount [])) [
  | inl e ↦ rw e (inl (inl (str_eq→eq rt.mount [] e), refl))
  | inr e ↦ elim (Bool-cases rt.svc.strip_path) [
    | inr k ↦ rw (e, k) (inl (inr refl, refl))
    | inl k ↦
        rw (e, k)
          (elim m [
            | inl n ↦ cc (rw n at e, str_eq_refl [])
            | inr (own, b) ↦ inr (
              (λ n. cc (rw n at e, str_eq_refl [])),
              refl,
              own,
              strip_mount-IsBelow url rt.mount b,
              strip_mount-raw url rt.mount b,
            )
          ])
  ]
]

-- What a forwarded request is, field by field.
pub record IsForwarded (unicode : Str → Str) (os : Os) (p : Proxy) (host : Str) (url : Url)
    (out : Outbound) : Type 0 where
  pub route : Route
  pub resolved : route ≡ resolve unicode p host url.path
  pub registered : IsRegistered p route
  pub is_up : service_status os route.svc p.probe_to ≡ up
  pub scheme : out.scheme ≡ text "http"
  pub address : out.address ≡ text "127.0.0.1"
  pub port : out.port ≡ route.svc.port
  pub host_kept : out.host_header ≡ host
  pub proto : out.forwarded_proto ≡ text "https"
  pub rewritten : IsRewritten route url out.url

answer-forwarded :
    (k : Kind) (os : Os) (p : Proxy) (rt : Route) (host : Str) (url : Url) (out : Outbound)
    → answer k os p rt host url ≡ forwarded out
    → (k ≡ route_proxy) × (service_status os rt.svc p.probe_to ≡ up) × (out ≡ rewrite rt host url)
answer-forwarded route_proxy os p rt host url out h =
    by_status (service_status os rt.svc p.probe_to) h
  where
    by_status :
        (st : Status)
        → probed st rt host url ≡ forwarded out
        → (route_proxy ≡ route_proxy) × (st ≡ up) × (out ≡ rewrite rt host url)
    by_status down e = cc
    by_status up e = (refl, refl, cc)
answer-forwarded route_apex os p rt host url out h = cc
answer-forwarded route_unknown_host os p rt host url out h = cc
answer-forwarded route_unknown_app os p rt host url out h = cc
answer-forwarded route_unknown_service os p rt host url out h = cc
answer-forwarded route_no_default os p rt host url out h = cc

-- A request that the proxy forwards goes by http to 127.0.0.1 at the port of a registered service
-- of its route that the liveness probe found up, with its Host kept and X-Forwarded-Proto https;
-- its URL is unchanged, but where the route has a mount and its service wants the path stripped:
-- then the path is what follows the mount, from a slash on, and the encoded path is cut at the
-- mount too or left empty.
pub serve_http-IsForwarded :
    (unicode : Str → Str) (os : Os) (p : Proxy) (host : Str) (url : Url) (out : Outbound)
    → serve_http unicode os p host url ≡ forwarded out
    → IsForwarded unicode os p host url out
unfolding serve_http rewrite
serve_http-IsForwarded unicode os p host url out h =
    let rt = resolve unicode p host url.path in
    let (k, alive, to) = answer-forwarded rt.kind os p rt host url out h in
    record {
      route = rt;
      resolved = refl;
      registered = resolve-IsRegistered unicode p host url.path k;
      is_up = alive;
      scheme = ap (λ (o : Outbound). o.scheme) to;
      address = ap (λ (o : Outbound). o.address) to;
      port = ap (λ (o : Outbound). o.port) to;
      host_kept = ap (λ (o : Outbound). o.host_header) to;
      proto = ap (λ (o : Outbound). o.forwarded_proto) to;
      rewritten =
          subst (λ (o : Outbound). IsRewritten rt url o.url) (sym to)
            (rewrite-IsRewritten rt host url (resolve-IsMountRoute unicode p host url.path));
    }
