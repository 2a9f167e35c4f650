-- ===== src/Proxy/Routing.antt =====
-- Where resolve sends a request.
use localapp.Base.{
  ◌≡◌, ◌≢◌, refl, ap, ◌∙◌, false, Option, none, some, List, [], ◌∷◌, ◌++◌, arith, length,
  length-append, Bool-cases, inl, inr,
}
use mathlib.Core.List.{Memᴰ}
use localapp.Text.{Str, contains, str_eq, cut_suffix, split}
use localapp.Text.Order.{str_eq-eq-false}
use localapp.Text.Affix.{cut_suffix-append}
use localapp.Text.Split.{split-append, split_of_contains}
use localapp.Registry.Names.{IsName}
use localapp.Domain.Labels.{name-contains}
use localapp.Keyed.Laws.{name_of_find, find-Memᴰ}
use localapp.Registry.{
  Service, App, service, is_name_byte, app_host, service_host, service_name, default_service,
}
use localapp.Proxy.{
  route_proxy, Route, Proxy, new_route, normalize_host, match_path, resolve_default, resolve_mount,
  resolve_named, resolve_app, resolve_labels, resolve_sub, resolve,
}
use localapp.Proxy.Mounts.{match_path_lem}

-- What is forwarded goes to a service that is registered under the app that the route names.
pub record IsRegistered (p : Proxy) (r : Route) : Type 0 where
  pub found : p.lookup r.app_name ≡ some r.app
  pub listed : Memᴰ r.svc r.app.services
  pub named : r.svc.name ≡ r.svc_name

abbrev IsSafe : Proxy → Route → Type 0
IsSafe p r = r.kind ≡ route_proxy → IsRegistered p r

service-Memᴰ :
    (a : App) (k : Str) (s : Service) → service a k ≡ some s → Memᴰ s a.services × (s.name ≡ k)
unfolding service
service-Memᴰ a k s h =
    (find-Memᴰ service_name k a.services s h, name_of_find service_name k a.services s h)

module _ (p : Proxy) (path : Str) where
  resolve_default-IsSafe :
      (r : Route) (o : Option Service)
      → p.lookup r.app_name ≡ some r.app
      → service r.app default_service ≡ o
      → IsSafe p (resolve_default r o)
  resolve_default-IsSafe r none e s k = cc
  resolve_default-IsSafe r (some svc) e s k = record {
    found = e;
    listed = (service-Memᴰ r.app default_service svc s).0;
    named = refl;
  }

  resolve_named-IsSafe :
      (r : Route) (o : Option Service)
      → p.lookup r.app_name ≡ some r.app
      → service r.app r.svc_name ≡ o
      → IsSafe p (resolve_named r o)
  resolve_named-IsSafe r none e s k = cc
  resolve_named-IsSafe r (some svc) e s k =
      let (m, n) = service-Memᴰ r.app r.svc_name svc s in
      record { found = e; listed = m; named = n }

  resolve_mount-IsSafe :
      (r : Route)
      → p.lookup r.app_name ≡ some r.app
      → IsSafe p (resolve_mount r r.app (match_path r.app path))
  resolve_mount-IsSafe r e = elim (match_path_lem r.app path) [
    | inl (n, _) ↦ rw n (resolve_default-IsSafe r (service r.app default_service) e refl)
    | inr (svc, mount, n, l) ↦ rw n (λ k. record { found = e; listed = l.listed; named = refl })
  ]

  resolve_found-IsSafe :
      (r : Route) (a : App) → p.lookup r.app_name ≡ some a → IsSafe p (resolve_app path r (some a))
  unfolding resolve_app
  resolve_found-IsSafe r a e = elim (Bool-cases (str_eq r.svc_name [])) [
    | inl t ↦ rw t (resolve_mount-IsSafe (record r { app = a }) e)
    | inr f ↦ rw f (resolve_named-IsSafe (record r { app = a }) (service a r.svc_name) e refl)
  ]

  resolve_app-IsSafe :
      (r : Route) (o : Option App) → p.lookup r.app_name ≡ o → IsSafe p (resolve_app path r o)
  resolve_app-IsSafe r none e k = unfold resolve_app in cc
  resolve_app-IsSafe r (some a) e k = resolve_found-IsSafe r a e k

  resolve_labels-IsSafe :
      (r : Route) (labels : List Str) → IsSafe p (resolve_labels p path r labels)
  unfolding resolve_labels
  resolve_labels-IsSafe r (app ∷ []) k =
      resolve_app-IsSafe (record r { app_name = app }) (p.lookup app) refl k
  resolve_labels-IsSafe r (svc ∷ app ∷ []) k =
      resolve_app-IsSafe (record r { svc_name = svc; app_name = app }) (p.lookup app) refl k
  resolve_labels-IsSafe r _ k = cc

  resolve_sub-IsSafe : (r : Route) (o : Option Str) → IsSafe p (resolve_sub p path r o)
  unfolding str_eq
  resolve_sub-IsSafe r none k = cc
  resolve_sub-IsSafe r (some []) k = cc
  resolve_sub-IsSafe r (some (c ∷ sub)) k = resolve_labels-IsSafe r (split b'.' (c ∷ sub)) k

-- Whatever the Host header and the path, a request that is to be forwarded goes to a service that
-- is listed in the app that the store holds under the route's app name, and that bears the route's
-- service name.
pub resolve-IsRegistered :
    (unicode : Str → Str) (p : Proxy) (host path : Str)
    → (resolve unicode p host path).kind ≡ route_proxy
    → IsRegistered p (resolve unicode p host path)
unfolding resolve
resolve-IsRegistered unicode p host path =
    let h = normalize_host unicode host in
    elim (Bool-cases (str_eq h p.domain)) [
      | inl e ↦ rw e (λ k. cc)
      | inr e ↦ rw e (resolve_sub-IsSafe p path (new_route h) (cut_suffix h (b'.' ∷ p.domain)))
    ]

module _ (unicode : Str → Str) (p : Proxy) (path : Str) where
  -- Hosts with one normal form have one route.
  resolve_cong :
      (a b : Str)
      → normalize_host unicode a ≡ normalize_host unicode b
      → resolve unicode p a path ≡ resolve unicode p b path
  unfolding resolve
  resolve_cong a b e = rw e

  -- Below the domain the labels decide.
  resolve_of_sub :
      (host sub : Str)
      → normalize_host unicode host ≡ sub ++ b'.' ∷ p.domain
      → sub ≢ []
      → resolve unicode p host path
        ≡ resolve_labels p path (new_route (sub ++ b'.' ∷ p.domain)) (split b'.' sub)
  unfolding resolve
  resolve_of_sub host sub e n = rw (
    e,
    str_eq-eq-false (sub ++ b'.' ∷ p.domain) p.domain (longer_ne sub),
    cut_suffix-append sub (b'.' ∷ p.domain),
    str_eq-eq-false sub [] n,
  )
    where
      longer_ne : (s : Str) → s ++ b'.' ∷ p.domain ≢ p.domain
      longer_ne s q = omega (arith, ap length q, length-append s (b'.' ∷ p.domain))

  name-ne-nil : (s : Str) → IsName s → s ≢ []
  name-ne-nil [] n e = absurd (omega (arith, n.nonempty))
  name-ne-nil (c ∷ s) n e = cc

  name-dot_free : (s : Str) → IsName s → contains b'.' s ≡ false
  name-dot_free s n = name-contains b'.' s (unfold is_name_byte in refl) n.bytes

  -- A host whose normal form is <app>.<domain>, with a valid name, resolves by looking that app up
  -- and matching the path against its services.
  resolve-app_host :
      (host app : Str)
      → IsName app
      → normalize_host unicode host ≡ app_host app p.domain
      → resolve unicode p host path
        ≡ resolve_app path
            (record (new_route (app_host app p.domain)) { app_name = app })
            (p.lookup app)
  unfolding app_host
  resolve-app_host host app n e =
      resolve_of_sub host app e (name-ne-nil app n)
      ∙ rw (split_of_contains b'.' app (name-dot_free app n)) (unfold resolve_labels in refl)

  -- A host whose normal form is <service>.<app>.<domain>, with valid names, resolves by looking
  -- that app up and taking that service of it.
  pub resolve-service_host :
      (host svc app : Str)
      → IsName svc
      → IsName app
      → normalize_host unicode host ≡ service_host svc app p.domain
      → resolve unicode p host path
        ≡ resolve_app path
            (record (new_route (service_host svc app p.domain)) { svc_name = svc; app_name = app })
            (p.lookup app)
  unfolding service_host
  resolve-service_host host svc app ns n e =
      let sub = svc ++ b'.' ∷ app in
      resolve_of_sub host sub e (λ q. omega (arith, ap length q, length-append svc (b'.' ∷ app)))
      ∙ rw
          (
            split-append b'.' svc app (name-dot_free svc ns),
            split_of_contains b'.' app (name-dot_free app n),
          )
          (unfold resolve_labels in refl)
