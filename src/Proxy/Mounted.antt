-- ===== src/Proxy/Mounted.antt =====
-- The mount of a route: none, or that of its service, with the path at or below it.
use localapp.Base.{
  ◌≡◌, ◌⊎◌, refl, sym, subst, Option, none, some, List, [], ◌∷◌, Bool-cases, inl, inr,
}
use localapp.Text.{Str, str_eq, cut_suffix, split}
use localapp.Registry.{Service, App, service, default_service, normalize_path}
use localapp.Proxy.{
  Route, Proxy, new_route, normalize_host, match_path, resolve_default, resolve_mount,
  resolve_named, resolve_app, resolve_labels, resolve_sub, resolve,
}
use localapp.Proxy.Mounts.{IsBelow, match_path_lem}

abbrev pub IsMountRoute : Str → Route → Type 0
IsMountRoute path r =
    (r.mount ≡ []) ⊎ ((r.mount ≡ normalize_path r.svc.path) × IsBelow path r.mount)

module _ (p : Proxy) (path : Str) where
  default-IsMountRoute :
      (r : Route) (o : Option Service) → r.mount ≡ [] → IsMountRoute path (resolve_default r o)
  default-IsMountRoute r none e = inl e
  default-IsMountRoute r (some svc) e = inl e

  named-IsMountRoute :
      (r : Route) (o : Option Service) → r.mount ≡ [] → IsMountRoute path (resolve_named r o)
  named-IsMountRoute r none e = inl e
  named-IsMountRoute r (some svc) e = inl e

  matched-IsMountRoute :
      (r : Route) → r.mount ≡ [] → IsMountRoute path (resolve_mount r r.app (match_path r.app path))
  matched-IsMountRoute r e = elim (match_path_lem r.app path) [
    | inl (n, _) ↦ rw n (default-IsMountRoute r (service r.app default_service) e)
    | inr (svc, mount, n, l) ↦
        rw n (inr (l.own_mount, subst (IsBelow path) (sym l.own_mount) l.mounted.below))
  ]

  app-IsMountRoute :
      (r : Route) (o : Option App) → r.mount ≡ [] → IsMountRoute path (resolve_app path r o)
  unfolding resolve_app
  app-IsMountRoute r none e = inl e
  app-IsMountRoute r (some a) e = elim (Bool-cases (str_eq r.svc_name [])) [
    | inl t ↦ rw t (matched-IsMountRoute (record r { app = a }) e)
    | inr f ↦ rw f (named-IsMountRoute (record r { app = a }) (service a r.svc_name) e)
  ]

  labels-IsMountRoute :
      (r : Route) (labels : List Str)
      → r.mount ≡ []
      → IsMountRoute path (resolve_labels p path r labels)
  unfolding resolve_labels
  labels-IsMountRoute r (app ∷ []) e =
      app-IsMountRoute (record r { app_name = app }) (p.lookup app) e
  labels-IsMountRoute r (svc ∷ app ∷ []) e =
      app-IsMountRoute (record r { svc_name = svc; app_name = app }) (p.lookup app) e
  labels-IsMountRoute r [] e = inl e
  labels-IsMountRoute r (a ∷ b ∷ c ∷ rest) e = inl e

  sub-IsMountRoute :
      (r : Route) (o : Option Str) → r.mount ≡ [] → IsMountRoute path (resolve_sub p path r o)
  unfolding str_eq
  sub-IsMountRoute r none e = inl e
  sub-IsMountRoute r (some []) e = inl e
  sub-IsMountRoute r (some (c ∷ sub)) e = labels-IsMountRoute r (split b'.' (c ∷ sub)) e

pub resolve-IsMountRoute :
    (unicode : Str → Str) (p : Proxy) (host path : Str)
    → IsMountRoute path (resolve unicode p host path)
unfolding resolve
resolve-IsMountRoute unicode p host path =
    let h = normalize_host unicode host in
    elim (Bool-cases (str_eq h p.domain)) [
      | inl e ↦ rw e (inl refl)
      | inr e ↦ rw e (sub-IsMountRoute p path (new_route h) (cut_suffix h (b'.' ∷ p.domain)) refl)
    ]
