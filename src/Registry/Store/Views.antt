-- ===== src/Registry/Store/Views.antt =====
-- The registry as a map from an app and a service to a registration, and what a changed list of
-- apps shows of that map.
use localapp.Base.{
  ℕ, ◌⊎◌, ◌≡◌, refl, true, false, ◌&&◌, Option, none, some, List, [], ◌∷◌, arith, Option-cases, inl,
  inr, ◌>>=◌, if◌then◌else◌, Bool-cases,
}
use localapp.Text.{Str, str_eq}
use localapp.Text.Order.{str_eq_iff}
use localapp.Keyed.{remove_at, find, index_of, sort_by_name, IsUnique}
use localapp.Keyed.Laws.{
  All_of_find, find-append-new, find-modify_at, find-remove_at, index_of-find, index_of-none,
}
use localapp.Keyed.Sorting.{find-sort}
use localapp.Keyed.Mapping.{find-map, get_elem?-index_of}
use localapp.Registry.{Service, App, app_name, service_name}
use localapp.Registry.Store.{
  Store, app, sort_services, sort_apps, put_service, put_candidate, drop_empty, remove_candidate,
}
use localapp.Registry.Store.Invariant.{IsProper, IsCandidate}

-- The service that is registered under an app.
unfoldable pub view : List App → Str → Str → Option Service
view apps a s = find app_name a apps >>= λ x. find service_name s x.services

-- App(name), then Service(name), is the view.
pub app-find : (st : Store) (name : Str) → app st name ≡ find app_name name st.apps
unfolding app
app-find st name = get_elem?-index_of app_name name st.apps

pub view-sort_apps :
    (apps : List App) (a s : Str) → IsCandidate apps → view (sort_apps apps) a s ≡ view apps a s
unfolding view sort_apps
view-sort_apps apps a s h =
    rw
      (
        find-map app_name sort_services (λ x. refl) a (sort_by_name app_name apps),
        find-sort app_name a apps h.unique,
      )
      (by_app (find app_name a apps) refl)
  where
    by_app :
        (o : Option App)
        → find app_name a apps ≡ o
        → ((o >>= λ x. some (sort_services x)) >>= λ x. find service_name s x.services)
          ≡ (o >>= λ x. find service_name s x.services)
    by_app none e = refl
    by_app (some x) e =
        find-sort service_name s x.services
          (All_of_find app_name IsProper a apps x h.proper e).unique

-- An app after its service was put.
find-put_service :
    (svc : Service) (x : App) (s : Str)
    → find service_name s (put_service svc x).services
      ≡ (if str_eq svc.name s then some svc else find service_name s x.services)
unfolding put_service
find-put_service svc x s = elim (Option-cases (find service_name svc.name x.services)) [
  | inl e ↦
      rw (index_of-none service_name svc.name x.services e, put_service)
        (find-append-new service_name s x.services svc e)
  | inr (old, e) ↦
      let (j, at_j, _) = index_of-find service_name svc.name x.services old e in
      rw (at_j, put_service)
        (find-modify_at service_name (λ _. svc) svc.name s x.services j old (λ _ _. refl) at_j e)
]

-- The view after a put: the new service under its own names, and all else as it was.
module _ (app : Str) (svc : Service) (apps : List App) (a s : Str) where
  abbrev fresh : App
  fresh = record { name = app; services = svc ∷ [] }

  view-put_new :
      index_of app_name app apps ≡ none
      → find app_name app apps ≡ none
      → view (put_candidate app svc apps) a s
        ≡ (if str_eq app a && str_eq svc.name s then some svc else view apps a s)
  unfolding view put_candidate
  view-put_new at e =
      rw (at, put_candidate)
        (rw (find-append-new app_name a apps fresh e) (by_name (Bool-cases (str_eq app a))))
    where
      by_name :
          (str_eq app a ≡ true) ⊎ (str_eq app a ≡ false)
          → ((if str_eq app a then some fresh else find app_name a apps) >>= λ x.
              find service_name s x.services)
            ≡ (if str_eq app a && str_eq svc.name s
                then some svc
                else find app_name a apps >>= λ x. find service_name s x.services)
      by_name (inl t) =
          let same = (str_eq_iff app a).0 t in rw t (rw (← same) (rw e (unfold find in refl)))
      by_name (inr f) = rw f

  view-put_old :
      (i : ℕ) (x : App)
      → index_of app_name app apps ≡ some i
      → find app_name app apps ≡ some x
      → view (put_candidate app svc apps) a s
        ≡ (if str_eq app a && str_eq svc.name s then some svc else view apps a s)
  unfolding view put_candidate
  view-put_old i x at e =
      rw (at, put_candidate)
        (rw (find-modify_at app_name (put_service svc) app a apps i x (λ _ n. n) at e)
          (ground (arith, str_eq_iff app a, find-put_service svc x s)))

  pub view-put_candidate :
      view (put_candidate app svc apps) a s
      ≡ (if str_eq app a && str_eq svc.name s then some svc else view apps a s)
  view-put_candidate = elim (Option-cases (find app_name app apps)) [
    | inl e ↦ view-put_new (index_of-none app_name app apps e) e
    | inr (x, e) ↦ let (i, at_i, _) = index_of-find app_name app apps x e in view-put_old i x at_i e
  ]

-- The view after an app was removed.
pub view-remove_at :
    (app : Str) (i : ℕ) (apps : List App) (a s : Str)
    → IsUnique app_name apps
    → index_of app_name app apps ≡ some i
    → view (remove_at i apps) a s ≡ (if str_eq app a then none else view apps a s)
unfolding view
view-remove_at app i apps a s u at_i =
    rw (find-remove_at app_name app a apps i u at_i) (ground arith)

-- The view after a service was removed: its app goes with it if it was the last one.
module _ (app svc : Str) (i j : ℕ) (x : App) (apps : List App) (a s : Str) where
  view-drop_empty :
      (rest : List Service)
      → IsUnique app_name apps
      → index_of app_name app apps ≡ some i
      → find app_name app apps ≡ some x
      → find service_name s rest ≡ (if str_eq svc s then none else find service_name s x.services)
      → view (drop_empty i rest apps) a s
        ≡ (if str_eq app a && str_eq svc s then none else view apps a s)
  unfolding view find
  view-drop_empty [] u at_i e h =
      rw (find-remove_at app_name app a apps i u at_i) (ground (arith, str_eq_iff app a, h))
  view-drop_empty (r ∷ rs) u at_i e h =
      let f = λ (y : App). record y { services = r ∷ rs } in
      rw (find-modify_at app_name f app a apps i x (λ _ n. n) at_i e)
        (ground (arith, str_eq_iff app a, h))

  pub view-remove_candidate :
      IsCandidate apps
      → index_of app_name app apps ≡ some i
      → find app_name app apps ≡ some x
      → index_of service_name svc x.services ≡ some j
      → view (remove_candidate i j x apps) a s
        ≡ (if str_eq app a && str_eq svc s then none else view apps a s)
  unfolding remove_candidate
  view-remove_candidate h at_i e at_j = view-drop_empty (remove_at j x.services) h.unique at_i e (
      find-remove_at service_name svc s x.services j
        (All_of_find app_name IsProper app apps x h.proper e).unique at_j)
