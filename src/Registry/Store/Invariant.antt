-- ===== src/Registry/Store/Invariant.antt =====
-- The shape of the registry that the operations of store.go work on.
use localapp.Base.{
  ℕ, ◌≡◌, ◌≢◌, refl, none, some, List, [], ◌∷◌, ◌++◌, All, All-append, Option-cases, inl, inr,
}
use localapp.Text.{Str, text}
use localapp.Keyed.{modify_at, remove_at, index_of, sort_by_name, IsUnique, IsSorted}
use localapp.Keyed.Laws.{
  All-modify_at, All-remove_at, IsNew-find, IsUnique-modify_at, IsUnique-remove_at, IsUnique-append,
}
use localapp.Keyed.Sorting.{All-sort, sort-IsSorted, IsSorted-IsUnique}
use localapp.Keyed.Mapping.{All-map, IsSorted-map, sort-ne-nil, find_of_index}
use localapp.Registry.{
  Service, App, app_name, service_name, validate_name, validate, normalize_path,
}
use localapp.Registry.Store.{
  sort_services, sort_apps, put_service, put_candidate, drop_empty, remove_candidate,
}

-- A stored service passes validation, and its path is in normal form.
pub record IsGood (s : Service) : Type 0 where
  pub valid : validate s ≡ none
  pub normal : normalize_path s.path ≡ s.path

-- An app has a valid name and at least one service, and its services have distinct names.
pub record IsProper (a : App) : Type 0 where
  pub named : validate_name (text "app") a.name ≡ none
  pub unique : IsUnique service_name a.services
  pub good : All IsGood a.services
  pub nonempty : a.services ≢ []

-- The apps that an operation hands to commitLocked.
pub record IsCandidate (apps : List App) : Type 0 where
  pub unique : IsUnique app_name apps
  pub proper : All IsProper apps

-- The apps in memory: ascending names, and ascending service names in each app.
pub record IsWellFormed (apps : List App) : Type 0 where
  pub sorted : IsSorted app_name apps
  pub proper : All IsProper apps
  pub services : All (λ a. IsSorted service_name a.services) apps

pub IsWellFormed-IsCandidate : {apps : List App} → IsWellFormed apps → IsCandidate apps
IsWellFormed-IsCandidate {apps} h = record {
  unique = IsSorted-IsUnique app_name apps h.sorted;
  proper = h.proper;
}

sort_services-IsProper : (a : App) → IsProper a → IsProper (sort_services a)
sort_services-IsProper a h = record {
  named = h.named;
  unique =
      IsSorted-IsUnique service_name (sort_by_name service_name a.services)
        (sort-IsSorted service_name a.services h.unique);
  good = All-sort service_name IsGood a.services h.good;
  nonempty = sort-ne-nil service_name a.services h.nonempty;
}

pub sort_apps-IsWellFormed : (apps : List App) → IsCandidate apps → IsWellFormed (sort_apps apps)
unfolding sort_apps
sort_apps-IsWellFormed apps h =
    let proper = All-sort app_name IsProper apps h.proper in
    record {
      sorted =
          IsSorted-map app_name sort_services (λ a. refl) (sort_by_name app_name apps)
            (sort-IsSorted app_name apps h.unique);
      proper =
          All-map IsProper IsProper sort_services sort_services-IsProper
            (sort_by_name app_name apps) proper;
      services =
          All-map IsProper (λ a. IsSorted service_name a.services) sort_services
            (λ a p. sort-IsSorted service_name a.services p.unique) (sort_by_name app_name apps)
            proper;
    }

append-ne-nil {ℓ} : {A : Type ℓ} (xs : List A) (x : A) → xs ++ x ∷ [] ≢ []
append-ne-nil [] x = cc
append-ne-nil (y ∷ ys) x = cc

modify_at-ne-nil {ℓ} :
    {A : Type ℓ} (f : A → A) (i : ℕ) (xs : List A) → xs ≢ [] → modify_at f i xs ≢ []
unfolding modify_at
modify_at-ne-nil f i [] n = n
modify_at-ne-nil f ℕ.zero (x ∷ xs) n = cc
modify_at-ne-nil f (ℕ.suc i) (x ∷ xs) n = cc

put_service-IsProper :
    (svc : Service) → IsGood svc → (a : App) → IsProper a → IsProper (put_service svc a)
unfolding put_service
put_service-IsProper svc g a h = elim (Option-cases (index_of service_name svc.name a.services)) [
  | inl e ↦ rw e (record {
    named = h.named;
    unique = IsUnique-append service_name a.services svc h.unique (
        IsNew-find service_name svc.name a.services
          (find_of_index service_name svc.name a.services e));
    good = All-append IsGood a.services (svc ∷ []) h.good (g, tt);
    nonempty = append-ne-nil a.services svc;
  })
  | inr (j, e) ↦ rw e (record {
    named = h.named;
    unique =
        IsUnique-modify_at service_name (λ _. svc) svc.name a.services j (λ _ _. refl) e h.unique;
    good = All-modify_at IsGood (λ _. svc) (λ _ _. g) j a.services h.good;
    nonempty = modify_at-ne-nil (λ _. svc) j a.services h.nonempty;
  })
]

pub put_candidate-IsCandidate :
    (app : Str) (svc : Service) (apps : List App)
    → validate_name (text "app") app ≡ none
    → IsGood svc
    → IsCandidate apps
    → IsCandidate (put_candidate app svc apps)
unfolding put_candidate
put_candidate-IsCandidate app svc apps named g h =
    elim (Option-cases (index_of app_name app apps)) [
      | inl e ↦
          rw (e, put_candidate)
            (let fresh : App = record { name = app; services = svc ∷ [] } in
              record {
                unique =
                    IsUnique-append app_name apps fresh h.unique
                      (IsNew-find app_name app apps (find_of_index app_name app apps e));
                proper = All-append IsProper apps (fresh ∷ []) h.proper (
                  record { named = named; unique = (tt, tt); good = (g, tt); nonempty = cc },
                  tt,
                );
              })
      | inr (i, e) ↦
          rw (e, put_candidate)
            (record {
              unique =
                  IsUnique-modify_at app_name (put_service svc) app apps i (λ a n. n) e h.unique;
              proper =
                  All-modify_at IsProper (put_service svc) (put_service-IsProper svc g) i apps
                    h.proper;
            })
    ]

pub remove_at-IsCandidate :
    (i : ℕ) (apps : List App) → IsCandidate apps → IsCandidate (remove_at i apps)
remove_at-IsCandidate i apps h = record {
  unique = IsUnique-remove_at app_name i apps h.unique;
  proper = All-remove_at IsProper i apps h.proper;
}

drop_empty-IsCandidate :
    (i : ℕ) (app : Str) (rest : List Service) (apps : List App)
    → index_of app_name app apps ≡ some i
    → IsUnique service_name rest
    → All IsGood rest
    → IsCandidate apps
    → IsCandidate (drop_empty i rest apps)
drop_empty-IsCandidate i app [] apps e u g h = remove_at-IsCandidate i apps h
drop_empty-IsCandidate i app (s ∷ ss) apps e u g h =
    let f = λ (a : App). record a { services = s ∷ ss } in
    record {
      unique = IsUnique-modify_at app_name f app apps i (λ a n. n) e h.unique;
      proper =
          All-modify_at IsProper f
            (λ a p. record { named = p.named; unique = u; good = g; nonempty = cc }) i apps
            h.proper;
    }

pub remove_candidate-IsCandidate :
    (i j : ℕ) (app : Str) (a : App) (apps : List App)
    → index_of app_name app apps ≡ some i
    → IsProper a
    → IsCandidate apps
    → IsCandidate (remove_candidate i j a apps)
unfolding remove_candidate
remove_candidate-IsCandidate i j app a apps e p h =
    drop_empty-IsCandidate i app (remove_at j a.services) apps e
      (IsUnique-remove_at service_name j a.services p.unique)
      (All-remove_at IsGood j a.services p.good) h
