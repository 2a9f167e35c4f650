-- ===== src/Registry/Store/Removals.antt =====
-- RemoveApp and RemoveService against the map of registrations.
use localapp.Base.{
  ℕ, ◌≡◌, ◌≢◌, refl, ◌∙◌, ◌&&◌, Option, none, some, Option-cases, inl, inr, ◌⊎◌, if◌then◌else◌,
}
use localapp.Text.{Str, str_eq}
use localapp.Keyed.{remove_at, find, index_of}
use localapp.Keyed.Laws.{All_of_find, index_of-find, index_of-none}
use localapp.Registry.{App, app_name, service_name}
use localapp.Registry.Store.{
  Faults, Failure, not_saved, World, RemoveResult, removed, absent, not_removed, commit_locked,
  remove_candidate, remove_app, remove_service, remove_result,
}
use localapp.Registry.Store.Invariant.{
  IsProper, IsCandidate, IsWellFormed-IsCandidate, remove_at-IsCandidate,
  remove_candidate-IsCandidate,
}
use localapp.Registry.Store.Views.{view, view-sort_apps, view-remove_at, view-remove_candidate}
use localapp.Registry.Store.Durable.{IsSound, commit_locked-IsSound, commit_locked_cases}

remove_result-1 : (r : Option Failure × World) → (remove_result r).1 ≡ r.1
remove_result-1 (none, w) = refl
remove_result-1 (some f, w) = refl

-- Nothing happened: the name was not there, or the save failed.
abbrev pub Unchanged : RemoveResult × World → World → Type 0 → Type 0
Unchanged r w missing = ((r ≡ (absent, w)) × missing) ⊎ ((f : Failure) × (r ≡ (not_removed f, w)))

module _ (faults : Faults) (app : Str) (w : World) where
  remove_app_cases :
      ((find app_name app w.store.apps ≡ none) × (remove_app faults app w ≡ (absent, w)))
      ⊎ ((i : ℕ) × (index_of app_name app w.store.apps ≡ some i)
          × (find app_name app w.store.apps ≢ none)
          × (remove_app faults app w
              ≡ remove_result (commit_locked faults (remove_at i w.store.apps) w)))
  unfolding remove_app
  remove_app_cases = elim (Option-cases (find app_name app w.store.apps)) [
    | inl e ↦ inl (e, rw (index_of-none app_name app w.store.apps e, remove_app))
    | inr (x, e) ↦
        let (i, at_i, _) = index_of-find app_name app w.store.apps x e in
        inr (i, at_i, (λ n. cc), rw (at_i, remove_app))
  ]

  pub remove_app-IsSound : IsSound w → IsSound (remove_app faults app w).1
  remove_app-IsSound h = elim remove_app_cases [
    | inl (_, eq) ↦ rw eq h
    | inr (i, at_i, _, eq) ↦
        rw (eq, remove_result-1 (commit_locked faults (remove_at i w.store.apps) w))
          (commit_locked-IsSound faults (remove_at i w.store.apps) w
            (remove_at-IsCandidate i w.store.apps (IsWellFormed-IsCandidate h.formed)) h)
  ]

  -- On a sound registry RemoveApp removes a registered app with all its services and nothing else;
  -- it changes nothing if the app is not registered or if saving fails.
  pub remove_app_effect :
      IsSound w
      → (((remove_app faults app w).0 ≡ removed)
          × (find app_name app w.store.apps ≢ none)
          × ((a s : Str)
              → view (remove_app faults app w).1.store.apps a s
                ≡ (if str_eq app a then none else view w.store.apps a s)))
        ⊎ Unchanged (remove_app faults app w) w (find app_name app w.store.apps ≡ none)
  remove_app_effect h = elim remove_app_cases [
    | inl (e, eq) ↦ inr (inl (eq, e))
    | inr (i, at_i, there, eq) ↦
        let c = IsWellFormed-IsCandidate h.formed in
        elim (commit_locked_cases faults (remove_at i w.store.apps) w h.named h.clean) [
          | inr (step, k) ↦ inr (inr (not_saved step, eq ∙ rw k))
          | inl k ↦ inl (
            rw (eq, k) refl,
            there,
            λ a s.
                rw (eq, k)
                  (view-sort_apps (remove_at i w.store.apps) a s
                      (remove_at-IsCandidate i w.store.apps c)
                    ∙ view-remove_at app i w.store.apps a s c.unique at_i),
          )
        ]
  ]

module _ (faults : Faults) (app svc : Str) (w : World) where
  remove_service_cases :
      ((view w.store.apps app svc ≡ none) × (remove_service faults app svc w ≡ (absent, w)))
      ⊎ ((i : ℕ) × (j : ℕ) × (x : App) × (index_of app_name app w.store.apps ≡ some i)
          × (find app_name app w.store.apps ≡ some x)
          × (index_of service_name svc x.services ≡ some j)
          × (view w.store.apps app svc ≢ none)
          × (remove_service faults app svc w
              ≡ remove_result (commit_locked faults (remove_candidate i j x w.store.apps) w)))
  unfolding remove_service view
  remove_service_cases = elim (Option-cases (find app_name app w.store.apps)) [
    | inl e ↦ inl (rw e, rw (index_of-none app_name app w.store.apps e, remove_service))
    | inr (x, e) ↦
        let (i, at_i, is_x) = index_of-find app_name app w.store.apps x e in
        elim (Option-cases (find service_name svc x.services)) [
          | inl f ↦ inl (
            rw e f,
            rw (at_i, remove_service) (rw is_x (rw (index_of-none service_name svc x.services f))),
          )
          | inr (y, f) ↦
              let (j, at_j, _) = index_of-find service_name svc x.services y f in
              inr (
                i,
                j,
                x,
                at_i,
                e,
                at_j,
                rw e (λ n. cc),
                rw (at_i, remove_service) (rw is_x (rw at_j)),
              )
        ]
  ]

  remove_service-IsCandidate :
      (i j : ℕ) (x : App)
      → IsSound w
      → index_of app_name app w.store.apps ≡ some i
      → find app_name app w.store.apps ≡ some x
      → IsCandidate (remove_candidate i j x w.store.apps)
  remove_service-IsCandidate i j x h at_i e =
      remove_candidate-IsCandidate i j app x w.store.apps at_i
        (All_of_find app_name IsProper app w.store.apps x h.formed.proper e)
        (IsWellFormed-IsCandidate h.formed)

  pub remove_service-IsSound : IsSound w → IsSound (remove_service faults app svc w).1
  remove_service-IsSound h = elim remove_service_cases [
    | inl (_, eq) ↦ rw eq h
    | inr (i, j, x, at_i, e, _, _, eq) ↦
        rw (eq, remove_result-1 (commit_locked faults (remove_candidate i j x w.store.apps) w))
          (commit_locked-IsSound faults (remove_candidate i j x w.store.apps) w
            (remove_service-IsCandidate i j x h at_i e) h)
  ]

  -- On a sound registry RemoveService removes a registered service and nothing else; it changes
  -- nothing if the service is not registered or if saving fails.
  pub remove_service_effect :
      IsSound w
      → (((remove_service faults app svc w).0 ≡ removed)
          × (view w.store.apps app svc ≢ none)
          × ((a s : Str)
              → view (remove_service faults app svc w).1.store.apps a s
                ≡ (if str_eq app a && str_eq svc s then none else view w.store.apps a s)))
        ⊎ Unchanged (remove_service faults app svc w) w (view w.store.apps app svc ≡ none)
  remove_service_effect h = elim remove_service_cases [
    | inl (e, eq) ↦ inr (inl (eq, e))
    | inr (i, j, x, at_i, e, at_j, there, eq) ↦
        let c = remove_service-IsCandidate i j x h at_i e in
        elim (commit_locked_cases faults (remove_candidate i j x w.store.apps) w h.named h.clean) [
          | inr (step, k) ↦ inr (inr (not_saved step, eq ∙ rw k))
          | inl k ↦ inl (
            rw (eq, k) refl,
            there,
            λ a s.
                rw (eq, k)
                  (view-sort_apps (remove_candidate i j x w.store.apps) a s c
                    ∙ view-remove_candidate app svc i j x w.store.apps a s
                        (IsWellFormed-IsCandidate h.formed) at_i e at_j),
          )
        ]
  ]
