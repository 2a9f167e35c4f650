-- ===== src/Registry/Store/Operations.antt =====
-- Put against the map of registrations.
use localapp.Base.{
  ◌≡◌, refl, ◌∙◌, false, ◌&&◌, Option, none, some, arith, Option-cases, inl, inr, ◌⊎◌, ◌↔◌,
  if◌then◌else◌,
}
use localapp.Text.{Str, text, str_eq}
use localapp.Registry.{Service, ValidationError, validate_name, validate}
use localapp.Registry.Paths.{validate-normalize_path, normalize_path_idempotent}
use localapp.Registry.Store.{
  Faults, Failure, rejected, not_saved, World, saved, failed, commit_locked, put_candidate,
  normalized, put, put_result,
}
use localapp.Registry.Store.Invariant.{
  IsGood, IsCandidate, IsWellFormed-IsCandidate, put_candidate-IsCandidate,
}
use localapp.Registry.Store.Views.{view, view-sort_apps, view-put_candidate}
use localapp.Registry.Store.Durable.{
  IsSound, commit_locked-IsSound, commit_locked_cases, commit_locked_total,
}

-- What Put stores is valid if what it was given is.
normalized-IsGood : (svc : Service) → validate svc ≡ none → IsGood (normalized svc)
unfolding validate
normalized-IsGood svc h = record {
  valid = ground (arith, validate-normalize_path svc.path);
  normal = normalize_path_idempotent svc.path;
}

module _ (faults : Faults) (app : Str) (svc : Service) (w : World) where
  abbrev committed : Option Failure × World
  committed = commit_locked faults (put_candidate app (normalized svc) w.store.apps) w

  -- The three ends of Put: the app's name is refused, the service is refused, or it commits.
  put_cases :
      ((e : ValidationError) × (put faults app svc w ≡ (failed (rejected e), w))
        × ((validate_name (text "app") app ≡ some e) ⊎ (validate svc ≡ some e)))
      ⊎ ((validate_name (text "app") app ≡ none)
          × (validate svc ≡ none)
          × (put faults app svc w ≡ put_result (normalized svc) committed))
  unfolding put
  put_cases = elim (Option-cases (validate_name (text "app") app)) [
    | inr (e, bad) ↦ inl (e, rw (bad, put), inl bad)
    | inl good ↦ elim (Option-cases (validate svc)) [
      | inr (e, bad) ↦ inl (e, rw (good, put) (rw (bad, put)), inr bad)
      | inl fine ↦ inr (good, fine, rw (good, put) (rw (fine, put)))
    ]
  ]

  put_result-1 : (r : Option Failure × World) → (put_result (normalized svc) r).1 ≡ r.1
  put_result-1 (none, w') = refl
  put_result-1 (some f, w') = refl

  -- The candidate that Put commits.
  put-IsCandidate :
      IsSound w
      → validate_name (text "app") app ≡ none
      → validate svc ≡ none
      → IsCandidate (put_candidate app (normalized svc) w.store.apps)
  put-IsCandidate h good fine =
      put_candidate-IsCandidate app (normalized svc) w.store.apps good (normalized-IsGood svc fine)
        (IsWellFormed-IsCandidate h.formed)

  -- Put keeps the store sound, on success, on a refusal, and on every failure to save.
  pub put-IsSound : IsSound w → IsSound (put faults app svc w).1
  put-IsSound h = elim put_cases [
    | inl (e, eq, _) ↦ rw eq h
    | inr (good, fine, eq) ↦
        rw (eq, put_result-1 committed)
          (commit_locked-IsSound faults _ w (put-IsCandidate h good fine) h)
  ]

  -- On a sound registry, a Put that returns a service has stored it, with its path normalised,
  -- under its app and name, and every other registration is as it was; a Put that fails has
  -- changed nothing in memory or on disk, whichever step of saving failed.
  pub put_effect :
      IsSound w
      → ((put faults app svc w).0 ≡ saved (normalized svc))
          × ((a s : Str)
              → view (put faults app svc w).1.store.apps a s ≡ (
                  if str_eq app a && str_eq svc.name s
                  then some (normalized svc)
                  else view w.store.apps a s))
        ⊎ ((f : Failure) × (put faults app svc w ≡ (failed f, w)))
  put_effect h = elim put_cases [
    | inl (e, eq, _) ↦ inr (rejected e, eq)
    | inr (good, fine, eq) ↦
        elim (commit_locked_cases faults (put_candidate app (normalized svc) w.store.apps) w h.named
          h.clean) [
            | inr (step, c) ↦ inr (not_saved step, eq ∙ rw c)
            | inl c ↦ inl (
              rw (eq, c) refl,
              λ a s.
                  rw (eq, c)
                    (view-sort_apps _ a s (put-IsCandidate h good fine)
                      ∙ view-put_candidate app (normalized svc) w.store.apps a s),
            )
          ]
  ]

-- With a disk that does not fail, Put stores the service exactly if the app's name and the service
-- are valid.
put_total :
    (app : Str) (svc : Service) (w : World)
    → ((put (λ _. false) app svc w).0 ≡ saved (normalized svc))
      ↔ ((validate_name (text "app") app ≡ none) × (validate svc ≡ none))
put_total app svc w = (forth, back)
  where
    forth :
        (put (λ _. false) app svc w).0 ≡ saved (normalized svc)
        → (validate_name (text "app") app ≡ none) × (validate svc ≡ none)
    forth r = elim (put_cases (λ _. false) app svc w) [
      | inl (e, eq, _) ↦ cc
      | inr (good, fine, eq) ↦ (good, fine)
    ]

    result_of :
        (r : Option Failure × World)
        → r.0 ≡ none
        → (put_result (normalized svc) r).0 ≡ saved (normalized svc)
    result_of (none, w') e = refl
    result_of (some f, w') e = cc

    back :
        (validate_name (text "app") app ≡ none) × (validate svc ≡ none)
        → (put (λ _. false) app svc w).0 ≡ saved (normalized svc)
    back (good, fine) = elim (put_cases (λ _. false) app svc w) [
      | inl (e, eq, inl bad) ↦ cc
      | inl (e, eq, inr bad) ↦ cc
      | inr (_, _, eq) ↦ rw eq (result_of _ (commit_locked_total _ w))
    ]
