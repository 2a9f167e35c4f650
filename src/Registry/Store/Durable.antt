-- ===== src/Registry/Store/Durable.antt =====
-- Memory and disk: what a commit does to them, whether it succeeds or not.
use localapp.Base.{
  ◌≡◌, ◌≢◌, refl, ap, true, false, none, some, List, [], arith, Bool-cases, inl, inr, ◌⊎◌,
}
use localapp.Text.{Str, str_eq}
use localapp.Text.Order.{str_eq-eq-false}
use localapp.Registry.{App}
use localapp.Registry.File.{encode_file, decode-encode_file}
use localapp.Registry.Store.{
  document, Disk, SaveStep, mkdir, create, write, sync, close, rename, Faults, not_saved, World,
  opened, sort_apps, open_store, save_locked, commit_locked,
}
use localapp.Registry.Store.Saved.{saved_store, coerced_of_IsWellFormed, sort_apps-saved}
use localapp.Registry.Store.Invariant.{IsWellFormed, IsCandidate, sort_apps-IsWellFormed}

-- Opening the file now would give the store in memory, but for what is not UTF-8 in a path, and no
-- temporary file is left.
pub record IsSound (w : World) : Type 0 where
  pub named : w.store.path ≢ []
  pub formed : IsWellFormed w.store.apps
  pub saved : open_store true w.store.path w.disk ≡ opened (saved_store w.store)
  pub clean : w.disk.temp ≡ none

-- What the file holds after a save that succeeded.
abbrev written : List App → Disk
written apps = record { registry = some (document (encode_file apps)); temp = none }

module _ (faults : Faults) (path : Str) (apps : List App) (disk : Disk) where
  -- Without the temporary file the disk is as it was.
  restored : disk.temp ≡ none → record disk { temp = none } ≡ disk
  restored h = ground arith

  -- A save replaces registry.json whole, or fails at a step and leaves the disk as it was.
  save_locked_cases :
      path ≢ []
      → disk.temp ≡ none
      → (save_locked faults path apps disk ≡ (none, written apps))
        ⊎ ((step : SaveStep) × (save_locked faults path apps disk ≡ (some step, disk)))
  unfolding save_locked
  save_locked_cases named h = rw (str_eq-eq-false path [] named) (elim (Bool-cases (faults mkdir)) [
    | inl e ↦ rw e (inr (mkdir, refl))
    | inr e ↦ rw e (elim (Bool-cases (faults create)) [
      | inl e ↦ rw e (inr (create, refl))
      | inr e ↦ rw e (elim (Bool-cases (faults write)) [
        | inl e ↦ rw e (inr (write, ap (λ d. (some write, d)) (restored h)))
        | inr e ↦ rw e (elim (Bool-cases (faults sync)) [
          | inl e ↦ rw e (inr (sync, ap (λ d. (some sync, d)) (restored h)))
          | inr e ↦ rw e (elim (Bool-cases (faults close)) [
            | inl e ↦ rw e (inr (close, ap (λ d. (some close, d)) (restored h)))
            | inr e ↦ rw e (elim (Bool-cases (faults rename)) [
              | inl e ↦ rw e (inr (rename, ap (λ d. (some rename, d)) (restored h)))
              | inr e ↦ rw e (inl refl)
            ])
          ])
        ])
      ])
    ])
  ])

-- A commit publishes the sorted apps in memory and on disk, or fails and changes neither.
pub commit_locked_cases :
    (faults : Faults) (apps : List App) (w : World)
    → w.store.path ≢ []
    → w.disk.temp ≡ none
    → (commit_locked faults apps w ≡ (
      none,
      record {
        store = record { path = w.store.path; apps = sort_apps apps };
        disk = written (sort_apps apps);
      },
    ))
      ⊎ ((step : SaveStep) × (commit_locked faults apps w ≡ (some (not_saved step), w)))
unfolding commit_locked
commit_locked_cases faults apps w named h =
    elim (save_locked_cases faults w.store.path (sort_apps apps) w.disk named h) [
      | inl e ↦ rw e (inl refl)
      | inr (step, e) ↦ rw e (inr (step, refl))
    ]

-- With no fault a commit succeeds.
pub commit_locked_total :
    (apps : List App) (w : World) → (commit_locked (λ _. false) apps w).0 ≡ none
unfolding commit_locked save_locked
commit_locked_total apps w = elim (Bool-cases (str_eq w.store.path [])) [
  | inl e ↦ rw e
  | inr e ↦ rw e
]

-- A well-formed registry is read back from the file that it was written to.
open-written :
    (path : Str) (apps : List App)
    → IsWellFormed apps
    → open_store true path (written apps)
      ≡ opened (saved_store (record { path = path; apps = apps }))
unfolding open_store
open-written path apps h =
    rw (decode-encode_file apps, coerced_of_IsWellFormed apps h, sort_apps-saved apps h)

-- Whatever fails, a commit of a candidate keeps the store sound.
pub commit_locked-IsSound :
    (faults : Faults) (apps : List App) (w : World)
    → IsCandidate apps
    → IsSound w
    → IsSound (commit_locked faults apps w).1
commit_locked-IsSound faults apps w c h = elim (commit_locked_cases faults apps w h.named h.clean) [
  | inl e ↦ rw e (
      let formed = sort_apps-IsWellFormed apps c in
      record {
        named = h.named;
        formed = formed;
        saved = open-written w.store.path (sort_apps apps) formed;
        clean = refl;
      })
  | inr (step, e) ↦ rw e h
]
