-- ===== src/Registry/Store/Reopened.antt =====
-- Opening the registry file again after operations, as the next start of the daemon does.
use localapp.Base.{◌≡◌, ◌∙◌, ap, true, some, List, ◌>>=◌}
use localapp.Text.{Str}
use localapp.Registry.Store.{Faults, Store, World, opened, open_store}
use localapp.Registry.Store.Views.{view}
use localapp.Registry.Store.Saved.{saved_service, saved_store, view-saved}
use localapp.Registry.Store.Durable.{IsSound}
use localapp.Registry.Store.Runs.{Operation, run, run-IsSound}
use localapp.Registry.Store.Refinement.{apply_all, succeeding, run-refines}

-- From a sound registry, after any sequence of Put, RemoveApp and RemoveService with any failures
-- of the disk, opening the file again, if it can be read, succeeds, and looking up any app and
-- service then gives what the map of registrations became under those operations that reported no
-- failure, but for U+FFFD in place of what is not UTF-8 in a path.
pub open-run :
    (w : World) (ops : List (Faults × Operation))
    → IsSound w
    → (st : Store) × (open_store true (run w ops).store.path (run w ops).disk ≡ opened st)
      × ((a s : Str)
          → view st.apps a s ≡ (
              apply_all (succeeding w ops) (view w.store.apps) a s >>= λ svc.
              some (saved_service svc)))
open-run w ops h = (
  saved_store (run w ops).store,
  (run-IsSound w ops h).saved,
  λ a s.
      view-saved (run w ops).store.apps a s
      ∙ ap (λ o. o >>= λ svc. some (saved_service svc)) (run-refines w ops h a s),
)
