-- ===== src/Cmd/Remove/Effects.antt =====
-- What rm does to the registry of the daemon.
use localapp.Base.{◌≡◌, ◌⊎◌, Bool, true, false, Option, none, some, ◌∷◌, ◌++◌}
use localapp.Keyed.{find}
use localapp.Registry.{app_name}
use localapp.Text.{Str}
use localapp.Registry.Names.{IsName}
use localapp.Registry.Store.{
  Faults, Failure, World, RemoveResult, not_removed, remove_app, remove_service,
}
use localapp.Registry.Store.Views.{view}
use localapp.Registry.Store.Runs.{Operation, remove_app_op, remove_service_op}
use localapp.Registry.Store.Refinement.{apply}
use localapp.Control.{Server, code_not_found}
use localapp.Control.Messages.{State, Response, no_content}
use localapp.Control.Handlers.{remove_response}
use localapp.Cmd.Remove.{ExitCode, exit_ok, exit_error, reported}

abbrev pub argument : Str → Option Str → Str
argument app none = app
argument app (some service) = app ++ b'/' ∷ service

abbrev pub IsNamed : Option Str → Type 0
IsNamed none = Unit
IsNamed (some service) = IsName service

abbrev pub removal : Str → Option Str → Operation
removal app none = remove_app_op app
removal app (some service) = remove_service_op app service

-- The app, or the service, is not registered; and the store's own removal of it.
abbrev pub IsMissing : World → Str → Option Str → Type 0
IsMissing w app none = find app_name app w.store.apps ≡ none
IsMissing w app (some service) = view w.store.apps app service ≡ none

abbrev pub remove : Faults → Str → Option Str → World → RemoveResult × World
remove faults app none w = remove_app faults app w
remove faults app (some service) w = remove_service faults app service w

-- Why nothing was removed.
abbrev pub Cause : Faults → Bool → Str → Option Str → World → Type 0
Cause faults reachable app service w =
    (reachable ≡ false)
    ⊎ (IsMissing w app service
        ⊎ ((f : Failure) × (remove faults app service w ≡ (not_removed f, w))))

-- A removal that is done, or not.
abbrev IsRemoval : Bool → Type 0 → State → Operation → ExitCode × State → Type 0
IsRemoval reachable cause st op (code, st') =
    ((code ≡ exit_ok)
      × (reachable ≡ true)
      × ((a t : Str) → view st'.world.store.apps a t ≡ apply op (view st.world.store.apps) a t))
    ⊎ ((code ≡ exit_error) × (st' ≡ st) × cause)

module _ (s : Server) (message : Str) (st : State) where
  abbrev answer : RemoveResult × World → ExitCode × State
  answer q = reported (remove_response s message st q)

  module _ (missing failing : Type 0) (op : Operation) where
    abbrev Removal : RemoveResult × World → Type 0
    Removal q = IsRemoval true ((true ≡ false) ⊎ (missing ⊎ failing)) st op (answer q)

module _ (s : Server) (faults : Faults) (st : State) where
  abbrev Done : Bool → Str → Option Str → ExitCode × State → Type 0
  Done reachable app service q =
      IsRemoval reachable (Cause faults reachable app service st.world) st (removal app service) q
