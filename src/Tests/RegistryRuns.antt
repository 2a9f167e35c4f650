-- ===== src/Tests/RegistryRuns.antt =====
-- The registry: a service is put, listed and removed again.
use localapp.Base.{◌≡◌, ◌≢◌, ◌⊎◌, refl, true, ◌&&◌, ◌>>=◌, some, List, [], ◌∷◌, if◌then◌else◌}
use localapp.Text.{Str, text, str_eq}
use localapp.Keyed.{find}
use localapp.Registry.{
  Service, App, app_name, validate_name, validate, validate_path, normalize_path,
}
use localapp.Registry.Store.{
  Faults, Failure, Store, World, opened, open_store, PutResult, saved, failed, RemoveResult,
  removed, put, normalized, remove_app, remove_service,
}
use localapp.Registry.Store.Durable.{IsSound}
use localapp.Registry.Store.Views.{view}
use localapp.Registry.Store.Operations.{put_effect}
use localapp.Registry.Store.Runs.{
  remove_app_op, remove_service_op, Operation, put_op, remove_service_op, run, fresh_world,
  run-IsSound, fresh-IsSound,
}
use localapp.Registry.Store.Saved.{saved_service}
use localapp.Registry.Store.Reopened.{open-run}
use localapp.Registry.Store.Refinement.{
  apply_all, succeeding, accepted, reliably, run-refines, run-reliably,
}
use localapp.Tests.Fixtures.{
  web, api, no_faults, shop, web_service, api_service, shop_app, registry_path, start,
}

registry_path-named : registry_path ≢ []
registry_path-named e = cc

start-IsSound : IsSound start
start-IsSound = fresh-IsSound registry_path registry_path-named

abbrev two_puts : List (Faults × Operation)
two_puts = (no_faults, put_op shop web_service) ∷ (no_faults, put_op shop api_service) ∷ []

-- Two services that are put are in the store, sorted.
two_puts-apps : (run start two_puts).store.apps ≡ shop_app ∷ []
unfolding run put localapp.Registry.validate_name localapp.Registry.name_re
    localapp.Registry.validate localapp.Registry.validate_port localapp.Registry.validate_path
    localapp.Registry.validate_pid localapp.Registry.normalize_path
    localapp.Registry.Store.commit_locked localapp.Registry.Store.save_locked
    localapp.Registry.Store.put_candidate localapp.Registry.Store.put_service
    localapp.Registry.Store.sort_apps localapp.Registry.Store.Runs.step
    localapp.Registry.has_forbidden localapp.Text.has_prefix localapp.Text.contains
    localapp.Text.str_eq localapp.Text.str_lt localapp.Text.text localapp.Text.all_bytes
    localapp.Text.trim_right localapp.Keyed.index_of localapp.Keyed.modify_at
    localapp.Keyed.sort_by_name localapp.Keyed.insert_by_name localapp.Registry.is_name_byte
two_puts-apps = refl

put_effect_example :
    ((put no_faults shop api_service start).0 ≡ saved (normalized api_service))
      × ((a s : Str)
          → view (put no_faults shop api_service start).1.store.apps a s ≡ (
              if str_eq shop a && str_eq api_service.name s
              then some (normalized api_service)
              else view start.store.apps a s))
    ⊎ ((f : Failure) × (put no_faults shop api_service start ≡ (failed f, start)))
put_effect_example = put_effect no_faults shop api_service start start-IsSound

open-run_example :
    (st : Store) × (open_store true (run start two_puts).store.path (run start two_puts).disk
      ≡ opened st)
    × ((a s : Str)
        → view st.apps a s ≡ (
            apply_all (succeeding start two_puts) (view start.store.apps) a s >>= λ svc.
            some (saved_service svc)))
open-run_example = open-run start two_puts start-IsSound

run-IsSound_example : IsSound (run start two_puts)
run-IsSound_example = run-IsSound start two_puts start-IsSound

abbrev stocked : World
stocked = run start two_puts

stocked-IsSound : IsSound stocked
stocked-IsSound = run-IsSound start two_puts start-IsSound

-- A put, a removal of which the first step of saving fails, and a removal.
abbrev mixed : List (Faults × Operation)
mixed =
    (no_faults, put_op shop web_service)
    ∷ ((λ step. true), remove_app_op shop)
    ∷ (no_faults, remove_service_op shop api)
    ∷ []

run-refines_example :
    view (run start mixed).store.apps shop web
    ≡ apply_all (succeeding start mixed) (view start.store.apps) shop web
run-refines_example = run-refines start mixed start-IsSound shop web

abbrev put_and_remove : List Operation
put_and_remove = put_op shop web_service ∷ put_op shop api_service ∷ remove_service_op shop web ∷ []

run-reliably_example :
    view (run stocked (reliably put_and_remove)).store.apps shop api
    ≡ apply_all (accepted put_and_remove) (view stocked.store.apps) shop api
run-reliably_example = run-reliably stocked put_and_remove stocked-IsSound shop api

abbrev slashed : Str
slashed = b'/' ∷ b'a' ∷ b'/' ∷ b'/' ∷ []

slashed-normal : normalize_path slashed ≡ b'/' ∷ b'a' ∷ []
unfolding normalize_path localapp.Text.trim_right localapp.Text.str_eq
slashed-normal = refl
