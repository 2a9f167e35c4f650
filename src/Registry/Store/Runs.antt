-- ===== src/Registry/Store/Runs.antt =====
-- Any sequence of operations, with any failures of the disk, from an opened registry.
use localapp.Base.{◌≢◌, refl, none, List, [], ◌∷◌}
use localapp.Text.{Str}
use localapp.Registry.{Service}
use localapp.Registry.Store.{Faults, World, open_store, put, remove_app, remove_service}
use localapp.Registry.Store.Durable.{IsSound}
use localapp.Registry.Store.Operations.{put-IsSound}
use localapp.Registry.Store.Removals.{remove_app-IsSound, remove_service-IsSound}

pub data Operation : Type 0 where
  put_op : Str → Service → Operation
  remove_app_op : Str → Operation
  remove_service_op : Str → Str → Operation

-- An operation, and the steps of saving that fail in it.
unfoldable pub step : World → Faults × Operation → World
unfolding put remove_app remove_service
step w (faults, put_op app svc) = (put faults app svc w).1
step w (faults, remove_app_op app) = (remove_app faults app w).1
step w (faults, remove_service_op app svc) = (remove_service faults app svc w).1

unfoldable pub run : World → List (Faults × Operation) → World
unfolding step
run w [] = w
run w (op ∷ ops) = run (step w op) ops

pub step-IsSound : (w : World) (op : Faults × Operation) → IsSound w → IsSound (step w op)
unfolding step
step-IsSound w (faults, put_op app svc) h = put-IsSound faults app svc w h
step-IsSound w (faults, remove_app_op app) h = remove_app-IsSound faults app w h
step-IsSound w (faults, remove_service_op app svc) h = remove_service-IsSound faults app svc w h

-- From a sound registry every sequence of operations, whatever fails on the disk, ends in a sound
-- one: apps and services in strictly ascending order with valid names, valid services with normal
-- paths, a file that reads back as the store but for U+FFFD in place of what is not UTF-8 in a
-- path, and no temporary file.
pub run-IsSound : (w : World) (ops : List (Faults × Operation)) → IsSound w → IsSound (run w ops)
unfolding run
run-IsSound w [] h = h
run-IsSound w (op ∷ ops) h = run-IsSound (step w op) ops (step-IsSound w op h)

abbrev pub fresh_world : Str → World
fresh_world path = record {
  store = record { path = path; apps = [] };
  disk = record { registry = none; temp = none };
}

-- A registry that was opened with no file there is sound.
pub fresh-IsSound : (path : Str) → path ≢ [] → IsSound (fresh_world path)
fresh-IsSound path named = record {
  named = named;
  formed = record { sorted = tt; proper = tt; services = tt };
  saved = unfold open_store in refl;
  clean = refl;
}
