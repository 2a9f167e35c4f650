-- ===== src/Registry/Store.antt =====
-- internal/registry/store.go: the registry in memory, and its file. Every method holds the lock
-- from its first read to its last write, so an operation is one step on the store and the disk.
pub mod Invariant
pub mod Views
pub mod Saved
pub mod Durable
pub mod Operations
pub mod Removals
pub mod Runs
pub mod Refinement
pub mod Reopened
use localapp.Base.{
  ℕ, suc, ◌+◌, ◌≡◌, true, false, Bool, Option, none, some, List, [], ◌∷◌, ◌++◌, map, length,
  if◌then◌else◌, get_elem?,
}
use localapp.Text.{Str, str_eq}
use localapp.Keyed.{modify_at, remove_at, index_of, sort_by_name}
use localapp.Json.{Json}
use localapp.Registry.{
  Service, App, app_name, service_name, ValidationError, validate_name, validate, normalize_path,
}
use localapp.Text.{text}
use localapp.Registry.File.{encode_file, decode_file}

-- What a file holds: nothing, a JSON document, or bytes that are no document.
pub data Content : Type 0 where
  empty : Content
  document : Json → Content
  garbage : Content

-- registry.json, and a temporary file beside it.
pub record Disk : Type 0 where
  pub registry : Option Content
  pub temp : Option Content

-- The system calls of saveLocked, each of which may fail.
pub data SaveStep : Type 0 where
  mkdir create write sync close rename : SaveStep

abbrev pub Faults : Type 0
Faults = SaveStep → Bool

pub data Failure : Type 0 where
  rejected : ValidationError → Failure
  not_saved : SaveStep → Failure

pub record Store : Type 0 where
  pub path : Str
  pub apps : List App

-- The store and the disk that it writes to.
pub record World : Type 0 where
  pub store : Store
  pub disk : Disk

abbrev pub sort_services : App → App
sort_services a = record a { services = sort_by_name service_name a.services }

unfoldable pub sort_apps : List App → List App
unfolding sort_by_name
sort_apps apps = map sort_services (sort_by_name app_name apps)

-- os.ReadFile may fail for a reason other than a missing file: `readable` tells.
pub data Opened : Type 0 where
  opened : Store → Opened
  read_error parse_error : Opened

abbrev open_decoded : Str → Option (List App) → Opened
open_decoded path none = parse_error
open_decoded path (some apps) = opened (record { path = path; apps = sort_apps apps })

abbrev open_content : Str → Option Content → Opened
open_content path none = opened (record { path = path; apps = [] })
open_content path (some empty) = opened (record { path = path; apps = [] })
open_content path (some garbage) = parse_error
open_content path (some (document j)) = open_decoded path (decode_file j)

unfoldable pub open_store : Bool → Str → Disk → Opened
open_store readable path disk = if readable then open_content path disk.registry else read_error

-- os.CreateTemp, tmp.Write, os.Rename and the deferred os.Remove.
abbrev create_temp : Disk → Disk
create_temp d = record d { temp = some empty }

abbrev write_temp : List App → Disk → Disk
write_temp apps d = record d { temp = some (document (encode_file apps)) }

abbrev rename_temp : Disk → Disk
rename_temp d = record { registry = d.temp; temp = none }

abbrev remove_temp : Disk → Disk
remove_temp d = record d { temp = none }

unfoldable pub save_locked : Faults → Str → List App → Disk → Option SaveStep × Disk
unfolding str_eq
save_locked faults path apps disk =
    if str_eq path []
    then (none, disk)
    else if faults mkdir
    then (some mkdir, disk)
    else if faults create
    then (some create, disk)
    else if faults write
    then (some write, remove_temp (create_temp disk))
    else if faults sync
    then (some sync, remove_temp (write_temp apps (create_temp disk)))
    else if faults close
    then (some close, remove_temp (write_temp apps (create_temp disk)))
    else if faults rename
    then (some rename, remove_temp (write_temp apps (create_temp disk)))
    else (none, remove_temp (rename_temp (write_temp apps (create_temp disk))))

abbrev publish : List App → World → Option SaveStep × Disk → Option Failure × World
publish apps w (none, disk) = (none, record { store = record w.store { apps = apps }; disk = disk })
publish apps w (some step, disk) = (some (not_saved step), record w { disk = disk })

unfoldable pub commit_locked : Faults → List App → World → Option Failure × World
commit_locked faults apps w =
    let sorted = sort_apps apps in publish sorted w (save_locked faults w.store.path sorted w.disk)

-- The loop over apps[i].Services in Put.
unfoldable pub put_service : Service → App → App
unfolding index_of modify_at
put_service svc a = record a {
  services = elim (index_of service_name svc.name a.services) [
    | none ↦ a.services ++ svc ∷ []
    | some j ↦ modify_at (λ _. svc) j a.services
  ];
}

unfoldable pub put_candidate : Str → Service → List App → List App
unfolding index_of modify_at put_service
put_candidate app svc apps = elim (index_of app_name app apps) [
  | none ↦ apps ++ record { name = app; services = svc ∷ [] } ∷ []
  | some i ↦ modify_at (put_service svc) i apps
]

pub data PutResult : Type 0 where
  saved : Service → PutResult
  failed : Failure → PutResult

abbrev put_result : Service → Option Failure × World → PutResult × World
put_result svc (none, w) = (saved svc, w)
put_result svc (some f, w) = (failed f, w)

abbrev pub normalized : Service → Service
normalized svc = record svc { path = normalize_path svc.path }

unfoldable pub put : Faults → Str → Service → World → PutResult × World
put faults app svc w = elim (validate_name (text "app") app) [
  | some e ↦ (failed (rejected e), w)
  | none ↦ elim (validate svc) [
    | some e ↦ (failed (rejected e), w)
    | none ↦
        put_result (normalized svc)
          (commit_locked faults (put_candidate app (normalized svc) w.store.apps) w)
  ]
]

-- The result of a removal: (removed, err).
pub data RemoveResult : Type 0 where
  removed absent : RemoveResult
  not_removed : Failure → RemoveResult

abbrev remove_result : Option Failure × World → RemoveResult × World
remove_result (none, w) = (removed, w)
remove_result (some f, w) = (not_removed f, w)

unfoldable pub remove_app : Faults → Str → World → RemoveResult × World
remove_app faults app w = elim (index_of app_name app w.store.apps) [
  | none ↦ (absent, w)
  | some i ↦ remove_result (commit_locked faults (remove_at i w.store.apps) w)
]

-- apps[i] loses its service j, and goes itself when none is left.
abbrev drop_empty : ℕ → List Service → List App → List App
drop_empty i [] apps = remove_at i apps
drop_empty i (s ∷ ss) apps = modify_at (λ a. record a { services = s ∷ ss }) i apps

unfoldable pub remove_candidate : ℕ → ℕ → App → List App → List App
unfolding remove_at modify_at
remove_candidate i j a apps = drop_empty i (remove_at j a.services) apps

unfoldable pub remove_service : Faults → Str → Str → World → RemoveResult × World
remove_service faults app svc w = elim (index_of app_name app w.store.apps) [
  | none ↦ (absent, w)
  | some i ↦ elim (get_elem? w.store.apps i) [
    | none ↦ (absent, w)
    | some a ↦ elim (index_of service_name svc a.services) [
      | none ↦ (absent, w)
      | some j ↦ remove_result (commit_locked faults (remove_candidate i j a w.store.apps) w)
    ]
  ]
]

-- App(name): the copy of an app.
unfoldable pub app : Store → Str → Option App
unfolding index_of
app s name = elim (index_of app_name name s.apps) [ none ↦ none | some i ↦ get_elem? s.apps i ]

count_services : List App → ℕ
count_services [] = 0
count_services (a ∷ apps) = length a.services + count_services apps

-- Counts
unfoldable pub counts : Store → ℕ × ℕ
unfolding count_services
counts s = (length s.apps, count_services s.apps)
