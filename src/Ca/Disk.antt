-- ===== src/Ca/Disk.antt =====
-- internal/ca/ca.go, writeFile: an atomic write by a temporary file and a rename.
pub mod Laws
use localapp.Base.{true, false, Bool, Option, none, some, [], if◌then◌else◌}
use localapp.Text.{Str, str_eq}

-- The files by their paths, and the temporary file of the write that is under way.
pub record Disk : Type 0 where
  pub files : Str → Option Str
  pub temp : Option Str

pub data WriteStep : Type 0 where
  create_temp chmod write sync close rename : WriteStep

abbrev same_step : WriteStep → WriteStep → Bool
same_step create_temp create_temp = true
same_step chmod chmod = true
same_step write write = true
same_step sync sync = true
same_step close close = true
same_step rename rename = true
same_step _ _ = false

abbrev fails_at : Option WriteStep → WriteStep → Bool
fails_at none s = false
fails_at (some f) s = same_step f s

abbrev remove_temp : Disk → Disk
remove_temp d = record d { temp = none }

unfoldable pub put_file : (Str → Option Str) → Str → Str → Str → Option Str
put_file files path bytes q = if str_eq q path then some bytes else files q

-- writeFile; the first argument is the step that fails, if one does. The deferred removal of the
-- temporary file succeeds.
unfoldable pub write_file : Option WriteStep → Str → Str → Disk → Option WriteStep × Disk
write_file fault path bytes d =
    let empty = record d { temp = some [] } in
    let full = record d { temp = some bytes } in
    if fails_at fault create_temp
    then (some create_temp, d)
    else if fails_at fault chmod
    then (some chmod, remove_temp empty)
    else if fails_at fault write
    then (some write, remove_temp empty)
    else if fails_at fault sync
    then (some sync, remove_temp full)
    else if fails_at fault close
    then (some close, remove_temp full)
    else if fails_at fault rename
    then (some rename, remove_temp full)
    else (none, record { files = put_file d.files path bytes; temp = none })
