-- ===== src/Ca/Disk/Laws.antt =====
-- A write is all or nothing.
use localapp.Base.{◌≡◌, ◌≢◌, ◌⊎◌, refl, inl, inr, Option, none, some, arith}
use localapp.Text.{Str}
use localapp.Text.Order.{str_eq_refl, str_eq-eq-false}
use localapp.Ca.Disk.{
  Disk, WriteStep, create_temp, chmod, write, sync, close, rename, put_file, write_file,
}

pub put_file-same :
    (files : Str → Option Str) (path bytes : Str) → put_file files path bytes path ≡ some bytes
unfolding put_file
put_file-same files path bytes = rw (str_eq_refl path) refl

pub put_file-other :
    (files : Str → Option Str) (path bytes q : Str)
    → q ≢ path
    → put_file files path bytes q ≡ files q
unfolding put_file
put_file-other files path bytes q h = rw (str_eq-eq-false q path h) refl

pub write_file_cases :
    (fault : Option WriteStep) (path bytes : Str) (d : Disk)
    → d.temp ≡ none
    → ((fault ≡ none)
        × (write_file fault path bytes d
            ≡ (none, record { files = put_file d.files path bytes; temp = none })))
      ⊎ ((s : WriteStep) × (fault ≡ some s) × (write_file fault path bytes d ≡ (some s, d)))
unfolding write_file
write_file_cases none path bytes d h = inl (refl, refl)
write_file_cases (some create_temp) path bytes d h = inr (create_temp, refl, refl)
write_file_cases (some chmod) path bytes d h = inr (chmod, refl, ground arith)
write_file_cases (some write) path bytes d h = inr (write, refl, ground arith)
write_file_cases (some sync) path bytes d h = inr (sync, refl, ground arith)
write_file_cases (some close) path bytes d h = inr (close, refl, ground arith)
write_file_cases (some rename) path bytes d h = inr (rename, refl, ground arith)
