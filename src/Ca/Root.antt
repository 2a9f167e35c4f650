-- ===== src/Ca/Root.antt =====
-- internal/ca/ca.go: creating and loading the root CA. `join` is filepath.Join.
pub mod Making
pub mod Stored
pub mod Restart
pub mod Kept
use localapp.Base.{
  ℕ, ◌+◌, ◌-◌, ◌*◌, true, false, Bool, not, ◌||◌, Option, none, some, List, [], ◌∷◌, ◌++◌,
  if◌then◌else◌,
}
use localapp.Text.{Str, text, str_eq}
use localapp.Ca.{HostError, validate_domain}
use localapp.Ca.Disk.{Disk, WriteStep, write_file}
use localapp.Ca.Crypto.{Crypto, Template, root_usage}

abbrev pub day : ℕ
day = 24 * 60 * 60

abbrev pub backdate : ℕ
backdate = 60 * 60

abbrev pub ca_validity : ℕ
ca_validity = 10 * 365 * day

-- Every error, by its cause. `not_exist` is os.ErrNotExist.
pub data CaError : Type 0 where
  bad_host : HostError → CaError
  no_directory not_exist unreadable bad_pem mismatch not_a_ca domain_mismatch : CaError
  no_key no_serial not_created not_parsed not_marshalled : CaError
  not_made : Str → CaError
  not_saved : WriteStep → CaError

-- errors.Is(err, os.ErrNotExist)
abbrev pub is_not_exist : CaError → Bool
is_not_exist not_exist = true
is_not_exist _ = false

pub data Result {ℓ} (A : Type ℓ) : Type ℓ where
  ok : A → Result A
  err : CaError → Result A

-- What fails: reading a file that is there, making a directory, and writing a file, at a step.
pub record Faults : Type 0 where
  pub unreadable_at : Str → Bool
  pub mkdir_fails : Str → Bool
  pub write_fails : Str → Option WriteStep

-- crypto/rand: a new key, and a number below 2^128.
pub record Draw (C : Crypto) : Type 0 where
  pub new_key : Option C.Key
  pub number : Option ℕ

pub record Root (C : Crypto) : Type 0 where
  pub cert : C.Cert
  pub key : C.Key

-- The CA; `cache` stands with the leaf certificates.
pub record Place : Type 0 where
  pub domain : Str
  pub ca_dir : Str
  pub certs_dir : Str

-- The first error ends a function.
infixl 5 ◌>>=◌
abbrev pub ◌>>=◌ {ℓ κ} : {A : Type ℓ} {B : Type κ} → Result A → (A → Result B) → Result B
err cause >>= on = err cause
ok found >>= on = on found

abbrev pub or_fail {ℓ} : {A : Type ℓ} → CaError → Option A → Result A
or_fail cause none = err cause
or_fail cause (some found) = ok found

abbrev pub check : Bool → CaError → Result (Unit {0})
check holds cause = if holds then ok tt else err cause

-- os.ReadFile
unfoldable pub read_file : Faults → Disk → Str → Result Str
read_file faults d path = elim (d.files path) [
  | none ↦ err not_exist
  | some bytes ↦ if faults.unreadable_at path then err unreadable else ok bytes
]

-- newSerial, on what crypto/rand gives.
unfoldable pub new_serial : Option ℕ → Result ℕ
new_serial number = do n ← or_fail no_serial number; ok (n + 1)

module _ (C : Crypto) (join : Str → Str → Str) where
  unfoldable pub cert_path : Str → Str
  cert_path ca_dir = join ca_dir (text "root.crt")

  unfoldable pub key_path : Str → Str
  key_path ca_dir = join ca_dir (text "root.key")

  unfoldable pub decode_cert : Str → Result C.Cert
  decode_cert bytes = elim (C.pem_decode bytes) [
    | none ↦ err bad_pem
    | some (kind, der) ↦
        if str_eq kind (text "CERTIFICATE") then or_fail not_parsed (C.parse der) else err bad_pem
  ]

  unfoldable pub decode_key : Str → Result C.Key
  decode_key bytes = elim (C.pem_decode bytes) [
    | none ↦ err bad_pem
    | some (kind, der) ↦
        if str_eq kind (text "PRIVATE KEY")
        then or_fail not_parsed (C.parse_key der)
        else err bad_pem
  ]

  unfoldable pub encode_cert : Str → Str
  encode_cert der = C.pem_encode (text "CERTIFICATE") der

  unfoldable pub encode_key : C.Key → Result Str
  encode_key key = do
    der ← or_fail not_marshalled (C.marshal key)
    ok (C.pem_encode (text "PRIVATE KEY") der)

  unfoldable pub load_root : Faults → Disk → Str → Result (Root C)
  load_root faults d ca_dir = do
    cert_pem ← read_file faults d (cert_path ca_dir)
    key_pem ← read_file faults d (key_path ca_dir)
    cert ← decode_cert cert_pem
    key ← decode_key key_pem
    _ ← check (C.matches cert key) mismatch
    _ ← check (C.is_ca cert) not_a_ca
    ok (record { cert = cert; key = key })

  -- What createRoot makes before it saves: the root, and the texts of the two files.
  pub record Made : Type 0 where
    pub root : Root C
    pub key_pem : Str
    pub cert_pem : Str

  unfoldable pub root_template : Str → ℕ → ℕ → Template
  root_template domain serial now = record {
    serial = serial;
    common_name = text "localapp local CA (" ++ domain ++ text ")";
    organization = text "localapp" ∷ [];
    not_before = now - backdate;
    not_after = now + ca_validity;
    usage = root_usage;
    is_ca = true;
    dns_names = [];
    permitted = domain ∷ [];
  }

  unfoldable pub make_root : Str → ℕ → Draw C → Result Made
  unfolding root_template encode_key encode_cert new_serial
  make_root domain now draw = do
    key ← or_fail no_key draw.new_key
    serial ← new_serial draw.number
    der ← or_fail not_created (C.create (root_template domain serial now) none key key)
    cert ← or_fail not_parsed (C.parse der)
    key_pem ← encode_key key
    ok (record {
      root = record { cert = cert; key = key };
      key_pem = key_pem;
      cert_pem = encode_cert der;
    })

abbrev write_second : Faults → Str → Str → Option WriteStep × Disk → Option WriteStep × Disk
write_second faults path bytes (some s, d) = (some s, d)
write_second faults path bytes (none, d) = write_file (faults.write_fails path) path bytes d

-- The private key is written first.
unfoldable pub save_pair : Faults → Str → Str → Str → Str → Disk → Option WriteStep × Disk
save_pair faults key_at key_pem cert_at cert_pem d =
    write_second faults cert_at cert_pem (write_file (faults.write_fails key_at) key_at key_pem d)

unfoldable pub no_directories : Place → Bool
unfolding str_eq
no_directories place = str_eq place.ca_dir [] || str_eq place.certs_dir []

module _ (C : Crypto) (join : Str → Str → Str) where
  abbrev saved : Root C → Option WriteStep × Disk → Result (Root C) × Disk
  saved root (none, d) = (ok root, d)
  saved root (some s, d) = (err (not_saved s), d)

  abbrev create_made : Faults → Str → Disk → Result (Made C join) → Result (Root C) × Disk
  create_made faults ca_dir d (err e) = (err e, d)
  create_made faults ca_dir d (ok m) =
      saved m.root
        (save_pair faults (key_path C join ca_dir) m.key_pem (cert_path C join ca_dir) m.cert_pem d)

  unfoldable pub create_root : Faults → Place → ℕ → Draw C → Disk → Result (Root C) × Disk
  create_root faults place now draw d =
      create_made faults place.ca_dir d (make_root C join place.domain now draw)

  unfoldable pub covers : List Str → Str → Bool
  covers [] domain = false
  covers (d ∷ ds) domain = str_eq d domain || covers ds domain

  -- checkRootCoversDomain
  unfoldable pub check_covers : Root C → Str → Result (Unit {0})
  check_covers root domain = check (covers (C.permitted root.cert) domain) domain_mismatch

  abbrev loaded : Faults → Place → ℕ → Draw C → Disk → Result (Root C) → Result (Root C) × Disk
  loaded faults place now draw d (ok root) = (do _ ← check_covers root place.domain; ok root, d)
  loaded faults place now draw d (err e) =
      if is_not_exist e then create_root faults place now draw d else (err e, d)

  -- LoadOrCreate
  unfoldable pub load_or_create : Faults → Place → ℕ → Draw C → Disk → Result (Root C) × Disk
  load_or_create faults place now draw d = elim (validate_domain place.domain) [
    | some e ↦ (err (bad_host e), d)
    | none ↦
        if no_directories place
        then (err no_directory, d)
        else if faults.mkdir_fails place.ca_dir
        then (err (not_made place.ca_dir), d)
        else if faults.mkdir_fails place.certs_dir
        then (err (not_made place.certs_dir), d)
        else loaded faults place now draw d (load_root C join faults d place.ca_dir)
  ]
