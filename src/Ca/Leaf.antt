-- ===== src/Ca/Leaf.antt =====
-- internal/ca/leaf.go: the certificates of the hosts, from the memory, the disk, or newly issued. A
-- call holds the mutex. `join` is filepath.Join.
pub mod Issue
pub mod Usable
pub mod Again
use localapp.Base.{
  ℕ, ◌+◌, ◌-◌, ◌*◌, true, false, Bool, not, ◌||◌, ◌&&◌, Option, none, some, List, [], ◌∷◌, ◌++◌,
  length, ltb, if◌then◌else◌,
}
use localapp.Text.{Str, text, str_eq}
use localapp.Ca.{HostError, validate_host}
use localapp.Ca.Disk.{Disk, WriteStep}
use localapp.Ca.Crypto.{Crypto, Template, KeyUsage, digital_signature, server_auth}
use localapp.Ca.Root.{
  CaError, bad_host, no_key, no_serial, not_created, not_parsed, bad_pem, not_saved, Result, ok,
  err, ◌>>=◌, or_fail, Faults, Draw, Root, Place, day, backdate, read_file, encode_key, encode_cert,
  new_serial, save_pair,
}

abbrev pub leaf_validity : ℕ
leaf_validity = 90 * day

abbrev pub renew_before : ℕ
renew_before = 30 * day

module _ (C : Crypto) where
  -- tls.Certificate
  pub record Pair : Type 0 where
    pub chain : List Str
    pub key : C.Key
    pub leaf : Option C.Cert

  -- CA: the cache is a map, which only grows.
  pub record Ca : Type 0 where
    pub place : Place
    pub root : Root C
    pub cache : Str → Option Pair

  -- usable
  unfoldable pub usable_leaf : C.Cert → C.Cert → Str → ℕ → Bool
  usable_leaf root leaf host now =
      if ltb now (C.not_before leaf) || ltb (C.not_after leaf) (now + renew_before)
      then false
      else if not (C.verifies leaf host)
      then false
      else C.signed_by leaf root

  unfoldable pub usable : C.Cert → Option C.Cert → Str → ℕ → Bool
  unfolding usable_leaf
  usable root none host now = false
  usable root (some leaf) host now = usable_leaf root leaf host now

  unfoldable pub remember : Str → Pair → (Str → Option Pair) → Str → Option Pair
  remember host pair cache h = if str_eq h host then some pair else cache h

-- commonName
unfoldable pub common_name : Str → Str
common_name host = if ltb 64 (length host) then [] else host

unfoldable pub leaf_template : Str → ℕ → ℕ → Template
unfolding common_name
leaf_template host serial now = record {
  serial = serial;
  common_name = common_name host;
  organization = [];
  not_before = now - backdate;
  not_after = now + leaf_validity;
  usage = digital_signature ∷ server_auth ∷ [];
  is_ca = false;
  dns_names = host ∷ [];
  permitted = [];
}

abbrev pub valid_host : Str → Str → Result (Unit {0})
valid_host host domain = elim (validate_host host domain) [
  | none ↦ ok tt
  | some e ↦ err (bad_host e)
]

module _ (C : Crypto) (join : Str → Str → Str) where
  -- leafPaths: the certificate's, and the key's.
  unfoldable pub leaf_paths : Place → Str → Result (Str × Str)
  leaf_paths place host = do
    _ ← valid_host host place.domain
    ok (join place.certs_dir (host ++ text ".crt"), join place.certs_dir (host ++ text ".key"))

  -- loadLeaf
  unfoldable pub load_leaf : Faults → Ca C → Disk → Str → Result (Pair C)
  load_leaf faults ca d host = do
    (cert_at, key_at) ← leaf_paths ca.place host
    cert_pem ← read_file faults d cert_at
    key_pem ← read_file faults d key_at
    (der, key) ← or_fail bad_pem (C.key_pair cert_pem key_pem)
    leaf ← or_fail not_parsed (C.parse der)
    ok (record { chain = der ∷ C.raw ca.root.cert ∷ []; key = key; leaf = some leaf })

  pub record Issued : Type 0 where
    pub pair : Pair C
    pub key_pem : Str
    pub cert_pem : Str
    pub cert_at : Str
    pub key_at : Str

  -- issueLeaf up to the writing of the files.
  unfoldable pub issue : Ca C → Str → ℕ → Draw C → Result Issued
  issue ca host now draw = do
    _ ← valid_host host ca.place.domain
    key ← or_fail no_key draw.new_key
    serial ← new_serial draw.number
    der ←
        or_fail not_created
          (C.create (leaf_template host serial now) (some ca.root.cert) key ca.root.key)
    leaf ← or_fail not_parsed (C.parse der)
    key_pem ← encode_key C join key
    (cert_at, key_at) ← leaf_paths ca.place host
    ok (record {
      pair = record { chain = der ∷ C.raw ca.root.cert ∷ []; key = key; leaf = some leaf };
      key_pem = key_pem;
      cert_pem = encode_cert C join der;
      cert_at = cert_at;
      key_at = key_at;
    })

  abbrev stored : Pair C → Option WriteStep × Disk → Result (Pair C) × Disk
  stored pair (none, d) = (ok pair, d)
  stored pair (some s, d) = (err (not_saved s), d)

  abbrev store_issued : Faults → Disk → Result Issued → Result (Pair C) × Disk
  store_issued faults d (err e) = (err e, d)
  store_issued faults d (ok i) =
      stored i.pair (save_pair faults i.key_at i.key_pem i.cert_at i.cert_pem d)

  -- issueLeaf
  unfoldable pub issue_leaf : Faults → Ca C → Str → ℕ → Draw C → Disk → Result (Pair C) × Disk
  issue_leaf faults ca host now draw d = store_issued faults d (issue ca host now draw)

  -- A result, the CA after it, and the disk.
  abbrev pub Outcome : Type 0
  Outcome = Result (Pair C) × Ca C × Disk

  abbrev cached : Ca C → Str → Disk → Pair C → Outcome
  cached ca host d pair = (ok pair, record ca { cache = remember C host pair ca.cache }, d)

  abbrev after_issue : Ca C → Str → Result (Pair C) × Disk → Outcome
  after_issue ca host (ok pair, d) = cached ca host d pair
  after_issue ca host (err e, d) = (err e, ca, d)

  abbrev good : Ca C → Str → ℕ → Option (Pair C) → Option (Pair C)
  good ca host now none = none
  good ca host now (some p) = if usable C ca.root.cert p.leaf host now then some p else none

  abbrev of_result : Result (Pair C) → Option (Pair C)
  of_result (ok p) = some p
  of_result (err e) = none

  -- CertificateFor
  unfoldable pub certificate_for : Faults → Ca C → Str → ℕ → Draw C → Disk → Outcome
  certificate_for faults ca host now draw d = elim (validate_host host ca.place.domain) [
    | some e ↦ (err (bad_host e), ca, d)
    | none ↦ elim (good ca host now (ca.cache host)) [
      | some p ↦ (ok p, ca, d)
      | none ↦ elim (good ca host now (of_result (load_leaf faults ca d host))) [
        | some p ↦ cached ca host d p
        | none ↦ after_issue ca host (issue_leaf faults ca host now draw d)
      ]
    ]
  ]
