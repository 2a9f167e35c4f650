-- ===== src/Ca/Root/Kept.antt =====
-- A root CA that is there is never replaced.
use localapp.Base.{
  ℕ, ◌≡◌, refl, inl, inr, true, false, Bool, Bool-cases, Option, none, some, Option-cases,
}
use localapp.Text.{Str, text, str_eq}
use localapp.Ca.{validate_domain}
use localapp.Ca.Disk.{Disk}
use localapp.Ca.Crypto.{Crypto}
use localapp.Ca.Root.{
  CaError, is_not_exist, Result, ok, err, ◌>>=◌, or_fail, check, Faults, Draw, Root, Place,
  read_file, cert_path, key_path, decode_cert, decode_key, load_root, no_directories, loaded,
  load_or_create,
}

-- The error of a step is another one than that of a missing file.
IsPresent {ℓ} : {A : Type ℓ} → Result A → Type 0
IsPresent (ok a) = Unit {0}
IsPresent (err e) = is_not_exist e ≡ false

>>=-IsPresent {ℓ κ} :
    {A : Type ℓ} {B : Type κ} (m : Result A) (f : A → Result B)
    → IsPresent m
    → ((a : A) → IsPresent (f a))
    → IsPresent (m >>= f)
unfolding IsPresent
>>=-IsPresent (ok a) f h k = k a
>>=-IsPresent (err e) f h k = h

check-IsPresent : (b : Bool) (e : CaError) → is_not_exist e ≡ false → IsPresent (check b e)
unfolding IsPresent
check-IsPresent true e h = tt
check-IsPresent false e h = h

or_fail-IsPresent {ℓ} :
    {A : Type ℓ} (e : CaError) (o : Option A) → is_not_exist e ≡ false → IsPresent (or_fail e o)
unfolding IsPresent
or_fail-IsPresent e none h = h
or_fail-IsPresent e (some a) h = tt

module _ (C : Crypto) (join : Str → Str → Str) where
  read_file-IsPresent :
      (faults : Faults) (d : Disk) (path bytes : Str)
      → d.files path ≡ some bytes
      → IsPresent (read_file faults d path)
  unfolding read_file IsPresent
  read_file-IsPresent faults d path bytes h = elim (Bool-cases (faults.unreadable_at path)) [
    | inl e ↦ rw (h, read_file) (rw e refl)
    | inr e ↦ rw (h, read_file) (rw e tt)
  ]

  decode_cert-IsPresent : (bytes : Str) → IsPresent (decode_cert C join bytes)
  unfolding decode_cert IsPresent
  decode_cert-IsPresent bytes = elim (Option-cases (C.pem_decode bytes)) [
    | inl e ↦ rw (e, decode_cert) refl
    | inr ((kind, der), e) ↦ elim (Bool-cases (str_eq kind (text "CERTIFICATE"))) [
      | inl k ↦ rw (e, decode_cert) (rw k (or_fail-IsPresent _ (C.parse der) refl))
      | inr k ↦ rw (e, decode_cert) (rw k refl)
    ]
  ]

  decode_key-IsPresent : (bytes : Str) → IsPresent (decode_key C join bytes)
  unfolding decode_key IsPresent
  decode_key-IsPresent bytes = elim (Option-cases (C.pem_decode bytes)) [
    | inl e ↦ rw (e, decode_key) refl
    | inr ((kind, der), e) ↦ elim (Bool-cases (str_eq kind (text "PRIVATE KEY"))) [
      | inl k ↦ rw (e, decode_key) (rw k (or_fail-IsPresent _ (C.parse_key der) refl))
      | inr k ↦ rw (e, decode_key) (rw k refl)
    ]
  ]

  load_root-IsPresent :
      (faults : Faults) (d : Disk) (ca_dir cert_pem key_pem : Str)
      → d.files (cert_path C join ca_dir) ≡ some cert_pem
      → d.files (key_path C join ca_dir) ≡ some key_pem
      → IsPresent (load_root C join faults d ca_dir)
  unfolding load_root IsPresent
  load_root-IsPresent faults d ca_dir cert_pem key_pem a b =
      >>=-IsPresent _ _ (read_file-IsPresent faults d (cert_path C join ca_dir) cert_pem a) λ c.
        >>=-IsPresent _ _ (read_file-IsPresent faults d (key_path C join ca_dir) key_pem b) λ k.
          >>=-IsPresent _ _ (decode_cert-IsPresent c) λ cert.
            >>=-IsPresent _ _ (decode_key-IsPresent k) λ key.
              >>=-IsPresent _ _ (check-IsPresent (C.matches cert key) _ refl)
                λ u. >>=-IsPresent _ _ (check-IsPresent (C.is_ca cert) _ refl) λ v. tt

  loaded-keeps :
      (faults : Faults) (place : Place) (now : ℕ) (draw : Draw C) (d : Disk) (r : Result (Root C))
      → IsPresent r
      → (loaded C join faults place now draw d r).1 ≡ d
  unfolding IsPresent
  loaded-keeps faults place now draw d (ok root) h = refl
  loaded-keeps faults place now draw d (err e) h = rw h refl

  -- If both files of the root CA are there, LoadOrCreate changes nothing on the disk, whatever the
  -- files contain, whatever fails and for whatever domain.
  pub load_or_create-keeps :
      (faults : Faults) (place : Place) (now : ℕ) (draw : Draw C) (d : Disk)
      (cert_pem key_pem : Str)
      → d.files (cert_path C join place.ca_dir) ≡ some cert_pem
      → d.files (key_path C join place.ca_dir) ≡ some key_pem
      → (load_or_create C join faults place now draw d).1 ≡ d
  unfolding load_or_create
  load_or_create-keeps faults place now draw d cert_pem key_pem a b =
      elim (Option-cases (validate_domain place.domain)) [
        | inr (e, v) ↦ rw (v, load_or_create) refl
        | inl v ↦
            let kept =
              loaded-keeps faults place now draw d (load_root C join faults d place.ca_dir)
                (load_root-IsPresent faults d place.ca_dir cert_pem key_pem a b) in
            elim (Bool-cases (no_directories place)) [
              | inl n ↦ rw (v, load_or_create) (rw n refl)
              | inr n ↦ elim (Bool-cases (faults.mkdir_fails place.ca_dir)) [
                | inl m ↦ rw (v, load_or_create) (rw (n, m) refl)
                | inr m ↦ elim (Bool-cases (faults.mkdir_fails place.certs_dir)) [
                  | inl o ↦ rw (v, load_or_create) (rw (n, m, o) refl)
                  | inr o ↦ rw (v, load_or_create) (rw (n, m, o) kept)
                ]
              ]
            ]
      ]
