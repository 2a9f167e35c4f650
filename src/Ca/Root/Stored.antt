-- ===== src/Ca/Root/Stored.antt =====
-- The files of the root on the disk.
use localapp.Base.{
  ℕ, ◌≡◌, ◌≢◌, refl, ap, subst, ◌∙◌, inl, inr, true, false, Bool-cases, Option, none, some, [], ◌∷◌,
  arith,
}
use localapp.Text.{Str}
use localapp.Ca.Disk.{Disk, WriteStep, put_file}
use localapp.Ca.Disk.Laws.{put_file-same, put_file-other, write_file_cases}
use localapp.Ca.Crypto.{Crypto, IsLawful}
use localapp.Ca.Root.{
  saved, create_made, Result, ok, Faults, Draw, Root, Place, Made, read_file, cert_path, key_path,
  decode_cert, decode_key, load_root, make_root, save_pair, create_root,
}
use localapp.Ca.Root.Making.{Result-cases, IsMade, make_root-IsMade}

module _ (C : Crypto) (join : Str → Str → Str) where
  -- The files that hold a root.
  pub record IsStored (ca_dir : Str) (root : Root C) (d : Disk) : Type 0 where
    pub cert_pem : Str
    pub key_pem : Str
    pub cert_there : d.files (cert_path C join ca_dir) ≡ some cert_pem
    pub key_there : d.files (key_path C join ca_dir) ≡ some key_pem
    pub cert_read : decode_cert C join cert_pem ≡ ok root.cert
    pub key_read : decode_key C join key_pem ≡ ok root.key
    pub matched : C.matches root.cert root.key ≡ true
    pub authority : C.is_ca root.cert ≡ true

  -- Nothing stands in the way of reading the files of the root.
  pub record IsReadable (ca_dir : Str) (faults : Faults) : Type 0 where
    pub cert : faults.unreadable_at (cert_path C join ca_dir) ≡ false
    pub key : faults.unreadable_at (key_path C join ca_dir) ≡ false

  pub read_there :
      (faults : Faults) (d : Disk) (path : Str) {bytes : Str}
      → d.files path ≡ some bytes
      → faults.unreadable_at path ≡ false
      → read_file faults d path ≡ ok bytes
  unfolding read_file
  read_there faults d path h k = rw (h, read_file) (rw k refl)

  pub IsStored-load :
      (ca_dir : Str) (root : Root C) (d : Disk) (faults : Faults)
      → IsStored ca_dir root d
      → IsReadable ca_dir faults
      → load_root C join faults d ca_dir ≡ ok root
  unfolding load_root
  IsStored-load ca_dir root d faults s r =
      rw
        (
          read_there faults d (cert_path C join ca_dir) s.cert_there r.cert,
          read_there faults d (key_path C join ca_dir) s.key_there r.key,
          s.cert_read,
          s.key_read,
          s.matched,
          s.authority,
        )
        refl

  read_file-ok :
      (faults : Faults) (d : Disk) (path bytes : Str)
      → read_file faults d path ≡ ok bytes
      → d.files path ≡ some bytes
  unfolding read_file
  read_file-ok faults d path bytes h = ground arith

  pub load-IsStored :
      (ca_dir : Str) (root : Root C) (d : Disk) (faults : Faults)
      → load_root C join faults d ca_dir ≡ ok root
      → IsStored ca_dir root d
  unfolding load_root
  load-IsStored ca_dir root d faults h =
      elim (Result-cases (read_file faults d (cert_path C join ca_dir))) [
        | inr (e, a) ↦ cc (rw a at h)
        | inl (cert_pem, a) ↦ elim (Result-cases (read_file faults d (key_path C join ca_dir))) [
          | inr (e, b) ↦ cc (rw (a, b) at h)
          | inl (key_pem, b) ↦ elim (Result-cases (decode_cert C join cert_pem)) [
            | inr (e, c) ↦ cc (rw (a, b, c) at h)
            | inl (cert, c) ↦ elim (Result-cases (decode_key C join key_pem)) [
              | inr (e, k) ↦ cc (rw (a, b, c, k) at h)
              | inl (key, k) ↦ elim (Bool-cases (C.matches cert key)) [
                | inr m ↦ cc (rw (a, b, c, k, m) at h)
                | inl m ↦ elim (Bool-cases (C.is_ca cert)) [
                  | inr n ↦ cc (rw (a, b, c, k, m, n) at h)
                  | inl n ↦
                      subst (λ r. IsStored ca_dir r d) (cc (rw (a, b, c, k, m, n) at h))
                        (record {
                          cert_pem = cert_pem;
                          key_pem = key_pem;
                          cert_there = read_file-ok faults d (cert_path C join ca_dir) cert_pem a;
                          key_there = read_file-ok faults d (key_path C join ca_dir) key_pem b;
                          cert_read = c;
                          key_read = k;
                          matched = m;
                          authority = n;
                        })
                ]
              ]
            ]
          ]
        ]
      ]

  pub save_pair-ok :
      (faults : Faults) (key_at key_pem cert_at cert_pem : Str) (d d' : Disk)
      → d.temp ≡ none
      → key_at ≢ cert_at
      → save_pair faults key_at key_pem cert_at cert_pem d ≡ (none, d')
      → (d'.files key_at ≡ some key_pem) × (d'.files cert_at ≡ some cert_pem)
  unfolding save_pair
  save_pair-ok faults key_at key_pem cert_at cert_pem d d' idle apart h =
      elim (write_file_cases (faults.write_fails key_at) key_at key_pem d idle) [
        | inr (s, f, e) ↦ cc (rw e at h)
        | inl (f, e) ↦
            let d1 : Disk = record { files = put_file d.files key_at key_pem; temp = none } in
            elim (write_file_cases (faults.write_fails cert_at) cert_at cert_pem d1 refl) [
              | inr (s, g, k) ↦ cc (rw (e, k) at h)
              | inl (g, k) ↦
                  subst
                    (λ (x : Disk).
                      (x.files key_at ≡ some key_pem) × (x.files cert_at ≡ some cert_pem))
                    (ap (λ p. p.1) (rw (e, k) at h))
                    (
                      put_file-other d1.files cert_at cert_pem key_at apart
                          ∙ put_file-same d.files key_at key_pem,
                      put_file-same d1.files cert_at cert_pem,
                    )
            ]
      ]

  saved-ok :
      (made root : Root C) (r : Option WriteStep × Disk) (d' : Disk)
      → saved C join made r ≡ (ok root, d')
      → (r ≡ (none, d')) × (made ≡ root)
  saved-ok made root (none, d) d' h = (ap (λ (p : Result (Root C) × Disk). (none, p.1)) h, cc h)
  saved-ok made root (some s, d) d' h = cc

  made-stores :
      (domain ca_dir : Str) (faults : Faults) (d d' : Disk) (m : Made C join) (root : Root C)
      → IsMade C join domain m
      → d.temp ≡ none
      → key_path C join ca_dir ≢ cert_path C join ca_dir
      → create_made C join faults ca_dir d (ok m) ≡ (ok root, d')
      → IsStored ca_dir root d' × (C.permitted root.cert ≡ domain ∷ [])
  made-stores domain ca_dir faults d d' m root is idle apart h =
      let (e, same) = saved-ok m.root root _ d' h in
      let (key_there, cert_there) =
        save_pair-ok faults (key_path C join ca_dir) m.key_pem (cert_path C join ca_dir) m.cert_pem
          d d' idle apart e in
      subst (λ r. IsStored ca_dir r d' × (C.permitted r.cert ≡ domain ∷ [])) same
        (
          record {
            cert_pem = m.cert_pem;
            key_pem = m.key_pem;
            cert_there = cert_there;
            key_there = key_there;
            cert_read = is.cert_read;
            key_read = is.key_read;
            matched = is.matched;
            authority = is.authority;
          },
          is.permits,
        )

  pub create_root-stores :
      (faults : Faults) (place : Place) (now : ℕ) (draw : Draw C) (d d' : Disk) (root : Root C)
      → IsLawful C
      → d.temp ≡ none
      → key_path C join place.ca_dir ≢ cert_path C join place.ca_dir
      → create_root C join faults place now draw d ≡ (ok root, d')
      → IsStored place.ca_dir root d' × (C.permitted root.cert ≡ place.domain ∷ [])
  unfolding create_root
  create_root-stores faults place now draw d d' root law idle apart h =
      elim (Result-cases (make_root C join place.domain now draw)) [
        | inr (e, a) ↦ cc (rw a at h)
        | inl (m, a) ↦
            made-stores place.domain place.ca_dir faults d d' m root
              (make_root-IsMade C join place.domain now draw m law a) idle apart (rw a at h)
      ]
