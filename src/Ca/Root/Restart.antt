-- ===== src/Ca/Root/Restart.antt =====
-- The root CA outlives a restart.
use localapp.Base.{
  ℕ, ◌≡◌, ◌≢◌, refl, ap, subst, inl, inr, false, Bool-cases, none, Option-cases, [], ◌∷◌,
}
use localapp.Text.{Str}
use localapp.Text.Order.{str_eq_refl}
use localapp.Ca.Disk.{Disk}
use localapp.Ca.Crypto.{Crypto, IsLawful}
use localapp.Ca.{validate_domain}
use localapp.Ca.Root.{
  loaded, is_not_exist, no_directories, Result, ok, err, Faults, Draw, Root, Place, cert_path,
  key_path, load_root, covers, check_covers, load_or_create,
}
use localapp.Ca.Root.Making.{Result-cases}
use localapp.Ca.Root.Stored.{IsStored, IsReadable, IsStored-load, load-IsStored, create_root-stores}

module _ (C : Crypto) (join : Str → Str → Str) where
  covers_self :
      (root : Root C) (domain : Str)
      → C.permitted root.cert ≡ domain ∷ []
      → check_covers C join root domain ≡ ok tt
  unfolding check_covers covers
  covers_self root domain h = rw (h, covers) (rw (str_eq_refl domain) refl)

  loaded-stores :
      (faults : Faults) (place : Place) (now : ℕ) (draw : Draw C) (d d' : Disk) (root : Root C)
      → IsLawful C
      → d.temp ≡ none
      → key_path C join place.ca_dir ≢ cert_path C join place.ca_dir
      → (r : Result (Root C)) → load_root C join faults d place.ca_dir ≡ r
      → loaded C join faults place now draw d r ≡ (ok root, d')
      → IsStored C join place.ca_dir root d' × (check_covers C join root place.domain ≡ ok tt)
  loaded-stores faults place now draw d d' root law idle apart (ok old) l h =
      elim (Result-cases (check_covers C join old place.domain)) [
        | inr (e, c) ↦ cc (rw c at h)
        | inl (u, c) ↦
            let e : old ≡ root = cc (rw c at h) in
            let f : d ≡ d' = ap (λ (p : Result (Root C) × Disk). p.1) (rw c at h) in
            subst
              (λ r.
                IsStored C join place.ca_dir r d' × (check_covers C join r place.domain ≡ ok tt))
              e
              (
                subst (IsStored C join place.ca_dir old) f
                    (load-IsStored C join place.ca_dir old d faults l),
                c,
              )
      ]
  loaded-stores faults place now draw d d' root law idle apart (err e) l h =
      elim (Bool-cases (is_not_exist e)) [
        | inr n ↦ cc (rw n at h)
        | inl n ↦
            let (stored, permits) =
              create_root-stores C join faults place now draw d d' root law idle apart
                (rw n at h) in
            (stored, covers_self root place.domain permits)
      ]

  -- What a start that succeeds has checked, and what it leaves on the disk.
  record IsStarted (place : Place) (root : Root C) (d' : Disk) : Type 0 where
    domain_valid : validate_domain place.domain ≡ none
    directories : no_directories place ≡ false
    stored : IsStored C join place.ca_dir root d'
    covered : check_covers C join root place.domain ≡ ok tt

  start-IsStarted :
      (faults : Faults) (place : Place) (now : ℕ) (draw : Draw C) (d d' : Disk) (root : Root C)
      → IsLawful C
      → d.temp ≡ none
      → key_path C join place.ca_dir ≢ cert_path C join place.ca_dir
      → load_or_create C join faults place now draw d ≡ (ok root, d')
      → IsStarted place root d'
  unfolding load_or_create
  start-IsStarted faults place now draw d d' root law idle apart h =
      elim (Option-cases (validate_domain place.domain)) [
        | inr (e, v) ↦ cc (rw (v, load_or_create) at h)
        | inl v ↦ elim (Bool-cases (no_directories place)) [
          | inl n ↦ cc (rw (v, load_or_create, n) at h)
          | inr n ↦ elim (Bool-cases (faults.mkdir_fails place.ca_dir)) [
            | inl a ↦ cc (rw (v, load_or_create, n, a) at h)
            | inr a ↦ elim (Bool-cases (faults.mkdir_fails place.certs_dir)) [
              | inl b ↦ cc (rw (v, load_or_create, n, a, b) at h)
              | inr b ↦
                  let (stored, covered) =
                    loaded-stores faults place now draw d d' root law idle apart
                      (load_root C join faults d place.ca_dir) refl
                      (rw (v, load_or_create, n, a, b) at h) in
                  record { domain_valid = v; directories = n; stored = stored; covered = covered }
            ]
          ]
        ]
      ]

  -- What a start needs to find the root again.
  pub record IsReady (place : Place) (faults : Faults) : Type 0 where
    pub ca_dir : faults.mkdir_fails place.ca_dir ≡ false
    pub certs_dir : faults.mkdir_fails place.certs_dir ≡ false
    pub readable : IsReadable C join place.ca_dir faults

  IsStarted-load :
      (faults : Faults) (place : Place) (now : ℕ) (draw : Draw C) (d : Disk) (root : Root C)
      → IsStarted place root d
      → IsReady place faults
      → load_or_create C join faults place now draw d ≡ (ok root, d)
  unfolding load_or_create
  IsStarted-load faults place now draw d root s r =
      rw (s.domain_valid, load_or_create)
        (rw
          (
            s.directories,
            r.ca_dir,
            r.certs_dir,
            IsStored-load C join place.ca_dir root d faults s.stored r.readable,
            s.covered,
          )
          refl)

  -- Where the cryptography does what its documentation says, the two file names differ, and no
  -- temporary file is there: after a LoadOrCreate that succeeded, whatever it found on the disk,
  -- another one that can read the files and make the directories returns the same root, whatever
  -- the time and the random numbers, and leaves the disk as it is.
  pub load_or_create-again :
      (faults later : Faults) (place : Place) (now then_now : ℕ) (draw then_draw : Draw C)
      (d d' : Disk) (root : Root C)
      → IsLawful C
      → d.temp ≡ none
      → key_path C join place.ca_dir ≢ cert_path C join place.ca_dir
      → load_or_create C join faults place now draw d ≡ (ok root, d')
      → IsReady place later
      → load_or_create C join later place then_now then_draw d' ≡ (ok root, d')
  load_or_create-again faults later place now then_now draw then_draw d d' root law idle apart h r =
      IsStarted-load later place then_now then_draw d' root
        (start-IsStarted faults place now draw d d' root law idle apart h) r
