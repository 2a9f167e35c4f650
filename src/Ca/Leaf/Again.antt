-- ===== src/Ca/Leaf/Again.antt =====
-- A certificate that was issued is found on the disk after a restart.
use localapp.Base.{
  ℕ, ◌≡◌, ◌≢◌, refl, sym, ap, ◌∙◌, inl, inr, true, false, Option, none, some, Option-cases, ◌++◌,
  arith,
}
use localapp.Text.{Str, text}
use localapp.Ca.{validate_host}
use localapp.Ca.Disk.{Disk, WriteStep}
use localapp.Ca.Crypto.{Crypto, IsLawful}
use localapp.Ca.Root.{Result, ok, Faults, Draw, Root, Place, encode_cert, encode_key}
use localapp.Ca.Root.Making.{Result-cases}
use localapp.Ca.Root.Stored.{save_pair-ok, read_there}
use localapp.Ca.Leaf.Issue.{IsMade, issue-IsMade}
use localapp.Ca.Leaf.{
  Pair, Ca, usable, leaf_template, valid_host, leaf_paths, load_leaf, Issued, issue, stored,
  issue_leaf, remember, certificate_for,
}

module _ (C : Crypto) (join : Str → Str → Str) where
  encode_key-eq :
      (key : C.Key) (pem : Str)
      → encode_key C join key ≡ ok pem
      → (bytes : Str) × (C.marshal key ≡ some bytes)
        × (pem ≡ C.pem_encode (text "PRIVATE KEY") bytes)
  unfolding encode_key
  encode_key-eq key pem h = elim (Option-cases (C.marshal key)) [
    | inl e ↦ cc (rw (e, encode_key) at h)
    | inr (bytes, e) ↦ (bytes, e, sym (cc (rw (e, encode_key) at h)))
  ]

  -- The two texts are a pair.
  IsMade-pairs :
      (ca : Ca C) (host : Str) (now : ℕ) (i : Issued C join) (law : IsLawful C)
      → (m : IsMade C join ca host now i) → C.key_pair i.cert_pem i.key_pem ≡ some (m.der, m.key)
  unfolding encode_cert
  IsMade-pairs ca host now i law m =
      let is =
        law.creates (leaf_template host m.serial now) (some ca.root.cert) m.key ca.root.key m.der
          m.created in
      let same : is.cert ≡ m.leaf = cc (is.parsed, m.parsed) in
      let (bytes, marshalled, e) = encode_key-eq m.key i.key_pem m.encoded in
      let owned : C.matches m.leaf m.key ≡ true = rw (← same) is.owned in
      law.pairs i.key_pem i.cert_pem m.der bytes m.leaf m.key
        (ap C.pem_decode m.cert_text ∙ law.decodes (text "CERTIFICATE") m.der) m.parsed
        (ap C.pem_decode e ∙ law.decodes (text "PRIVATE KEY") bytes)
        (law.parses_key m.key bytes marshalled) owned

  stored-eq :
      (pair p : Pair C) (r : Option WriteStep × Disk) (d' : Disk)
      → stored C join pair r ≡ (ok p, d')
      → (pair ≡ p) × (r ≡ (none, d'))
  stored-eq pair p (none, d) d' h = (cc h, ap (λ (q : Result (Pair C) × Disk). (none, q.1)) h)
  stored-eq pair p (some s, d) d' h = cc

  -- Nothing stands in the way of reading the two files of the host, which have different paths.
  pub record IsReadable (place : Place) (host : Str) (faults : Faults) : Type 0 where
    pub apart :
        join place.certs_dir (host ++ text ".key") ≢ join place.certs_dir (host ++ text ".crt")
    pub cert : faults.unreadable_at (join place.certs_dir (host ++ text ".crt")) ≡ false
    pub key : faults.unreadable_at (join place.certs_dir (host ++ text ".key")) ≡ false

  valid_host-ok :
      (host domain : Str) (u : Unit {0})
      → valid_host host domain ≡ ok u
      → validate_host host domain ≡ none
  valid_host-ok host domain u h = ground arith

  leaf_paths-eq :
      (place : Place) (host cert_at key_at : Str)
      → leaf_paths C join place host ≡ ok (cert_at, key_at)
      → (validate_host host place.domain ≡ none)
        × (cert_at ≡ join place.certs_dir (host ++ text ".crt"))
        × (key_at ≡ join place.certs_dir (host ++ text ".key"))
  unfolding leaf_paths
  leaf_paths-eq place host cert_at key_at h = elim (Result-cases (valid_host host place.domain)) [
    | inr (e, v) ↦ cc (rw v at h)
    | inl (u, v) ↦ (valid_host-ok host place.domain u v, sym (cc (rw v at h)), sym (cc (rw v at h)))
  ]

  loads :
      (later : Faults) (ca again : Ca C) (d : Disk) (host : Str) (now : ℕ) (i : Issued C join)
      (p : Pair C)
      → IsLawful C
      → IsMade C join ca host now i
      → again.place ≡ ca.place
      → again.root ≡ ca.root
      → i.pair ≡ p
      → i.cert_at ≡ join ca.place.certs_dir (host ++ text ".crt")
      → i.key_at ≡ join ca.place.certs_dir (host ++ text ".key")
      → d.files (join ca.place.certs_dir (host ++ text ".crt")) ≡ some i.cert_pem
      → d.files (join ca.place.certs_dir (host ++ text ".key")) ≡ some i.key_pem
      → IsReadable ca.place host later
      → load_leaf C join later again d host ≡ ok p
  unfolding load_leaf
  loads later ca again d host now i p law m place root same cert_at key_at cert_there key_there r =
      let at_paths : leaf_paths C join ca.place host
          ≡ ok (
            join ca.place.certs_dir (host ++ text ".crt"),
            join ca.place.certs_dir (host ++ text ".key"),
          ) =
        m.paths ∙ (λ j. ok (cert_at j, key_at j)) in
      rw
        (
          place,
          root,
          at_paths,
          read_there C join later d _ cert_there r.cert,
          read_there C join later d _ key_there r.key,
          IsMade-pairs ca host now i law m,
          m.parsed,
        )
        (ap (λ x. ok x) (sym m.whole ∙ same))

  issue_leaf-load :
      (faults later : Faults) (ca again : Ca C) (host : Str) (now : ℕ) (draw : Draw C) (d d' : Disk)
      (p : Pair C)
      → IsLawful C
      → d.temp ≡ none
      → again.place ≡ ca.place
      → again.root ≡ ca.root
      → IsReadable ca.place host later
      → issue_leaf C join faults ca host now draw d ≡ (ok p, d')
      → load_leaf C join later again d' host ≡ ok p
  unfolding issue_leaf load_leaf
  issue_leaf-load faults later ca again host now draw d d' p law idle place root r h =
      elim (Result-cases (issue C join ca host now draw)) [
        | inr (e, a) ↦ cc (rw a at h)
        | inl (i, a) ↦
            let m = issue-IsMade C join ca host now draw i a in
            let (same, e) = stored-eq i.pair p _ d' (rw a at h) in
            let (valid, cert_at, key_at) = leaf_paths-eq ca.place host i.cert_at i.key_at m.paths in
            let (key_there, cert_there) =
              save_pair-ok C join faults i.key_at i.key_pem i.cert_at i.cert_pem d d' idle
                (λ x. r.apart (sym key_at ∙ x ∙ cert_at)) e in
            loads later ca again d' host now i p law m place root same cert_at key_at
              (ap d'.files (sym cert_at) ∙ cert_there) (ap d'.files (sym key_at) ∙ key_there) r
      ]

  issue_leaf-valid :
      (faults : Faults) (ca : Ca C) (host : Str) (now : ℕ) (draw : Draw C) (d d' : Disk)
      (p : Pair C)
      → issue_leaf C join faults ca host now draw d ≡ (ok p, d')
      → validate_host host ca.place.domain ≡ none
  unfolding issue_leaf
  issue_leaf-valid faults ca host now draw d d' p h =
      elim (Result-cases (issue C join ca host now draw)) [
        | inr (e, a) ↦ cc (rw a at h)
        | inl (i, a) ↦
            (leaf_paths-eq ca.place host i.cert_at i.key_at
              (issue-IsMade C join ca host now draw i a).paths).0
      ]

  -- Where the cryptography does what its documentation says and no temporary file is there: once a
  -- certificate was issued and saved, a CA with the same root and directories that has none in
  -- memory for the host and can read its two files, of different names, returns that one, if it is
  -- still usable, instead of issuing another, and leaves the disk as it is.
  pub certificate_for-restart :
      (faults later : Faults) (ca again : Ca C) (host : Str) (now then_now : ℕ)
      (draw then_draw : Draw C) (d d' : Disk) (p : Pair C)
      → IsLawful C
      → d.temp ≡ none
      → issue_leaf C join faults ca host now draw d ≡ (ok p, d')
      → again.place ≡ ca.place
      → again.root ≡ ca.root
      → again.cache host ≡ none
      → IsReadable ca.place host later
      → usable C ca.root.cert p.leaf host then_now ≡ true
      → certificate_for C join later again host then_now then_draw d'
        ≡ (ok p, record again { cache = remember C host p again.cache }, d')
  unfolding certificate_for
  certificate_for-restart faults later ca again host now then_now draw then_draw d d' p law idle h
        place root empty r ok_then =
      let found =
        issue_leaf-load faults later ca again host now draw d d' p law idle place root r h in
      let valid : validate_host host again.place.domain ≡ none =
        ap (λ (x : Place). validate_host host x.domain) place
        ∙ issue_leaf-valid faults ca host now draw d d' p h in
      let use_it : usable C again.root.cert p.leaf host then_now ≡ true =
        ap (λ (x : Root C). usable C x.cert p.leaf host then_now) root ∙ ok_then in
      rw (valid, certificate_for) (rw (empty, found, use_it) refl)
