-- ===== src/Ca/Leaf/Usable.antt =====
-- Every certificate that the CA hands out can be used.
use localapp.Base.{
  ℕ, ◌+◌, ◌-◌, ◌≡◌, ◌≢◌, refl, sym, ap, subst, ◌∙◌, inl, inr, true, false, Bool-cases, Option, none,
  some, Option-cases, arith, ltb,
}
use localapp.Text.{Str}
use localapp.Text.Order.{str_eq_refl, str_eq-eq-false}
use localapp.Ca.{validate_host}
use localapp.Ca.Disk.{Disk, WriteStep}
use localapp.Ca.Crypto.{Crypto, IsLawful}
use localapp.Ca.Root.{Result, ok, err, Faults, Draw, Root, backdate}
use localapp.Ca.Root.Making.{Result-cases}
use localapp.Ca.Leaf.Issue.{IsMade, issue-IsMade}
use localapp.Ca.Leaf.{
  renew_before, leaf_validity, Pair, Ca, usable, leaf_template, load_leaf, Issued, issue, stored,
  issue_leaf, Outcome, remember, after_issue, good, of_result, certificate_for,
}

-- The root signs.
pub record IsRoot (C : Crypto) (r : Root C) : Type 0 where
  pub matched : C.matches r.cert r.key ≡ true
  pub authority : C.is_ca r.cert ≡ true
  pub signing : C.may_sign r.cert ≡ true

module _ (C : Crypto) (join : Str → Str → Str) where
  stored-ok :
      (pair p : Pair C) (r : Option WriteStep × Disk) (d' : Disk)
      → stored C join pair r ≡ (ok p, d')
      → pair ≡ p
  stored-ok pair p (none, d) d' h = cc h
  stored-ok pair p (some s, d) d' h = cc

  good-usable :
      (ca : Ca C) (host : Str) (now : ℕ) (o : Option (Pair C)) (p : Pair C)
      → good C join ca host now o ≡ some p
      → (o ≡ some p) × (usable C ca.root.cert p.leaf host now ≡ true)
  good-usable ca host now none p h = cc
  good-usable ca host now (some q) p h = elim (Bool-cases (usable C ca.root.cert q.leaf host now)) [
    | inl e ↦
        let same : q ≡ p = cc (rw e at h) in
        (ap some same, subst (λ (r : Pair C). usable C ca.root.cert r.leaf host now ≡ true) same e)
    | inr e ↦ cc (rw e at h)
  ]

  issue-usable :
      (ca : Ca C) (host : Str) (now : ℕ) (i : Issued C join)
      → IsLawful C
      → IsRoot C ca.root
      → C.is_ip host ≡ false
      → IsMade C join ca host now i
      → usable C ca.root.cert i.pair.leaf host now ≡ true
  unfolding usable leaf_template
  issue-usable ca host now i law root name m =
      let is =
        law.creates (leaf_template host m.serial now) (some ca.root.cert) m.key ca.root.key m.der
          m.created in
      let same : is.cert ≡ m.leaf = cc (is.parsed, m.parsed) in
      let starts : C.not_before m.leaf ≡ now - backdate = rw (← same) is.starts in
      let ends : C.not_after m.leaf ≡ now + leaf_validity = rw (← same) is.ends in
      let named : C.verifies m.leaf host ≡ true = rw (← same) (is.named host refl name) in
      let signed : C.signed_by m.leaf ca.root.cert ≡ true =
        rw (← same) (is.signed ca.root.cert refl root.matched root.authority root.signing) in
      let early : ltb now (now - backdate) ≡ false = ground arith in
      let late : ltb (now + leaf_validity) (now + renew_before) ≡ false = ground arith in
      let usable_one : usable C ca.root.cert (some m.leaf) host now ≡ true =
        rw (starts, ends, early, late, named) signed in
      subst (λ (q : Pair C). usable C ca.root.cert q.leaf host now ≡ true) (sym m.whole) usable_one

  issue_leaf-usable :
      (faults : Faults) (ca : Ca C) (host : Str) (now : ℕ) (draw : Draw C) (d d' : Disk)
      (p : Pair C)
      → IsLawful C
      → IsRoot C ca.root
      → C.is_ip host ≡ false
      → issue_leaf C join faults ca host now draw d ≡ (ok p, d')
      → usable C ca.root.cert p.leaf host now ≡ true
  unfolding issue_leaf
  issue_leaf-usable faults ca host now draw d d' p law root name h =
      elim (Result-cases (issue C join ca host now draw)) [
        | inr (e, a) ↦ cc (rw a at h)
        | inl (i, a) ↦
            subst (λ (q : Pair C). usable C ca.root.cert q.leaf host now ≡ true)
              (stored-ok i.pair p _ d' (rw a at h))
              (issue-usable ca host now i law root name (issue-IsMade C join ca host now draw i a))
      ]

  -- What CertificateFor leaves: the certificate it returned is remembered, and nothing else changed.
  pub record IsRemembered (ca ca' : Ca C) (host : Str) (p : Pair C) : Type 0 where
    pub place : ca'.place ≡ ca.place
    pub root : ca'.root ≡ ca.root
    pub here : ca'.cache host ≡ some p
    pub others : (h : Str) → h ≢ host → ca'.cache h ≡ ca.cache h

  remembered :
      (ca : Ca C) (host : Str) (p : Pair C)
      → IsRemembered ca (record ca { cache = remember C host p ca.cache }) host p
  unfolding remember
  remembered ca host p = record {
    place = refl;
    root = refl;
    here = rw (str_eq_refl host) refl;
    others = λ h ne. rw (str_eq-eq-false h host ne) refl;
  }

  after_issue-ok :
      (ca ca' : Ca C) (host : Str) (r : Result (Pair C) × Disk) (p : Pair C) (d' : Disk)
      → after_issue C join ca host r ≡ (ok p, ca', d')
      → (r ≡ (ok p, d')) × IsRemembered ca ca' host p
  after_issue-ok ca ca' host (err e, d) p d' h = cc
  after_issue-ok ca ca' host (ok q, d) p d' h =
      let same : q ≡ p = cc h in
      (
        λ i. (ok (same i), (h i).2),
        subst (λ (c : Ca C). IsRemembered ca c host p) (λ i. (h i).1)
            (subst
              (λ (x : Pair C).
                IsRemembered ca (record ca { cache = remember C host q ca.cache }) host x)
              same (remembered ca host q)),
      )

  hit-IsRemembered :
      (ca ca' : Ca C) (host : Str) (q p : Pair C) (d d' : Disk)
      → ca.cache host ≡ some q
      → ◌≡◌ {A = Outcome C join} (ok q, ca, d) (ok p, ca', d')
      → (q ≡ p) × IsRemembered ca ca' host p
  hit-IsRemembered ca ca' host q p d d' there h =
      let same : q ≡ p = cc h in
      (
        same,
        subst (λ (c : Ca C). IsRemembered ca c host p) (λ i. (h i).1)
            (record {
              place = refl;
              root = refl;
              here = there ∙ ap some same;
              others = λ k ne. refl;
            }),
      )

  -- Where the cryptography does what its documentation says, and the root certificate is that of
  -- its key and may sign as a CA: a certificate that CertificateFor returns for a host that is no
  -- IP address is one for a host that the CA accepts, is usable now (valid for at least 30 more
  -- days, for this host, signed by the root), and is the one that the memory then holds for the
  -- host, with nothing else changed in the CA.
  pub certificate_for-IsUsable :
      (faults : Faults) (ca ca' : Ca C) (host : Str) (now : ℕ) (draw : Draw C) (d d' : Disk)
      (p : Pair C)
      → IsLawful C
      → IsRoot C ca.root
      → C.is_ip host ≡ false
      → certificate_for C join faults ca host now draw d ≡ (ok p, ca', d')
      → (validate_host host ca.place.domain ≡ none)
        × (usable C ca.root.cert p.leaf host now ≡ true)
        × IsRemembered ca ca' host p
  unfolding certificate_for
  certificate_for-IsUsable faults ca ca' host now draw d d' p law root name h =
      elim (Option-cases (validate_host host ca.place.domain)) [
        | inr (e, a) ↦ cc (rw (a, certificate_for) at h)
        | inl a ↦ elim (Option-cases (good C join ca host now (ca.cache host))) [
          | inr (q, b) ↦
              let (there, use_it) = good-usable ca host now (ca.cache host) q b in
              let (same, kept) =
                hit-IsRemembered ca ca' host q p d d' there (rw (a, certificate_for, b) at h) in
              (
                a,
                subst (λ (x : Pair C). usable C ca.root.cert x.leaf host now ≡ true) same use_it,
                kept,
              )
          | inl b ↦
              elim (Option-cases
                (good C join ca host now (of_result C join (load_leaf C join faults ca d host)))) [
                  | inr (q, c) ↦
                      let (there, use_it) = good-usable ca host now _ q c in
                      let (same, kept) =
                        after_issue-ok ca ca' host (ok q, d) p d'
                          (rw (a, certificate_for, b, c) at h) in
                      let eq : q ≡ p = cc same in
                      (
                        a,
                        subst (λ (x : Pair C). usable C ca.root.cert x.leaf host now ≡ true) eq
                            use_it,
                        kept,
                      )
                  | inl c ↦
                      let (e, kept) =
                        after_issue-ok ca ca' host _ p d' (rw (a, certificate_for, b, c) at h) in
                      (a, issue_leaf-usable faults ca host now draw d d' p law root name e, kept)
                ]
        ]
      ]
