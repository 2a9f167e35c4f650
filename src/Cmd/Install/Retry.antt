-- ===== src/Cmd/Install/Retry.antt =====
-- uninstall removes what install created, whatever failed before.
use localapp.Base.{
  ◌≡◌, refl, sym, ap, subst, ◌∙◌, inl, inr, true, false, Bool, Bool-cases, ◌||◌, ◌&&◌, not, Option,
  none, Option-cases, if◌then◌else◌, ℤ,
}
use localapp.Text.{Str, str_eq}
use localapp.Text.Order.{str_eq_refl}
use localapp.Domain.{validate}
use localapp.Cmd.Install.{
  Action, uninstall_service, uninstall_resolver, uninstall_trust, remove_state_dir, Report, ran,
  install, reserved_domain, in_order, install_actions, domain_or, uninstall, read_domain, Machine,
  set_resolver, act, perform,
}
use localapp.Cmd.Install.Records.{read_domain-record}
use localapp.Cmd.Install.Trust.{IsTrustKept, install-IsTrustKept}
use localapp.Cmd.Install.Tracking.{IsTracked, IsBare, IsBare-IsTracked, once, install-IsTracked}

pub record IsClean (m : Machine) : Type 0 where
  pub service : m.service ≡ false
  pub resolver : (d : Str) → m.resolver d ≡ false
  pub trust : m.trust ≡ false
  pub state_dir : m.state_dir ≡ false
  pub recorded : m.recorded ≡ none

abbrev domain_of : (Str → Str) → Str → Machine → Str
domain_of unicode configured m = domain_or configured (read_domain unicode m.recorded)

-- What uninstall leaves.
abbrev pub after : (Str → Str) → (Action → Bool) → (Action → Bool) → Str → Machine → Machine
after unicode fails happens configured m =
    perform happens (uninstall unicode fails configured m.recorded).tried m

false-ne-true : ◌≡◌ {A = Bool} false true → ⊥
false-ne-true h = cc

domain_of-resolver :
    (unicode : Str → Str) (configured d : Str) (m : Machine)
    → IsTracked m
    → m.resolver d ≡ true
    → domain_of unicode configured m ≡ d
domain_of-resolver unicode configured d m t h =
    let (known, valid) = t d h in
    ap (λ r. domain_or configured (read_domain unicode r)) known
    ∙ ap (domain_or configured) (read_domain-record unicode d valid)

abbrev at_three : Bool → Bool → Bool → Str → Machine → Machine
at_three x y z domain m =
    let m1 = if x then act uninstall_service m else m in
    let m2 = if y then act (uninstall_resolver domain) m1 else m1 in
    if z then act uninstall_trust m2 else m2

at_three_lem :
    (x y z : Bool) (domain : Str) (m : Machine)
    → ((at_three x y z domain m).recorded ≡ m.recorded)
      × ((at_three x y z domain m).resolver
          ≡ (if y then set_resolver domain false m.resolver else m.resolver))
      × ((at_three x y z domain m).root_cert ≡ m.root_cert)
      × ((at_three x y z domain m).trust ≡ (if z then m.trust && not m.root_cert else m.trust))
unfolding act
at_three_lem true true true domain m = (refl, refl, refl, refl)
at_three_lem true true false domain m = (refl, refl, refl, refl)
at_three_lem true false true domain m = (refl, refl, refl, refl)
at_three_lem true false false domain m = (refl, refl, refl, refl)
at_three_lem false true true domain m = (refl, refl, refl, refl)
at_three_lem false true false domain m = (refl, refl, refl, refl)
at_three_lem false false true domain m = (refl, refl, refl, refl)
at_three_lem false false false domain m = (refl, refl, refl, refl)

-- A resolver that stays was there before.
resolver-before :
    (y : Bool) (domain d : Str) (resolver : Str → Bool)
    → (if y then set_resolver domain false resolver else resolver) d ≡ true
    → resolver d ≡ true
resolver-before false domain d resolver h = h
resolver-before true domain d resolver h = elim (Bool-cases (str_eq d domain)) [
  | inl e ↦ cc (rw e at h)
  | inr e ↦ rw e at h
]

module _ (unicode : Str → Str) (fails happens : Action → Bool) (configured : Str) where
  -- The machine after the first three actions.
  abbrev three : Machine → Machine
  three m = once happens uninstall_trust (
      once happens (uninstall_resolver (domain_of unicode configured m))
        (once happens uninstall_service m))

  three_lem :
      (m : Machine)
      → ((three m).recorded ≡ m.recorded)
        × ((three m).resolver ≡ (
            if happens (uninstall_resolver (domain_of unicode configured m))
            then set_resolver (domain_of unicode configured m) false m.resolver
            else m.resolver))
        × ((three m).root_cert ≡ m.root_cert)
        × ((three m).trust
            ≡ (if happens uninstall_trust then m.trust && not m.root_cert else m.trust))
  three_lem m =
      at_three_lem (happens uninstall_service)
        (happens (uninstall_resolver (domain_of unicode configured m))) (happens uninstall_trust)
        (domain_of unicode configured m) m

  three-IsTracked : (m : Machine) → IsTracked m → IsTracked (three m)
  three-IsTracked m t d h =
      let (same, resolver, _, _) = three_lem m in
      let y = happens (uninstall_resolver (domain_of unicode configured m)) in
      let (known, valid) = t d (
        resolver-before y (domain_of unicode configured m) d m.resolver
          (ap (λ (r : Str → Bool). r d) (sym resolver) ∙ h)) in
      (same ∙ known, valid)

  three-IsBare :
      (m : Machine)
      → IsTracked m
      → happens (uninstall_resolver (domain_of unicode configured m)) ≡ true
      → IsBare (three m)
  three-IsBare m t e d =
      let (same, resolver, _, _) = three_lem m in
      let domain = domain_of unicode configured m in
      let here : (three m).resolver d ≡ (if str_eq d domain then false else m.resolver d) =
        ap (λ (r : Str → Bool). r d) resolver ∙ rw e refl in
      elim (Bool-cases (str_eq d domain)) [
        | inl k ↦ here ∙ rw k refl
        | inr k ↦ elim (Bool-cases (m.resolver d)) [
          | inr n ↦ here ∙ rw k n
          | inl n ↦ absurd (
              false-ne-true (
                sym k
                ∙ ap (str_eq d) (domain_of-resolver unicode configured d m t n)
                ∙ str_eq_refl d))
        ]
      ]

  after-eq :
      (m : Machine)
      → after unicode fails happens configured m ≡ (
          if fails uninstall_service
          then once happens uninstall_service m
          else if fails (uninstall_resolver (domain_of unicode configured m))
              || fails uninstall_trust
          then three m
          else once happens remove_state_dir (three m))
  unfolding uninstall perform
  after-eq m = elim (Bool-cases (fails uninstall_service)) [
    | inl a ↦ rw a refl
    | inr a ↦ elim (Bool-cases (fails (uninstall_resolver (domain_of unicode configured m)))) [
      | inl b ↦ rw (a, b) refl
      | inr b ↦ elim (Bool-cases (fails uninstall_trust)) [
        | inl c ↦ rw (a, b, c) refl
        | inr c ↦ rw (a, b, c) refl
      ]
    ]
  ]

  once-IsTracked :
      (a : Action) (m : Machine) → IsTracked (act a m) → IsTracked m → IsTracked (once happens a m)
  once-IsTracked a m h k = elim (Bool-cases (happens a)) [ inl e ↦ rw e h | inr e ↦ rw e k ]

  after-IsTracked :
      (m : Machine)
      → ((a : Action) → fails a ≡ false → happens a ≡ true)
      → IsTracked m
      → IsTracked (after unicode fails happens configured m)
  unfolding act
  after-IsTracked m complete t =
      subst IsTracked (sym (after-eq m)) (elim (Bool-cases (fails uninstall_service)) [
        | inl a ↦ rw a (once-IsTracked uninstall_service m t t)
        | inr a ↦ elim (Bool-cases (fails (uninstall_resolver (domain_of unicode configured m)))) [
          | inl b ↦ rw (a, b) (three-IsTracked m t)
          | inr b ↦ elim (Bool-cases (fails uninstall_trust)) [
            | inl c ↦ rw (a, b, c) (three-IsTracked m t)
            | inr c ↦
                let bare : IsBare (three m) = three-IsBare m t (complete _ b) in
                rw (a, b, c)
                  (once-IsTracked remove_state_dir (three m)
                    (IsBare-IsTracked (act remove_state_dir (three m)) bare) (three-IsTracked m t))
          ]
        ]
      ])

module _ (unicode : Str → Str) (fails happens : Action → Bool) (configured : Str) where
  abbrev three' : Machine → Machine
  three' m = three unicode fails happens configured m

  removes-trust : (m : Machine) → IsTrustKept m → (m.trust && not m.root_cert) ≡ false
  removes-trust m t = elim (Bool-cases m.trust) [ inr e ↦ rw e refl | inl e ↦ rw (e, t e) refl ]

  three-IsTrustKept : (m : Machine) → IsTrustKept m → IsTrustKept (three' m)
  three-IsTrustKept m t h =
      let (_, _, cert, trust) = three_lem unicode fails happens configured m in
      elim (Bool-cases (happens uninstall_trust)) [
        | inl e ↦ absurd (false-ne-true (sym (removes-trust m t) ∙ sym (trust ∙ rw e refl) ∙ h))
        | inr e ↦ cert ∙ t (sym (trust ∙ rw e refl) ∙ h)
      ]

  three-trust :
      (m : Machine) → IsTrustKept m → happens uninstall_trust ≡ true → (three' m).trust ≡ false
  three-trust m t e =
      let (_, _, _, trust) = three_lem unicode fails happens configured m in
      trust ∙ rw e (removes-trust m t)

  after-IsTrustKept :
      (m : Machine)
      → ((a : Action) → fails a ≡ false → happens a ≡ true)
      → IsTrustKept m
      → IsTrustKept (after unicode fails happens configured m)
  unfolding act
  after-IsTrustKept m complete t =
      subst IsTrustKept (sym (after-eq unicode fails happens configured m))
        (elim (Bool-cases (fails uninstall_service)) [
          | inl a ↦ rw a (once-service t)
          | inr a ↦
              elim (Bool-cases (fails (uninstall_resolver (domain_of unicode configured m)))) [
                | inl b ↦ rw (a, b) (three-IsTrustKept m t)
                | inr b ↦ elim (Bool-cases (fails uninstall_trust)) [
                  | inl c ↦ rw (a, b, c) (three-IsTrustKept m t)
                  | inr c ↦ rw (a, b, c) (removed (three-trust m t (complete uninstall_trust c)))
                ]
              ]
        ])
    where
      once-service : IsTrustKept m → IsTrustKept (once happens uninstall_service m)
      once-service k = elim (Bool-cases (happens uninstall_service)) [
        | inl e ↦ rw e k
        | inr e ↦ rw e k
      ]

      removed : (three' m).trust ≡ false → IsTrustKept (once happens remove_state_dir (three' m))
      removed k = elim (Bool-cases (happens remove_state_dir)) [
        | inl e ↦ rw e (λ h. cc (k, h))
        | inr e ↦ rw e (λ h. cc (k, h))
      ]

abbrev pub nothing_fails : Action → Bool
nothing_fails a = false

abbrev pub all_happen : Action → Bool
all_happen a = true

after-IsClean :
    (unicode : Str → Str) (configured : Str) (m : Machine)
    → IsTracked m
    → IsTrustKept m
    → IsClean (after unicode nothing_fails all_happen configured m)
unfolding act
after-IsClean unicode configured m t k =
    subst IsClean (sym (after-eq unicode nothing_fails all_happen configured m)) (record {
      service = refl;
      resolver = three-IsBare unicode nothing_fails all_happen configured m t refl;
      trust = three-trust unicode nothing_fails all_happen configured m k refl;
      state_dir = refl;
      recorded = refl;
    })

ran-valid :
    (fails : Action → Bool) (owner : Option (ℤ × ℤ)) (domain : Str) (r : Report)
    → install true fails owner domain ≡ ran r
    → (validate domain ≡ none) × (in_order fails (install_actions owner domain) ≡ r)
unfolding install
ran-valid fails owner domain r h = elim (Option-cases (validate domain)) [
  | inr (e, v) ↦ cc (rw (v, install) at h)
  | inl v ↦ elim (Bool-cases (reserved_domain domain)) [
    | inl b ↦ cc (rw b at (rw (v, install) at h))
    | inr b ↦ (v, cc (rw b at (rw (v, install) at h)))
  ]
]

-- However an install of a domain ended, on a machine without a resolver file and without trust, and
-- however an uninstall after it failed: one more uninstall in which nothing fails leaves no
-- service, no resolver file of any domain, no trust, no state directory and no record, whatever
-- domain is configured by then.
pub uninstall-retry :
    (unicode : Str → Str) (fails fails' happens happens' : Action → Bool) (owner : Option (ℤ × ℤ))
    (domain configured configured' : Str) (r : Report) (m : Machine)
    → install true fails owner domain ≡ ran r
    → ((a : Action) → fails a ≡ false → happens a ≡ true)
    → ((a : Action) → fails' a ≡ false → happens' a ≡ true)
    → ((d : Str) → m.resolver d ≡ false)
    → m.trust ≡ false
    → IsClean (
        after unicode nothing_fails all_happen configured'
          (after unicode fails' happens' configured (perform happens r.tried m)))
uninstall-retry unicode fails fails' happens happens' owner domain configured configured' r m h
      complete complete' bare untrusted =
    let (valid, e) = ran-valid fails owner domain r h in
    let tracked : IsTracked (perform happens r.tried m) =
      subst (λ (x : Report). IsTracked (perform happens x.tried m)) e
        (install-IsTracked fails happens domain valid complete owner m bare) in
    let kept : IsTrustKept (perform happens r.tried m) =
      subst (λ (x : Report). IsTrustKept (perform happens x.tried m)) e
        (install-IsTrustKept fails happens domain complete owner m untrusted) in
    after-IsClean unicode configured'
      (after unicode fails' happens' configured (perform happens r.tried m))
      (after-IsTracked unicode fails' happens' configured (perform happens r.tried m) complete'
        tracked)
      (after-IsTrustKept unicode fails' happens' configured (perform happens r.tried m) complete'
        kept)
