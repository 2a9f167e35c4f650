-- ===== src/Cmd/Install/Tracking.antt =====
-- While install runs, a resolver that is there is that of the recorded domain.
use localapp.Base.{
  ◌≡◌, refl, sym, ap, subst, ◌∙◌, inl, inr, true, false, Bool, Bool-cases, Option, none, some, List,
  [], ◌∷◌, if◌then◌else◌, ℤ,
}
use localapp.Text.{Str, str_eq}
use localapp.Text.Order.{str_eq→eq}
use localapp.Domain.{validate}
use localapp.Cmd.Install.{
  Action, find_executable, make_state_dir, chmod_state_dir, write_owner, load_ca, write_domain,
  install_trust, install_resolver, install_service, in_order, owner_action, install_actions,
  domain_record, Machine, set_resolver, act, perform,
}

-- A resolver that is installed is that of the recorded domain.
abbrev pub IsTracked : Machine → Type 0
IsTracked m =
    (d : Str) → m.resolver d ≡ true → (m.recorded ≡ some (domain_record d)) × (validate d ≡ none)

-- What the tried actions leave. An action that does not fail takes effect.
abbrev pub effect : (Action → Bool) → (Action → Bool) → List Action → Machine → Machine
effect fails happens actions m = perform happens (in_order fails actions).tried m

abbrev pub once : (Action → Bool) → Action → Machine → Machine
once happens a m = if happens a then act a m else m

pub effect-cons :
    (fails happens : Action → Bool) (a : Action) (rest : List Action) (m : Machine)
    → effect fails happens (a ∷ rest) m
      ≡ (if fails a then once happens a m else effect fails happens rest (once happens a m))
unfolding in_order perform
effect-cons fails happens a rest m = elim (Bool-cases (fails a)) [
  | inl e ↦ rw e refl
  | inr e ↦ rw e refl
]

-- No resolver yet.
abbrev pub IsBare : Machine → Type 0
IsBare m = (d : Str) → m.resolver d ≡ false

-- The domain is recorded, and no other one has a resolver.
record IsRecorded (domain : Str) (m : Machine) : Type 0 where
  known : m.recorded ≡ some (domain_record domain)
  only : (d : Str) → m.resolver d ≡ true → d ≡ domain

pub IsBare-IsTracked : (m : Machine) → IsBare m → IsTracked m
IsBare-IsTracked m h d k = cc (h d, k)

IsRecorded-IsTracked :
    (domain : Str) (m : Machine) → validate domain ≡ none → IsRecorded domain m → IsTracked m
IsRecorded-IsTracked domain m v h d k =
    let e = h.only d k in (h.known ∙ ap (λ x. some (domain_record x)) (sym e), ap validate e ∙ v)

module _ (fails happens : Action → Bool) where
  -- An action that keeps `P`, in front of actions that lead from `P` to `Q`.
  pub step :
      (P Q : Machine → Type 0) (a : Action) (rest : List Action)
      → ((m : Machine) → P m → P (act a m))
      → ((m : Machine) → P m → Q m)
      → ((m : Machine) → P m → Q (effect fails happens rest m))
      → (m : Machine) → P m
      → Q (effect fails happens (a ∷ rest) m)
  step P Q a rest keep stop on m h =
      let kept : P (once happens a m) = elim (Bool-cases (happens a)) [
        | inl e ↦ rw e (keep m h)
        | inr e ↦ rw e h
      ] in
      subst Q (sym (effect-cons fails happens a rest m)) (elim (Bool-cases (fails a)) [
        | inl e ↦ rw e (stop (once happens a m) kept)
        | inr e ↦ rw e (on (once happens a m) kept)
      ])

  abbrev pub Leads : (Machine → Type 0) → List Action → Type 0
  Leads P actions = (m : Machine) → P m → IsTracked (effect fails happens actions m)

  nothing : (P : Machine → Type 0) → ((m : Machine) → P m → IsTracked m) → Leads P []
  unfolding in_order perform
  nothing P h m p = h m p

  module _ (domain : Str) (valid : validate domain ≡ none)
      (complete : (a : Action) → fails a ≡ false → happens a ≡ true) where
    tracked : (m : Machine) → IsRecorded domain m → IsTracked m
    tracked m h = IsRecorded-IsTracked domain m valid h

    behind :
        Leads
          (IsRecorded domain)
          (install_trust domain ∷ install_resolver domain ∷ install_service ∷ [])
    unfolding act
    behind =
        step (IsRecorded domain) IsTracked (install_trust domain) _
          (λ m h. record { known = h.known; only = h.only }) tracked
          (step (IsRecorded domain) IsTracked (install_resolver domain) _
            (λ m h. record { known = h.known; only = λ d k. only_one d m.resolver h.only k })
            tracked
            (step (IsRecorded domain) IsTracked install_service []
              (λ m h. record { known = h.known; only = h.only }) tracked
              (nothing (IsRecorded domain) tracked)))
      where
        only_one :
            (d : Str) (resolver : Str → Bool)
            → ((x : Str) → resolver x ≡ true → x ≡ domain)
            → set_resolver domain true resolver d ≡ true
            → d ≡ domain
        only_one d resolver h k = elim (Bool-cases (str_eq d domain)) [
          | inl e ↦ str_eq→eq d domain e
          | inr e ↦ h d (rw e at k)
        ]

    writes :
        (rest : List Action)
        → Leads (IsRecorded domain) rest
        → Leads IsBare (write_domain domain ∷ rest)
    unfolding act
    writes rest on m bare =
        subst IsTracked (sym (effect-cons fails happens (write_domain domain) rest m))
          (elim (Bool-cases (fails (write_domain domain))) [
            | inl e ↦ elim (Bool-cases (happens (write_domain domain))) [
              | inl f ↦ rw (e, f) (IsBare-IsTracked (act (write_domain domain) m) bare)
              | inr f ↦ rw (e, f) (IsBare-IsTracked m bare)
            ]
            | inr e ↦
                rw (e, complete (write_domain domain) e)
                  (on (act (write_domain domain) m)
                    (record { known = refl; only = λ d k. cc (bare d, k) }))
          ])

    bare_step :
        (a : Action) (rest : List Action)
        → ((m : Machine) → (act a m).resolver ≡ m.resolver)
        → Leads IsBare rest
        → Leads IsBare (a ∷ rest)
    bare_step a rest same on =
        step IsBare IsTracked a rest (λ m h d. ap (λ (r : Str → Bool). r d) (same m) ∙ h d)
          IsBare-IsTracked on

    owned :
        (owner : Option (ℤ × ℤ)) (rest : List Action)
        → Leads IsBare rest
        → Leads IsBare (owner_action owner rest)
    unfolding act
    owned none rest on = on
    owned (some o) rest on = bare_step (write_owner o) rest (λ m. refl) on

    pub install-IsTracked : (owner : Option (ℤ × ℤ)) → Leads IsBare (install_actions owner domain)
    unfolding install_actions act
    install-IsTracked owner =
        bare_step find_executable _ (λ m. refl)
          (bare_step make_state_dir _ (λ m. refl)
            (bare_step chmod_state_dir _ (λ m. refl)
              (owned owner _ (bare_step (load_ca domain) _ (λ m. refl) (writes _ behind)))))
