-- ===== src/Cmd/Install/Trust.antt =====
-- While install runs, a root that is trusted has its certificate in the state directory.
use localapp.Base.{
  ◌≡◌, refl, sym, subst, inl, inr, true, false, Bool, Bool-cases, Option, none, some, List, [], ◌∷◌,
  ℤ,
}
use localapp.Text.{Str}
use localapp.Cmd.Install.{
  Action, find_executable, make_state_dir, chmod_state_dir, write_owner, load_ca, write_domain,
  install_trust, install_resolver, install_service, in_order, owner_action, install_actions,
  Machine, act, perform,
}
use localapp.Cmd.Install.Tracking.{effect, effect-cons, step}

abbrev pub IsTrustKept : Machine → Type 0
IsTrustKept m = m.trust ≡ true → m.root_cert ≡ true

abbrev IsUntrusted : Machine → Type 0
IsUntrusted m = m.trust ≡ false

abbrev HasCert : Machine → Type 0
HasCert m = m.root_cert ≡ true

module _ (fails happens : Action → Bool) (domain : Str)
    (complete : (a : Action) → fails a ≡ false → happens a ≡ true) where
  abbrev Keeps : (Machine → Type 0) → List Action → Type 0
  Keeps P actions = (m : Machine) → P m → IsTrustKept (effect fails happens actions m)

  untrusted-IsTrustKept : (m : Machine) → IsUntrusted m → IsTrustKept m
  untrusted-IsTrustKept m e h = cc (e, h)

  quiet :
      (a : Action) (rest : List Action)
      → ((m : Machine) → IsUntrusted m → IsUntrusted (act a m))
      → Keeps IsUntrusted rest
      → Keeps IsUntrusted (a ∷ rest)
  quiet a rest keep on =
      step fails happens IsUntrusted IsTrustKept a rest keep untrusted-IsTrustKept on

  certified :
      (a : Action) (rest : List Action)
      → ((m : Machine) → HasCert m → HasCert (act a m))
      → Keeps HasCert rest
      → Keeps HasCert (a ∷ rest)
  certified a rest keep on = step fails happens HasCert IsTrustKept a rest keep (λ m c h. c) on

  last : Keeps HasCert []
  unfolding in_order perform
  last m c h = c

  behind :
      Keeps HasCert (
        write_domain domain ∷ install_trust domain ∷ install_resolver domain ∷ install_service ∷ [])
  unfolding act
  behind =
      certified (write_domain domain) _ (λ m c. c)
        (certified (install_trust domain) _ (λ m c. c)
          (certified (install_resolver domain) _ (λ m c. c)
            (certified install_service [] (λ m c. c) last)))

  loads : (rest : List Action) → Keeps HasCert rest → Keeps IsUntrusted (load_ca domain ∷ rest)
  unfolding act
  loads rest on m e =
      subst IsTrustKept (sym (effect-cons fails happens (load_ca domain) rest m))
        (elim (Bool-cases (fails (load_ca domain))) [
          | inl f ↦ elim (Bool-cases (happens (load_ca domain))) [
            | inl g ↦ rw (f, g) (λ h. cc (e, h))
            | inr g ↦ rw (f, g) (untrusted-IsTrustKept m e)
          ]
          | inr f ↦ rw (f, complete (load_ca domain) f) (on (act (load_ca domain) m) refl)
        ])

  owned :
      (owner : Option (ℤ × ℤ)) (rest : List Action)
      → Keeps IsUntrusted rest
      → Keeps IsUntrusted (owner_action owner rest)
  unfolding act
  owned none rest on = on
  owned (some o) rest on = quiet (write_owner o) rest (λ m e. e) on

  pub install-IsTrustKept :
      (owner : Option (ℤ × ℤ)) → Keeps IsUntrusted (install_actions owner domain)
  unfolding install_actions act
  install-IsTrustKept owner =
      quiet find_executable _ (λ m e. e)
        (quiet make_state_dir _ (λ m e. e)
          (quiet chmod_state_dir _ (λ m e. e) (owned owner _ (loads _ behind))))
