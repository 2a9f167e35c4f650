-- ===== src/Cmd/Args/Names.antt =====
-- Which arguments name a service.
use localapp.Base.{
  ◌≡◌, ◌≢◌, ◌⊎◌, ◌↔◌, refl, sym, subst, ◌∙◌, inl, inr, false, Bool-cases, none, some, [], ◌∷◌, ◌++◌,
}
use localapp.Text.{Str, str_eq, contains}
use localapp.Text.Order.{str_eq-eq-false}
use localapp.Text.Cut.{cut, cut-append, cut_of_contains, cut-join}
use localapp.Registry.{default_service}
use localapp.Cmd.Args.{checked, with_default, split_app_service}

-- `app/service`, or `app` alone for the default service. A name is not empty and has no slash.
pub record IsPart (s : Str) : Type 0 where
  pub full : s ≢ []
  pub plain : contains b'/' s ≡ false

pub Denotes : Str → Str → Str → Type 0
Denotes arg app service =
    IsPart app
    × (((arg ≡ app ++ b'/' ∷ service) × IsPart service)
        ⊎ ((arg ≡ app) × (service ≡ default_service)))

ne_of_str_eq : (s : Str) → str_eq s [] ≡ false → s ≢ []
unfolding str_eq
ne_of_str_eq [] h e = cc
ne_of_str_eq (c ∷ s) h e = cc

Denotes-split :
    (arg app service : Str) → Denotes arg app service → split_app_service arg ≡ some (app, service)
unfolding Denotes split_app_service
Denotes-split arg app service (a, inl (e, s)) =
    let empty_app = str_eq-eq-false app [] a.full in
    let empty_service = str_eq-eq-false service [] s.full in
    rw (e, cut-append b'/' app service a.plain, empty_app, empty_service, s.plain) refl
Denotes-split arg app service (a, inr (e, s)) =
    rw (e, cut_of_contains b'/' app a.plain, str_eq-eq-false app [] a.full, s) refl

alone-Denotes :
    (arg app service : Str)
    → contains b'/' arg ≡ false
    → with_default (checked arg none) ≡ some (app, service)
    → Denotes arg app service
unfolding Denotes
alone-Denotes arg app service free h = elim (Bool-cases (str_eq arg [])) [
  | inl e ↦ cc (rw e at h)
  | inr e ↦
      let is_app : arg ≡ app = cc (rw e at h) in
      let is_default : service ≡ default_service = sym (cc (rw e at h)) in
      (
        subst IsPart is_app (record { full = ne_of_str_eq arg e; plain = free }),
        inr (is_app, is_default),
      )
]

pair-Denotes :
    (arg a b app service : Str)
    → arg ≡ a ++ b'/' ∷ b
    → contains b'/' a ≡ false
    → with_default (checked a (some b)) ≡ some (app, service)
    → Denotes arg app service
unfolding Denotes
pair-Denotes arg a b app service joined free h = elim (Bool-cases (str_eq a [])) [
  | inl e ↦ cc (rw e at h)
  | inr e ↦ elim (Bool-cases (str_eq b [])) [
    | inl f ↦ cc (rw (e, f) at h)
    | inr f ↦ elim (Bool-cases (contains b'/' b)) [
      | inl g ↦ cc (rw (e, f, g) at h)
      | inr g ↦
          let is_app : a ≡ app = cc (rw (e, f, g) at h) in
          let is_service : b ≡ service = cc (rw (e, f, g) at h) in
          (
            subst IsPart is_app (record { full = ne_of_str_eq a e; plain = free }),
            inl (
              joined ∙ (λ i. is_app i ++ b'/' ∷ is_service i),
              subst IsPart is_service (record { full = ne_of_str_eq b f; plain = g }),
            ),
          )
    ]
  ]
]

split-Denotes :
    (arg app service : Str) → split_app_service arg ≡ some (app, service) → Denotes arg app service
unfolding split_app_service
split-Denotes arg app service h = elim (cut-join b'/' arg) [
  | inl (f, free) ↦ alone-Denotes arg app service free (rw f at h)
  | inr (b, f, joined, free) ↦
      pair-Denotes arg (cut b'/' arg).0 b app service joined free (rw f at h)
]

-- splitAppService yields an app and a service exactly if both are not empty and without a slash,
-- and the argument is app/service, or the app alone and the service is the default one.
pub split_app_service_iff :
    (arg app service : Str)
    → (split_app_service arg ≡ some (app, service)) ↔ Denotes arg app service
split_app_service_iff arg app service =
    (split-Denotes arg app service, Denotes-split arg app service)
