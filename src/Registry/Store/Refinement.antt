-- ===== src/Registry/Store/Refinement.antt =====
-- The registry against a map from app and service names to services. Operations are those of Runs.
use localapp.Base.{
  ◌≡◌, ◌⊎◌, refl, ap, ◌∙◌, inl, inr, true, false, Bool, Bool-cases, ◌&&◌, &&-eq-true, Option, none,
  some, Option-cases, List, [], ◌∷◌, map, get_elem?, if◌then◌else◌,
}
use localapp.Text.{Str, text, str_eq}
use localapp.Text.Order.{str_eq→eq}
use localapp.Keyed.{find, index_of}
use localapp.Registry.{Service, ValidationError, validate_name, validate}
use localapp.Registry.Store.{
  app_name, App, Faults, Failure, World, PutResult, saved, failed, RemoveResult, not_removed,
  normalized, put, remove_app, remove_service, put_result, remove_result, service_name,
}
use localapp.Registry.Store.Views.{view}
use localapp.Registry.Store.Durable.{IsSound, commit_locked_total}
use localapp.Registry.Store.Operations.{put_effect}
use localapp.Registry.Store.Removals.{remove_app_effect, remove_service_effect}
use localapp.Registry.Store.Runs.{
  Operation, put_op, remove_app_op, remove_service_op, step, run, step-IsSound,
}

-- The abstract registry, and what an operation that succeeds does to it.
abbrev pub Registrations : Type 0
Registrations = Str → Str → Option Service

abbrev pub apply : Operation → Registrations → Registrations
apply (put_op app svc) m a s =
    if str_eq app a && str_eq svc.name s then some (normalized svc) else m a s
apply (remove_app_op app) m a s = if str_eq app a then none else m a s
apply (remove_service_op app svc) m a s = if str_eq app a && str_eq svc s then none else m a s

pub apply_all : List Operation → Registrations → Registrations
apply_all [] m = m
apply_all (op ∷ ops) m = apply_all ops (apply op m)

-- What the operations report: no failure.
abbrev is_saved : PutResult → Bool
is_saved (saved svc) = true
is_saved (failed f) = false

abbrev is_done : RemoveResult → Bool
is_done (not_removed f) = false
is_done _ = true

abbrev pub succeeds : World → Faults × Operation → Bool
succeeds w (faults, put_op app svc) = is_saved (put faults app svc w).0
succeeds w (faults, remove_app_op app) = is_done (remove_app faults app w).0
succeeds w (faults, remove_service_op app svc) = is_done (remove_service faults app svc w).0

pub succeeding : World → List (Faults × Operation) → List Operation
succeeding w [] = []
succeeding w (op ∷ ops) =
    let rest = succeeding (step w op) ops in if succeeds w op then op.1 ∷ rest else rest

apply-same :
    (op : Operation) (m m' : Registrations)
    → ((a s : Str) → m a s ≡ m' a s)
    → (a s : Str) → apply op m a s ≡ apply op m' a s
apply-same (put_op app svc) m m' h a s = rw (h a s) refl
apply-same (remove_app_op app) m m' h a s = rw (h a s) refl
apply-same (remove_service_op app svc) m m' h a s = rw (h a s) refl

apply_all-same :
    (ops : List Operation) (m m' : Registrations)
    → ((a s : Str) → m a s ≡ m' a s)
    → (a s : Str) → apply_all ops m a s ≡ apply_all ops m' a s
unfolding apply_all
apply_all-same [] m m' h a s = h a s
apply_all-same (op ∷ ops) m m' h a s =
    apply_all-same ops (apply op m) (apply op m') (apply-same op m m' h) a s

-- Removing what is not there changes nothing.
absent_app :
    (app : Str) (apps : List App)
    → find app_name app apps ≡ none
    → (a s : Str) → view apps a s ≡ (if str_eq app a then none else view apps a s)
unfolding view
absent_app app apps h a s = elim (Bool-cases (str_eq app a)) [
  | inr e ↦ rw e refl
  | inl e ↦ rw (e, ← str_eq→eq app a e, h) refl
]

absent_service :
    (app svc : Str) (apps : List App)
    → view apps app svc ≡ none
    → (a s : Str) → view apps a s ≡ (if str_eq app a && str_eq svc s then none else view apps a s)
absent_service app svc apps h a s = elim (Bool-cases (str_eq app a && str_eq svc s)) [
  | inr e ↦ rw e refl
  | inl e ↦
      let (f, g) = &&-eq-true (str_eq app a) (str_eq svc s) e in
      rw (e, ← str_eq→eq app a f, ← str_eq→eq svc s g) h
]

-- An operation that succeeds does to the view what it does to the map; one that fails does nothing.
abbrev Refines : World → Faults × Operation → Type 0
Refines w op =
    ((succeeds w op ≡ true)
      × ((a s : Str) → view (step w op).store.apps a s ≡ apply op.1 (view w.store.apps) a s))
    ⊎ ((succeeds w op ≡ false) × (step w op ≡ w))

step-Refines : (w : World) (op : Faults × Operation) → IsSound w → Refines w op
unfolding step
step-Refines w (faults, put_op app svc) h = elim (put_effect faults app svc w h) [
  | inl (e, v) ↦ inl (rw e refl, v)
  | inr (f, e) ↦ inr (rw e refl, ap (λ p. p.1) e)
]
step-Refines w (faults, remove_app_op app) h = elim (remove_app_effect faults app w h) [
  | inl (e, there, v) ↦ inl (rw e refl, v)
  | inr (inl (e, gone)) ↦
      inl (
        rw e refl,
        λ a s. ap (λ p. view p.1.store.apps a s) e ∙ absent_app app w.store.apps gone a s,
      )
  | inr (inr (f, e)) ↦ inr (rw e refl, ap (λ p. p.1) e)
]
step-Refines w (faults, remove_service_op app svc) h =
    elim (remove_service_effect faults app svc w h) [
      | inl (e, there, v) ↦ inl (rw e refl, v)
      | inr (inl (e, gone)) ↦ inl (
        rw e refl,
        λ a s. ap (λ p. view p.1.store.apps a s) e ∙ absent_service app svc w.store.apps gone a s,
      )
      | inr (inr (f, e)) ↦ inr (rw e refl, ap (λ p. p.1) e)
    ]

-- From a sound registry, after any sequence of Put, RemoveApp and RemoveService with any failures
-- of the disk, the registry, looked up by app and service, is what the map of registrations becomes
-- under those operations that reported no failure: a Put sets its service, with its path
-- normalised, a removal clears the entries of its app or its service, and nothing else changes.
pub run-refines :
    (w : World) (ops : List (Faults × Operation))
    → IsSound w
    → (a s : Str)
    → view (run w ops).store.apps a s ≡ apply_all (succeeding w ops) (view w.store.apps) a s
unfolding run succeeding apply_all
run-refines w [] h a s = refl
run-refines w (op ∷ ops) h a s =
    let on = run-refines (step w op) ops (step-IsSound w op h) a s in
    elim (step-Refines w op h) [
      | inl (e, v) ↦ rw e (
          on
          ∙ apply_all-same (succeeding (step w op) ops) (view (step w op).store.apps)
              (apply op.1 (view w.store.apps)) v a s)
      | inr (e, same) ↦ rw e (
          on
          ∙ ap (λ (x : World). apply_all (succeeding (step w op) ops) (view x.store.apps) a s) same)
    ]

abbrev both_none : Option ValidationError → Option ValidationError → Bool
both_none none none = true
both_none _ _ = false

-- The operations that the abstract registry takes: a Put wants a valid name and service.
abbrev is_accepted : Operation → Bool
is_accepted (put_op app svc) = both_none (validate_name (text "app") app) (validate svc)
is_accepted _ = true

pub accepted : List Operation → List Operation
accepted [] = []
accepted (op ∷ ops) = let rest = accepted ops in if is_accepted op then op ∷ rest else rest

abbrev pub reliably : List Operation → List (Faults × Operation)
reliably ops = map (λ op. ((λ step. false), op)) ops

put_result-saved :
    (svc : Service) (r : Option Failure × World) → r.0 ≡ none → is_saved (put_result svc r).0 ≡ true
put_result-saved svc (none, w) e = refl
put_result-saved svc (some f, w) e = cc

remove_result-done : (r : Option Failure × World) → r.0 ≡ none → is_done (remove_result r).0 ≡ true
remove_result-done (none, w) e = refl
remove_result-done (some f, w) e = cc

put-accepted :
    (app : Str) (svc : Service) (w : World)
    → is_saved (put (λ step. false) app svc w).0 ≡ is_accepted (put_op app svc)
unfolding put
put-accepted app svc w = elim (Option-cases (validate_name (text "app") app)) [
  | inr (e, bad) ↦ rw (bad, put) refl
  | inl good ↦ elim (Option-cases (validate svc)) [
    | inr (e, bad) ↦ rw (good, put) (rw (bad, put) refl)
    | inl fine ↦
        rw (good, put)
          (rw (fine, put) (put_result-saved (normalized svc) _ (commit_locked_total _ w)))
  ]
]

remove_app-done : (app : Str) (w : World) → is_done (remove_app (λ step. false) app w).0 ≡ true
unfolding remove_app
remove_app-done app w = elim (Option-cases (index_of app_name app w.store.apps)) [
  | inl e ↦ rw (e, remove_app) refl
  | inr (i, e) ↦ rw (e, remove_app) (remove_result-done _ (commit_locked_total _ w))
]

remove_service-done :
    (app svc : Str) (w : World) → is_done (remove_service (λ step. false) app svc w).0 ≡ true
unfolding remove_service
remove_service-done app svc w = elim (Option-cases (index_of app_name app w.store.apps)) [
  | inl e ↦ rw (e, remove_service) refl
  | inr (i, e) ↦ elim (Option-cases (get_elem? w.store.apps i)) [
    | inl f ↦ rw (e, remove_service) (rw f refl)
    | inr (x, f) ↦ elim (Option-cases (index_of service_name svc x.services)) [
      | inl g ↦ rw (e, remove_service) (rw f (rw g refl))
      | inr (j, g) ↦
          rw (e, remove_service) (rw f (rw g (remove_result-done _ (commit_locked_total _ w))))
    ]
  ]
]

succeeds-accepted : (w : World) (op : Operation) → succeeds w ((λ step. false), op) ≡ is_accepted op
succeeds-accepted w (put_op app svc) = put-accepted app svc w
succeeds-accepted w (remove_app_op app) = remove_app-done app w
succeeds-accepted w (remove_service_op app svc) = remove_service-done app svc w

succeeding-reliably :
    (w : World) (ops : List Operation) → succeeding w (reliably ops) ≡ accepted ops
unfolding succeeding accepted
succeeding-reliably w [] = refl
succeeding-reliably w (op ∷ ops) =
    rw (succeeds-accepted w op, succeeding-reliably (step w ((λ step. false), op)) ops) refl

-- From a sound registry and with a disk that does not fail, any sequence of Put, RemoveApp and
-- RemoveService does to the registry, looked up by app and service, what it does to the map of
-- registrations, where a Put counts exactly if the app's name and the service are valid.
pub run-reliably :
    (w : World) (ops : List Operation)
    → IsSound w
    → (a s : Str)
    → view (run w (reliably ops)).store.apps a s ≡ apply_all (accepted ops) (view w.store.apps) a s
run-reliably w ops h a s =
    run-refines w (reliably ops) h a s
    ∙ ap (λ l. apply_all l (view w.store.apps) a s) (succeeding-reliably w ops)
