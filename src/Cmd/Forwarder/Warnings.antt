-- ===== src/Cmd/Forwarder/Warnings.antt =====
-- The forwarder warns when forwarding starts to fail and when it resumes, in turns.
use localapp.Base.{◌≡◌, refl, true, false, Bool, Option, none, some, List, [], ◌∷◌, ◌++◌, arith}
use localapp.Text.{Str}
use localapp.Client.{Outcome, answered, api_error, unavailable}
use localapp.Cmd.Forwarder.{
  Forwarder, write, take_batch, settle, is_error, Warning, failed, resumed, Event, writes, sends,
  ends, Run, start, starts, ending, step, run,
}

-- The warnings, the last one first, lead from the state `before` to the state `now`, and each one
-- tells of a change.
pub Alternates : Bool → Bool → List Warning → Type 0
Alternates before now [] = now ≡ before
Alternates before now (failed out ∷ ws) =
    (now ≡ true) × (is_error out ≡ true) × Alternates before false ws
Alternates before now (resumed ∷ ws) = (now ≡ false) × Alternates before true ws

write-failing : (p : Str) (w : Forwarder) → (write p w).failing ≡ w.failing
unfolding write
write-failing p w = ground arith

starts-failing : (w : Forwarder) (o : Option Str) → (starts w o).failing ≡ w.failing
unfolding take_batch
starts-failing w none = ground arith
starts-failing w (some t) = refl

settle-Alternates :
    (before : Bool) (out : Outcome) (w : Forwarder) (failing : Bool) (ws : List Warning)
    → w.failing ≡ failing
    → Alternates before failing ws
    → Alternates before (settle out w).0.failing ((settle out w).1 ++ ws)
unfolding settle Alternates
settle-Alternates before (answered b) w true ws e h = rw e (refl, h)
settle-Alternates before (answered b) w false ws e h = rw e h
settle-Alternates before (api_error status d) w true ws e h = rw e h
settle-Alternates before (api_error status d) w false ws e h = rw e (refl, refl, h)
settle-Alternates before unavailable w true ws e h = rw e h
settle-Alternates before unavailable w false ws e h = rw e (refl, refl, h)

ending-Alternates :
    (before : Bool) (out : Outcome) (reached : Bool) (r : Run) (o : Option Str)
    → Alternates before r.queue.failing r.warnings
    → Alternates before (ending out reached r o).queue.failing (ending out reached r o).warnings
ending-Alternates before out reached r none h = h
ending-Alternates before out reached r (some t) h =
    settle-Alternates before out r.queue r.queue.failing r.warnings refl h

step-Alternates :
    (before : Bool) (e : Event) (r : Run)
    → Alternates before r.queue.failing r.warnings
    → Alternates before (step e r).queue.failing (step e r).warnings
unfolding step
step-Alternates before (writes p) r h = rw (write-failing p r.queue) h
step-Alternates before sends r h = rw (starts-failing r.queue r.queue.flight) h
step-Alternates before (ends out reached) r h =
    ending-Alternates before out reached r r.queue.flight h

run_from-Alternates :
    (before : Bool) (events : List Event) (r : Run)
    → Alternates before r.queue.failing r.warnings
    → Alternates before (run events r).queue.failing (run events r).warnings
unfolding run
run_from-Alternates before [] r h = h
run_from-Alternates before (e ∷ events) r h =
    run_from-Alternates before events (step e r) (step-Alternates before e r h)

-- Whatever happens, the warnings of a forwarder tell of a failure and of a resumption in turns,
-- starting with a failure unless it was told that forwarding fails already, each failure with an
-- error as its cause, and the last one tells the state that it is in.
pub run-Alternates :
    (failing : Bool) (events : List Event)
    → Alternates failing
        (run events (start failing)).queue.failing
        (run events (start failing)).warnings
unfolding start Alternates
run-Alternates failing events = run_from-Alternates failing events (start failing) refl
