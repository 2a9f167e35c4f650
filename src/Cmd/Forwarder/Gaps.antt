-- ===== src/Cmd/Forwarder/Gaps.antt =====
-- Nothing that was written is lost without a notice.
use localapp.Base.{
  ◌≡◌, ◌≤◌, ◌+◌, ◌-◌, refl, sym, ap, ◌∙◌, ◌⊎◌, inl, inr, List, [], ◌∷◌, ◌++◌, append-nil,
  append_assoc, length, take, drop, arith, length-append, length-drop, take-append-drop, Bool, true,
  false, Bool-cases, ◌&&◌, Option, none, some, leb, ltb, not,
}
use localapp.Text.{Str, str_eq}
use localapp.Logstream.{max_bytes}
use localapp.Client.{Outcome, answered, api_error, unavailable}
use localapp.Cmd.Forwarder.{
  Forwarder, omission, batch, write, take_batch, settle, Event, writes, sends, ends, Run, Warning,
  start, starts, ending, step, run,
}

-- A text brings the piece `s` of the output: as it is, or behind the notice of a gap.
abbrev Brings : Str → Str → Str → Type 0
Brings t gap s = ((t ≡ s) × (gap ≡ [])) ⊎ (t ≡ omission ++ s)

-- The texts, the last one first, bring all of the output in order, but for gaps with a notice.
pub Explains : List Str → Str → Type 0
Explains [] output = output ≡ []
Explains (t ∷ earlier) output =
    (u gap s : Str) × (output ≡ u ++ gap ++ s) × Brings t gap s × Explains earlier u

abbrev pub with_flight : Option Str → List Str → List Str
with_flight none received = received
with_flight (some t) received = t ∷ received

-- The queue holds the end of the output, at most a window; what was sent explains the output before
-- it, up to a gap that will get its notice.
pub record IsAccounted (r : Run) : Type 0 where
  pub sent : Str
  pub gap : Str
  pub explained : Explains (with_flight r.queue.flight r.received) sent
  pub rest : r.written ≡ sent ++ gap ++ r.queue.pending
  pub noticed : r.queue.dropped ≡ false → gap ≡ []
  pub small : length r.queue.pending ≤ max_bytes

write-small :
    (p : Str) (w : Forwarder)
    → length w.pending ≤ max_bytes
    → length (write p w).pending ≤ max_bytes
unfolding write
write-small p w h = ground (
  arith,
  length-drop (length p - max_bytes) p,
  length-append w.pending p,
  length-append (drop (length w.pending + length p - max_bytes) w.pending) p,
  length-drop (length w.pending + length p - max_bytes) w.pending,
)

-- What a write cuts off goes to the gap.
write_cut :
    (p : Str) (w : Forwarder)
    → (cut : Str) × (w.pending ++ p ≡ cut ++ (write p w).pending)
      × ((write p w).dropped ≡ false → (cut ≡ []) × (w.dropped ≡ false))
      × ((write p w).flight ≡ w.flight)
unfolding write
write_cut p w = elim (Bool-cases (leb max_bytes (length p))) [
  | inl e ↦ rw e (
    w.pending ++ take (length p - max_bytes) p,
    ap (λ q. w.pending ++ q) (sym (take-append-drop (length p - max_bytes) p))
        ∙ sym (append_assoc w.pending _ _),
    λ h. cc,
    refl,
  )
  | inr e ↦ elim (Bool-cases (ltb max_bytes (length w.pending + length p))) [
    | inl f ↦
        rw (e, f)
          (let n = length w.pending + length p - max_bytes in
            (
              take n w.pending,
              ap (λ q. q ++ p) (sym (take-append-drop n w.pending)) ∙ append_assoc _ _ p,
              λ h. cc,
              refl,
            ))
    | inr f ↦ rw (e, f) ([], refl, λ h. (refl, h), refl)
  ]
]

writes-IsAccounted : (p : Str) (r : Run) → IsAccounted r → IsAccounted (step (writes p) r)
unfolding step
writes-IsAccounted p r a =
    let (cut, e, clean, flight) = write_cut p r.queue in
    record {
      sent = a.sent;
      gap = a.gap ++ cut;
      explained = rw flight a.explained;
      rest = ap (λ q. q ++ p) a.rest ∙ simp (append_assoc, e);
      noticed = λ h. rw (a.noticed (clean h).1, (clean h).0) refl;
      small = write-small p r.queue a.small;
    }

take_cases :
    (w : Forwarder)
    → (take_batch w ≡ w)
      ⊎ (((take_batch w).pending ≡ [])
          × ((take_batch w).dropped ≡ false)
          × ((take_batch w).flight ≡ some (batch w.pending w.dropped)))
unfolding take_batch
take_cases w = elim (Bool-cases (str_eq w.pending [] && not w.dropped)) [
  | inl e ↦ inl (rw e refl)
  | inr e ↦ inr (rw e (refl, refl, refl))
]

batch-Brings :
    (dropped : Bool) (gap s : Str) → (dropped ≡ false → gap ≡ []) → Brings (batch s dropped) gap s
unfolding batch
batch-Brings true gap s h = inr refl
batch-Brings false gap s h = inl (refl, h refl)

take_batch-IsAccounted :
    (r : Run)
    → r.queue.flight ≡ none
    → IsAccounted r
    → IsAccounted (record r { queue = take_batch r.queue })
unfolding Explains
take_batch-IsAccounted r idle a = elim (take_cases r.queue) [
  | inl e ↦ rw e a
  | inr (empty, clean, flight) ↦ record {
    sent = r.written;
    gap = [];
    explained = rw flight (
      a.sent,
      a.gap,
      r.queue.pending,
      a.rest,
      batch-Brings r.queue.dropped a.gap r.queue.pending a.noticed,
      rw idle at a.explained,
    );
    rest = rw (empty, append-nil, append-nil) refl;
    noticed = λ h. refl;
    small = rw empty (omega arith);
  }
]

starts-IsAccounted :
    (r : Run) (o : Option Str)
    → r.queue.flight ≡ o
    → IsAccounted r
    → IsAccounted (record r { queue = starts r.queue o })
starts-IsAccounted r none e a = take_batch-IsAccounted r e a
starts-IsAccounted r (some t) e a = a

-- A send that failed leaves a gap that will get its notice.
lost :
    (r : Run) (t : Str) (ws : List Warning)
    → r.queue.flight ≡ some t
    → IsAccounted r
    → IsAccounted (record r {
      queue = record r.queue { dropped = true; failing = true; flight = none };
      warnings = ws;
    })
unfolding Explains
lost r t ws e a =
    let (u, gap, s, cut, brought, before) = rw e at a.explained in
    record {
      sent = u;
      gap = gap ++ s ++ a.gap;
      explained = before;
      rest = a.rest ∙ rw cut (simp append_assoc);
      noticed = λ h. cc;
      small = a.small;
    }

-- A send of which the daemon took the text leaves the gaps as they are.
arrived :
    (r : Run) (t : Str) (failing dropped : Bool) (ws : List Warning)
    → r.queue.flight ≡ some t
    → IsAccounted r
    → (dropped ≡ false → r.queue.dropped ≡ false)
    → IsAccounted (record r {
      queue = record r.queue { dropped = dropped; failing = failing; flight = none };
      received = t ∷ r.received;
      warnings = ws;
    })
arrived r t failing dropped ws e a h = record {
  sent = a.sent;
  gap = a.gap;
  explained = rw e at a.explained;
  rest = a.rest;
  noticed = λ d. a.noticed (h d);
  small = a.small;
}

ending-IsAccounted :
    (out : Outcome) (reached : Bool) (r : Run) (o : Option Str)
    → r.queue.flight ≡ o
    → IsAccounted r
    → IsAccounted (ending out reached r o)
unfolding settle
ending-IsAccounted out reached r none e a = a
ending-IsAccounted (answered b) reached r (some t) e a =
    arrived r t false r.queue.dropped _ e a (λ h. h)
ending-IsAccounted (api_error status d) true r (some t) e a = arrived r t true true _ e a (λ h. cc)
ending-IsAccounted (api_error status d) false r (some t) e a = lost r t _ e a
ending-IsAccounted unavailable true r (some t) e a = arrived r t true true _ e a (λ h. cc)
ending-IsAccounted unavailable false r (some t) e a = lost r t _ e a

pub step-IsAccounted : (e : Event) (r : Run) → IsAccounted r → IsAccounted (step e r)
unfolding step
step-IsAccounted (writes p) r a = writes-IsAccounted p r a
step-IsAccounted sends r a = starts-IsAccounted r r.queue.flight refl a
step-IsAccounted (ends out reached) r a = ending-IsAccounted out reached r r.queue.flight refl a

run_from-IsAccounted : (events : List Event) (r : Run) → IsAccounted r → IsAccounted (run events r)
unfolding run
run_from-IsAccounted [] r a = a
run_from-IsAccounted (e ∷ events) r a =
    run_from-IsAccounted events (step e r) (step-IsAccounted e r a)

start-IsAccounted : (failing : Bool) → IsAccounted (start failing)
unfolding start Explains
start-IsAccounted failing = record {
  sent = [];
  gap = [];
  explained = refl;
  rest = refl;
  noticed = λ h. refl;
  small = omega arith;
}

-- Whatever is written, whenever sends start and however they end, also if one fails after the
-- daemon took the text: the texts that the daemon took and the one in flight bring the output in
-- order, but for gaps that the next text announces; the rest is queued, or is a gap of which the
-- notice is still to be sent, and the queue never holds more than 262144 bytes.
pub run-IsAccounted :
    (failing : Bool) (events : List Event) → IsAccounted (run events (start failing))
run-IsAccounted failing events =
    run_from-IsAccounted events (start failing) (start-IsAccounted failing)
