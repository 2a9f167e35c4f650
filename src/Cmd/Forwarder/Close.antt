-- ===== src/Cmd/Forwarder/Close.antt =====
-- When the queue is closed and its last text arrives, all of the output is accounted for.
use localapp.Base.{
  ◌≡◌, refl, sym, ap, subst, ◌∙◌, inl, inr, List, [], ◌++◌, append-nil, arith, Bool, true, false,
  Bool-cases, ◌&&◌, Option, none, some, &&-eq-true, not,
}
use localapp.Text.{Str, str_eq}
use localapp.Text.Order.{str_eq→eq}
use localapp.Client.{answered}
use localapp.Control.Messages.{Body}
use localapp.Cmd.Forwarder.{
  Forwarder, take_batch, settle, Event, sends, ends, Run, start, starts, ending, step, run,
}
use localapp.Cmd.Forwarder.Gaps.{
  Explains, with_flight, IsAccounted, step-IsAccounted, run-IsAccounted,
}

-- After the first part of a send, nothing is queued.
take_batch-empties :
    (w : Forwarder) → ((take_batch w).pending ≡ []) × ((take_batch w).dropped ≡ false)
unfolding take_batch
take_batch-empties w = elim (Bool-cases (str_eq w.pending [] && not w.dropped)) [
  | inl e ↦ rw e (
    str_eq→eq w.pending [] (&&-eq-true (str_eq w.pending []) (not w.dropped) e).0,
    ground (arith, &&-eq-true (str_eq w.pending []) (not w.dropped) e),
  )
  | inr e ↦ rw e (refl, refl)
]

starts-empties :
    (w : Forwarder) (o : Option Str)
    → w.flight ≡ o
    → o ≡ none
    → ((starts w o).pending ≡ []) × ((starts w o).dropped ≡ false)
starts-empties w none e h = take_batch-empties w
starts-empties w (some t) e h = cc

answered-settles :
    (b : Body) (r : Run) (o : Option Str)
    → r.queue.flight ≡ o
    → ((ending (answered b) true r o).queue.flight ≡ none)
      × ((ending (answered b) true r o).queue.pending ≡ r.queue.pending)
      × ((ending (answered b) true r o).queue.dropped ≡ r.queue.dropped)
      × ((ending (answered b) true r o).written ≡ r.written)
unfolding settle
answered-settles b r none e = (e, refl, refl, refl)
answered-settles b r (some t) e = (refl, refl, refl, refl)

-- With nothing queued and nothing in flight, all of the output is explained.
settled-Explains :
    (r : Run)
    → IsAccounted r
    → r.queue.flight ≡ none
    → r.queue.pending ≡ []
    → r.queue.dropped ≡ false
    → Explains r.received r.written
settled-Explains r a idle empty clean =
    let e : r.written ≡ a.sent =
      a.rest
      ∙ ap (λ p. a.sent ++ a.gap ++ p) empty
      ∙ ap (λ g. (a.sent ++ g) ++ []) (a.noticed clean)
      ∙ append-nil (a.sent ++ [])
      ∙ append-nil a.sent in
    subst (λ w. Explains r.received w) (sym e)
      (subst (λ f. Explains (with_flight f r.received) a.sent) idle a.explained)

abbrev pub close : Body → Run → Run
close b r = step (ends (answered b) true) (step sends r)

close-settles :
    (b : Body) (r : Run)
    → r.queue.flight ≡ none
    → ((close b r).queue.flight ≡ none)
      × ((close b r).queue.pending ≡ [])
      × ((close b r).queue.dropped ≡ false)
      × ((close b r).written ≡ r.written)
unfolding step
close-settles b r idle =
    let q = step sends r in
    let (flight, pending, dropped, written) = answered-settles b q q.queue.flight refl in
    let (empty, clean) = starts-empties r.queue r.queue.flight refl idle in
    (flight, pending ∙ empty, dropped ∙ clean, written)

-- If no send is in flight when the forwarder is closed, and the daemon takes the last text, then
-- the texts that the daemon took bring all of the output, in order, but for gaps that the following
-- text announces.
pub close-Explains :
    (failing : Bool) (events : List Event) (b : Body)
    → (run events (start failing)).queue.flight ≡ none
    → Explains (close b (run events (start failing))).received (run events (start failing)).written
close-Explains failing events b idle =
    let r = run events (start failing) in
    let q = step sends r in
    let end =
      step-IsAccounted (ends (answered b) true) q
        (step-IsAccounted sends r (run-IsAccounted failing events)) in
    let (flight, empty, clean, same) = close-settles b r idle in
    subst (λ w. Explains (close b r).received w) same
      (settled-Explains (close b r) end flight empty clean)
