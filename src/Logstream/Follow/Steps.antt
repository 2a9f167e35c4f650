-- ===== src/Logstream/Follow/Steps.antt =====
-- The steps of a session, and the piece of the stream that its client shows.
use localapp.Base.{
  ℕ, ◌^◌, ◌<◌, ◌≡◌, ◌≢◌, refl, ap, sym, ◌∙◌, true, false, Bool, Option, none, some, List, [], ◌∷◌,
  ◌++◌, arith, length, length-append, append_assoc, subst,
}
use localapp.Text.{Str}
use localapp.Logstream.{Entry, append_entry, new_entry, Reading, read_entry}
use localapp.Logstream.Window.{Holds, new_entry-Holds, append_entry-Holds}
use localapp.Logstream.Stream.{Frame, wake_event, keep_alive_event}
use localapp.Logstream.Follow.{
  Session, receive, or_new, Happening, output, wake, keep_alive, evicted, on_wake, on_keep_alive,
  step, written,
}
use localapp.Logstream.Follow.Pieces.{Keeps, IsPiece, IsFollowing, read_entry-IsRead, woken}

or_new-Keeps :
    (total text k : Str) (clock : ℕ) (e : Option Entry)
    → length (total ++ text) < 2 ^ 64
    → Keeps total e
    → Keeps (total ++ text) (some (append_entry text clock (or_new k e)))
or_new-Keeps total text k clock none small h =
    append_entry-Holds total text clock (new_entry k) small
      (subst (λ t. Holds t (new_entry k)) (sym h) (new_entry-Holds k))
or_new-Keeps total text k clock (some e) small h = append_entry-Holds total text clock e small h

wake-IsFollowing :
    (closed pending : Bool) (s : Session)
    → length s.total < 2 ^ 64
    → IsFollowing s
    → IsFollowing (on_wake closed pending s)
wake-IsFollowing true pending s small f = f
wake-IsFollowing false false s small f = f
wake-IsFollowing false true s small f =
    taken (wake_event r)
      (woken s f.later r f.piece (read_entry-IsRead s.total s.entry s.offset small f.keeps))
  where
    r : Reading
    r = read_entry s.entry s.offset

    taken :
        (e : Option Frame)
        → IsPiece s.total (receive s e).shown (receive s e).offset []
        → IsFollowing (receive (record s { pending = false }) e)
    taken none p = record { keeps = f.keeps; later = []; piece = p; settled = λ _. refl }
    taken (some e) p = record { keeps = f.keeps; later = []; piece = p; settled = λ _. refl }

keep_alive-IsFollowing :
    (closed : Bool) (e : Option Frame) (s : Session)
    → IsFollowing s
    → IsFollowing (on_keep_alive closed e s)
keep_alive-IsFollowing true e s f = f
keep_alive-IsFollowing false none s f = f
keep_alive-IsFollowing false (some e) s f = record {
  keeps = f.keeps;
  later = f.later;
  piece = f.piece;
  settled = f.settled;
}

on_wake-total : (closed pending : Bool) (s : Session) → (on_wake closed pending s).total ≡ s.total
on_wake-total true pending s = refl
on_wake-total false false s = refl
on_wake-total false true s = taken (wake_event (read_entry s.entry s.offset))
  where
    taken : (e : Option Frame) → (receive (record s { pending = false }) e).total ≡ s.total
    taken none = refl
    taken (some e) = refl

on_keep_alive-total :
    (closed : Bool) (e : Option Frame) (s : Session) → (on_keep_alive closed e s).total ≡ s.total
on_keep_alive-total true e s = refl
on_keep_alive-total false none s = refl
on_keep_alive-total false (some e) s = refl

pub step-IsFollowing :
    (s : Session) (h : Happening) (hs : List Happening)
    → length (s.total ++ written (h ∷ hs)) < 2 ^ 64
    → h ≢ evicted
    → IsFollowing s
    → IsFollowing (step s h)
unfolding step written
step-IsFollowing s (output text clock) hs small stays f = record {
  keeps =
      or_new-Keeps s.total text s.key clock s.entry
        (omega (
          arith,
          length-append s.total text,
          length-append s.total (text ++ written hs),
          length-append text (written hs),
        ))
        f.keeps;
  later = f.later ++ text;
  piece = record {
    before = f.piece.before;
    sent = f.piece.sent;
    split =
        ap (λ t. t ++ text) f.piece.split
        ∙ append_assoc (f.piece.before ++ f.piece.sent) f.later text;
    place = f.piece.place;
    parts = f.piece.parts;
  };
  settled = λ p. absurd cc;
}
step-IsFollowing s wake hs small stays f =
    wake-IsFollowing s.closed s.pending s (omega (arith, length-append s.total (written hs))) f
step-IsFollowing s (keep_alive alive) hs small stays f =
    keep_alive-IsFollowing s.closed (keep_alive_event alive s.offset) s f
step-IsFollowing s evicted hs small stays f = absurd (stays refl)

pub step-total :
    (s : Session) (h : Happening) (hs : List Happening)
    → (step s h).total ++ written hs ≡ s.total ++ written (h ∷ hs)
unfolding step written
step-total s (output text clock) hs = append_assoc s.total text (written hs)
step-total s wake hs = ap (λ t. t ++ written hs) (on_wake-total s.closed s.pending s)
step-total s (keep_alive alive) hs =
    ap (λ t. t ++ written hs) (on_keep_alive-total s.closed (keep_alive_event alive s.offset) s)
step-total s evicted hs = refl
