-- ===== src/Logstream/Follow/Pieces.antt =====
-- What a client shows, as a piece of the stream, and what one event makes of it.
use localapp.Base.{
  ℕ, ◌^◌, ◌<◌, ◌≡◌, ◌⊎◌, ap, sym, ◌∙◌, true, false, not, ◌&&◌, Option, none, some, [], All,
  All-unappend, ◌++◌, arith, length, drop, take, take-append-drop, drop-length-append, append-nil,
  append_assoc, ◌==◌, Bool-cases, inl, inr, subst,
}
use localapp.Text.{Str, str_eq}
use localapp.Text.Order.{str_eq→eq}
use localapp.Text.Utf8.{to_valid_utf8, to_valid_utf8_of_ascii}
use localapp.Logstream.{Entry, Reading, read_entry}
use localapp.Logstream.Window.{Holds, read_entry-IsReading}
use localapp.Logstream.Stream.{wake_event}
use localapp.Logstream.Follow.{Session, receive}

-- The entry that the store keeps for the service, which wrote `total`.
abbrev pub Keeps : Str → Option Entry → Type 0
Keeps total none = total ≡ []
Keeps total (some e) = Holds total e

-- A piece of the stream, and what a client shows that was sent it in parts: every part has lost
-- what is not UTF-8 in it, so also a code point that two parts share.
pub data IsSent : Str → Str → Type 0 where
  whole : (t : Str) → IsSent t (to_valid_utf8 t)
  more : (sent shown t : Str) → IsSent sent shown → IsSent (sent ++ t) (shown ++ to_valid_utf8 t)

-- ASCII output is shown as it was sent, however it was parted.
IsSent-ascii : (sent shown : Str) → IsSent sent shown → All (λ c. c < 128) sent → shown ≡ sent
IsSent-ascii sent shown (whole t) h = to_valid_utf8_of_ascii t h
IsSent-ascii sent shown (more sent' shown' t p) h =
    let (first, last) = All-unappend (λ c. c < 128) sent' t h in
    rw (IsSent-ascii sent' shown' p first, to_valid_utf8_of_ascii t last)

-- What is shown was sent as a piece of the stream that ends at the offset, and `later` is what
-- follows.
pub record IsPiece (total shown : Str) (offset : ℕ) (later : Str) : Type 0 where
  pub before : Str
  pub sent : Str
  pub split : total ≡ (before ++ sent) ++ later
  pub place : offset ≡ length (before ++ sent)
  pub parts : IsSent sent shown

-- The store keeps the stream, the client shows a piece of it, and without a signal it shows
-- everything up to the end.
pub record IsFollowing (s : Session) : Type 0 where
  pub keeps : Keeps s.total s.entry
  pub later : Str
  pub piece : IsPiece s.total s.shown s.offset later
  pub settled : s.pending ≡ false → later ≡ []

pub IsPiece-end :
    (start : ℕ) (total : Str) → IsPiece total (to_valid_utf8 (drop start total)) (length total) []
IsPiece-end start total = record {
  before = take start total;
  sent = drop start total;
  split = sym (take-append-drop start total) ∙ sym (append-nil _);
  place = ap length (sym (take-append-drop start total));
  parts = whole (drop start total);
}

drop-IsPiece :
    (total shown : Str) (offset : ℕ) (later : Str)
    → IsPiece total shown offset later
    → drop offset total ≡ later
drop-IsPiece total shown offset later p =
    ap (λ (n : ℕ). drop n total) p.place
    ∙ ap (drop (length (p.before ++ p.sent))) p.split
    ∙ drop-length-append (p.before ++ p.sent) later

pub IsPiece-append :
    (total shown : Str) (offset : ℕ) (later : Str)
    → IsPiece total shown offset later
    → IsPiece total (shown ++ to_valid_utf8 (drop offset total)) (length total) []
IsPiece-append total shown offset later p =
    let joined : total ≡ p.before ++ (p.sent ++ drop offset total) =
      p.split
      ∙ append_assoc p.before p.sent later
      ∙ ap (λ (t : Str). p.before ++ (p.sent ++ t))
          (sym (drop-IsPiece total shown offset later p)) in
    record {
      before = p.before;
      sent = p.sent ++ drop offset total;
      split = joined ∙ sym (append-nil _);
      place = ap length joined;
      parts = more p.sent shown (drop offset total) p.parts;
    }

-- A reading, whether there is an entry or not: the bytes from the offset on, or a whole window.
pub record IsRead (total : Str) (offset : ℕ) (r : Reading) : Type 0 where
  pub next : r.next ≡ length total
  pub text :
      ((r.reset ≡ false) × (r.text ≡ drop offset total))
      ⊎ ((r.reset ≡ true) × ((n : ℕ) × (r.text ≡ drop n total)))

pub read_entry-IsRead :
    (total : Str) (entry : Option Entry) (offset : ℕ)
    → length total < 2 ^ 64
    → Keeps total entry
    → IsRead total offset (read_entry entry offset)
unfolding read_entry
read_entry-IsRead total none offset small k = elim (Bool-cases (offset == 0)) [
  | inl t ↦
      let z : offset ≡ 0 = ground arith in
      record {
        next = ap length (sym k);
        text = inl (ap not t, sym k ∙ ap (λ (n : ℕ). drop n total) (sym z));
      }
  | inr t ↦ record { next = ap length (sym k); text = inr (ap not t, (0, sym k)) }
]
read_entry-IsRead total (some e) offset small k =
    let r = read_entry-IsReading total e offset small k in
    record {
      next = r.next;
      text = elim r.text [ inl p ↦ inl (p.0, p.3) | inr p ↦ inr (p.0, (e.start, p.2)) ];
    }

-- What the client shows after a wake-up is a piece up to the very end.
pub woken :
    (s : Session) (later : Str) (r : Reading)
    → IsPiece s.total s.shown s.offset later
    → IsRead s.total s.offset r
    → IsPiece s.total (receive s (wake_event r)).shown (receive s (wake_event r)).offset []
unfolding wake_event
woken s later r p k = elim (Bool-cases (str_eq r.text [] && not r.reset)) [
  | inl t ↦ rw t (
      let q : str_eq r.text [] ≡ true = ground arith in
      let f : r.reset ≡ false = ground arith in
      let e : later ≡ [] = elim k.text [
        | inl d ↦
            sym (drop-IsPiece s.total s.shown s.offset later p) ∙ sym d.1 ∙ str_eq→eq r.text [] q
        | inr d ↦ absurd (cc)
      ] in
      subst (IsPiece s.total s.shown s.offset) e p)
  | inr t ↦ rw t (elim k.text [
    | inl d ↦ rw (d.0, d.1, k.next) (IsPiece-append s.total s.shown s.offset later p)
    | inr d ↦ rw (d.0, d.1.1, k.next) (IsPiece-end d.1.0 s.total)
  ])
]
