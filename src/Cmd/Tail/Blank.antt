-- ===== src/Cmd/Tail/Blank.antt =====
-- tailLines on a text that starts with a newline.
use localapp.Base.{
  ℕ, zero, suc, ◌+◌, ◌-◌, ◌≤◌, ◌<◌, ◌≡◌, ◌⊎◌, refl, ap, ◌∙◌, true, false, Bool-cases, inl, inr,
  some, [], ◌∷◌, length, drop, get_elem?, ltb, ◌==◌, if◌then◌else◌, arith,
}
use localapp.Text.{Str, str_eq}
use localapp.Logstream.{newline, count_lines}
use localapp.Logstream.Lines.{lines, count_lines-lines}
use localapp.Cmd.Tail.Lines.{
  IsTail, last_lines-IsTail, lines-drop_past, lines-drop-suc, lines-drop_last,
}
use localapp.Cmd.Tail.{byte_at, line_end, last_lines, tail_loop, tail_lines}
use localapp.Cmd.Tail.Agreement.{
  tail_loop-at_newline, tail_loop-before_newline, tail_loop-done, line_end-le,
}

-- The newlines in front of `i`.
newlines_below : ℕ → Str → ℕ
newlines_below zero text = 0
newlines_below (suc i) text = (if byte_at text i == newline then 1 else 0) + newlines_below i text

lines-newlines_below :
    (i : ℕ) (text : Str)
    → i < length text
    → newlines_below i text + lines (drop i text) ≡ lines text
unfolding newlines_below
lines-newlines_below zero text h = omega arith
lines-newlines_below (suc i) text h =
    omega (arith, lines-drop-suc i text h, lines-newlines_below i text (omega arith))

newlines_below-pos :
    (i : ℕ) (text : Str) → (byte_at text 0 == newline) ≡ true → 0 < newlines_below (suc i) text
unfolding newlines_below
newlines_below-pos zero text f = rw f (omega arith)
newlines_below-pos (suc i) text f = ground (arith, newlines_below-pos i text f)

tail_loop-drops :
    (i : ℕ) (text : Str) (m : ℕ)
    → i ≤ length text
    → (byte_at text 0 == newline) ≡ true
    → newlines_below i text ≤ m
    → tail_loop m text i ≡ drop 1 text
unfolding newlines_below
tail_loop-drops zero text zero h f k = tail_loop-done text 0
tail_loop-drops zero text (suc m) h f k = unfold tail_loop in refl
tail_loop-drops (suc zero) text zero h f k = absurd (ground arith)
tail_loop-drops (suc zero) text (suc m) h f k =
    tail_loop-at_newline 0 text m (omega arith) f
    ∙ tail_loop-drops 0 text m (omega arith) f (omega arith)
tail_loop-drops (suc (suc i)) text zero h f k =
    absurd (omega (arith, newlines_below-pos (suc i) text f))
tail_loop-drops (suc (suc i)) text (suc m) h f k =
    elim (Bool-cases (byte_at text (suc i) == newline)) [
      | inl c ↦
          tail_loop-at_newline (suc i) text m (omega arith) c
          ∙ tail_loop-drops (suc i) text m (omega arith) f (ground arith)
      | inr c ↦
          tail_loop-before_newline (suc i) text m (omega arith) (omega arith) c
          ∙ tail_loop-drops (suc i) text (suc m) (omega arith) f (ground arith)
    ]

newlines_below-other :
    (i : ℕ) (text : Str)
    → (byte_at text i == newline) ≡ false
    → newlines_below (suc i) text ≡ newlines_below i text
unfolding newlines_below
newlines_below-other i text e = rw e (omega arith)

byte-get :
    (s : Str) (i : ℕ)
    → get_elem? s i ≡ some newline
    → ((byte_at s i == newline) ≡ true) × (i < length s)
byte-get [] i h = cc
byte-get (c ∷ s) zero h = (ground arith, omega arith)
byte-get (c ∷ s) (suc i) h = let (e, lt) = byte-get s i h in (e, omega arith)

-- Behind a newline there are fewer lines.
lines-behind :
    (cut : ℕ) (text : Str)
    → get_elem? text cut ≡ some newline
    → count_lines (drop (suc cut) text) < count_lines text
unfolding newlines_below
lines-behind cut text h =
    let (e, lt) = byte-get text cut h in
    elim (Bool-cases (ltb (suc cut) (length text))) [
      | inl k ↦ ground (
        arith,
        lines-newlines_below (suc cut) text,
        count_lines-lines text,
        count_lines-lines (drop (suc cut) text),
      )
      | inr k ↦ ground (
        arith,
        lines-newlines_below cut text,
        count_lines-lines text,
        count_lines-lines (drop (suc cut) text),
        lines-drop_last cut text,
        lines-drop_past (suc cut) text,
      )
    ]

whole_at :
    (text r : Str) (n cut : ℕ)
    → 0 < n
    → r ≡ drop cut text
    → (cut ≡ 0) ⊎ ((count_lines r ≡ n) × (get_elem? text (cut - 1) ≡ some newline))
    → count_lines text ≤ n
    → r ≡ text
whole_at text r n zero p e h k = e
whole_at text r n (suc cut) p e (inl z) k = absurd (omega arith)
whole_at text r n (suc cut) p e (inr (full, h)) k =
    let at : get_elem? text cut ≡ some newline = ap (get_elem? text) (omega arith) ∙ h in
    absurd (omega (arith, lines-behind cut text at, ap count_lines e))

-- The last lines are all of the text, if it has no more lines than asked for.
whole : (text r : Str) (n : ℕ) → 0 < n → IsTail n text r → count_lines text ≤ n → r ≡ text
whole text r n p t k = whole_at text r n t.cut p t.rest t.full k

-- No newline that separates two lines lies behind the last line's end.
newlines_below-line_end :
    (text : Str) → 0 < length text → newlines_below (line_end text) text + 1 ≡ count_lines text
unfolding line_end
newlines_below-line_end text h =
    let k : length text ≡ suc (length text - 1) = omega arith in
    let all : newlines_below (length text - 1) text + 1 ≡ count_lines text = omega (
      arith,
      lines-newlines_below (length text - 1) text (omega arith),
      lines-drop_last (length text - 1) text k,
      count_lines-lines text,
    ) in
    elim (Bool-cases (byte_at text (length text - 1) == newline)) [
      | inl e ↦ rw e all
      | inr e ↦ rw e (
          ap (λ i. newlines_below i text + 1) k
          ∙ ap (λ m. m + 1) (newlines_below-other (length text - 1) text e)
          ∙ all)
    ]

-- On a text that starts with a newline and has no more lines than the positive number that is asked
-- for, tailLines drops the first byte, while lastLines returns all of the text.
pub tail_lines-drops :
    (text : Str) (n : ℕ)
    → 0 < n
    → get_elem? text 0 ≡ some newline
    → count_lines text ≤ n
    → (tail_lines text n ≡ drop 1 text) × (last_lines text n ≡ text)
unfolding tail_lines str_eq
tail_lines-drops [] n p h k = cc
tail_lines-drops (c ∷ s) n p h k =
    let z : (n == 0) ≡ false = ground arith in
    let f : (c == newline) ≡ true = ground arith in
    let text : Str = c ∷ s in
    (
      rw z (
          tail_loop-drops (line_end text) text n (line_end-le text) f
            (omega (arith, newlines_below-line_end text (omega arith)))),
      whole text (last_lines text n) n p (last_lines-IsTail text n p) k,
    )
