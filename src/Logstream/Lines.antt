-- ===== src/Logstream/Lines.antt =====
-- The lines of a buffer, and the loop of trim that steps over them.
use localapp.Base.{
  ℕ, zero, suc, ◌+◌, ◌≤◌, ◌<◌, ◌≡◌, ◌≢◌, ◌⊎◌, refl, ap, true, false, some, [], ◌∷◌, arith, length,
  drop, length-drop, drop-add, ◌==◌, if◌then◌else◌, Bool-cases, Option-cases, inl, inr,
}
use localapp.Text.{Str, index_byte}
use localapp.Logstream.{newline, count_lines, next_line, cut_lines}

-- Lines, counted from the front.
unfoldable pub lines : Str → ℕ
lines [] = 0
lines (c ∷ []) = 1
lines (c ∷ d ∷ s) = (if c == newline then 1 else 0) + lines (d ∷ s)

pub count_lines-lines : (s : Str) → count_lines s ≡ lines s
unfolding count_lines lines
count_lines-lines [] = refl
count_lines-lines (c ∷ []) = ground arith
count_lines-lines (c ∷ d ∷ s) = omega (arith, count_lines-lines (d ∷ s))

lines-cons-le : (c : ℕ) (s : Str) → lines s ≤ lines (c ∷ s)
unfolding lines
lines-cons-le c [] = omega arith
lines-cons-le c (d ∷ s) = omega arith

pub lines-drop : (n : ℕ) (s : Str) → lines (drop n s) ≤ lines s
lines-drop zero s = omega arith
lines-drop (suc n) [] = omega arith
lines-drop (suc n) (c ∷ s) = omega (arith, lines-drop n s, lines-cons-le c s)

index_byte-lt : (c : ℕ) (s : Str) (i : ℕ) → index_byte c s ≡ some i → i < length s
unfolding index_byte
index_byte-lt c [] i h = cc
index_byte-lt c (x ∷ s) zero h = omega arith
index_byte-lt c (x ∷ s) (suc i) h =
    let k : i < length s = index_byte-lt c s i (ground arith) in omega arith

next_line-le : (s : Str) → next_line s ≤ length s
unfolding next_line
next_line-le s = elim (Option-cases (index_byte newline s)) [
  | inl e ↦ rw (e, next_line) (omega arith)
  | inr (i, e) ↦ rw (e, next_line) (index_byte-lt newline s i e)
]

next_line-cons : (c : ℕ) (s : Str) → (c == newline) ≡ true → next_line (c ∷ s) ≡ 1
unfolding next_line index_byte
next_line-cons c s h = ground arith

next_line-other :
    (c : ℕ) (s : Str)
    → (c == newline) ≡ false
    → next_line s ≢ 0
    → next_line (c ∷ s) ≡ suc (next_line s)
unfolding next_line index_byte
next_line-other c s h n = ground arith

-- Past a line there is one line less.
lines-next_line : (s : Str) → 1 < lines s → lines (drop (next_line s) s) + 1 ≡ lines s
unfolding lines
lines-next_line [] h = absurd (omega arith)
lines-next_line (c ∷ []) h = absurd (omega arith)
lines-next_line (c ∷ d ∷ s) h = elim (Bool-cases (c == newline)) [
  | inl e ↦ rw (next_line-cons c (d ∷ s) e) (ground arith)
  | inr e ↦
      let ih = lines-next_line (d ∷ s) (ground arith) in
      let n : next_line (d ∷ s) ≢ 0 = λ z. absurd (omega (arith, rw z at ih)) in
      rw (next_line-other c (d ∷ s) e n) (ground (arith, ih))
]

-- The cut lies in the buffer, and drops as many lines as were asked for, the last one excepted.
pub cut_lines_lem :
    (n : ℕ) (buf : Str) (cut : ℕ)
    → cut ≤ length buf
    → n < lines (drop cut buf) ⊎ n ≡ 0
    → (cut_lines n buf cut ≤ length buf)
      × (lines (drop (cut_lines n buf cut) buf) + n ≡ lines (drop cut buf))
unfolding cut_lines
cut_lines_lem zero buf cut h k = (h, omega arith)
cut_lines_lem (suc n) buf cut h (inr z) = absurd (omega arith)
cut_lines_lem (suc n) buf cut h (inl k) =
    let rest = drop cut buf in
    let next = cut + next_line rest in
    let one = lines-next_line rest (omega arith) in
    let at : lines (drop next buf) ≡ lines (drop (next_line rest) rest) =
      ap lines (drop-add cut (next_line rest) buf) in
    let (fits, same) =
      cut_lines_lem n buf next (omega (arith, next_line-le rest, length-drop cut buf))
        (inl (omega (arith, one, at))) in
    (fits, omega (arith, same, one, at))

-- A cut at the front, or right behind a newline.
