-- ===== src/Logstream/Trim.antt =====
-- Where trim cuts the buffer.
use localapp.Base.{
  ℕ, zero, suc, ◌+◌, ◌-◌, ◌≤◌, ◌<◌, ◌≡◌, ◌⊎◌, refl, ap, sym, ◌∙◌, some, [], ◌∷◌, arith, length,
  drop, length-drop, drop-add, get_elem?, get_elem?-drop, ltb, Bool-cases, Option-cases, inl, inr,
  ltb→lt,
}
use native.Mathlib.Nat.{add-zero}
use localapp.Text.{Str, index_byte}
use localapp.Logstream.{newline, count_lines, next_line, cut_lines, to_boundary, cut_bytes, cut_for}
use localapp.Logstream.Lines.{lines, count_lines-lines, lines-drop, cut_lines_lem}

abbrev IsBoundary : Str → ℕ → Type 0
IsBoundary buf cut = (cut ≡ 0) ⊎ (get_elem? buf (cut - 1) ≡ some newline)

get_elem?-index : (c : ℕ) (s : Str) (i : ℕ) → index_byte c s ≡ some i → get_elem? s i ≡ some c
unfolding index_byte
get_elem?-index c [] i h = cc
get_elem?-index c (x ∷ s) zero h = ground arith
get_elem?-index c (x ∷ s) (suc i) h = get_elem?-index c s i (ground arith)

index-IsBoundary :
    (buf : Str) (cut i : ℕ)
    → index_byte newline (drop cut buf) ≡ some i
    → IsBoundary buf (cut + suc i)
index-IsBoundary buf cut i h = inr (
    ap (get_elem? buf) (omega arith)
    ∙ sym (get_elem?-drop cut i buf)
    ∙ get_elem?-index newline (drop cut buf) i h)

next_line-IsBoundary :
    (buf : Str) (cut : ℕ) → IsBoundary buf cut → IsBoundary buf (cut + next_line (drop cut buf))
unfolding next_line
next_line-IsBoundary buf cut h = elim (Option-cases (index_byte newline (drop cut buf))) [
  | inl e ↦ rw (e, next_line) (rw add-zero h)
  | inr (i, e) ↦ rw (e, next_line) (index-IsBoundary buf cut i e)
]

cut_lines-IsBoundary :
    (n : ℕ) (buf : Str) (cut : ℕ) → IsBoundary buf cut → IsBoundary buf (cut_lines n buf cut)
unfolding cut_lines
cut_lines-IsBoundary zero buf cut h = h
cut_lines-IsBoundary (suc n) buf cut h =
    cut_lines-IsBoundary n buf (cut + next_line (drop cut buf)) (next_line-IsBoundary buf cut h)

-- The kept text is the end of a line that alone passes the byte limit: no line begins in it.
abbrev IsLongLine : ℕ → Str → ℕ → Type 0
IsLongLine limit buf cut =
    (cut ≡ length buf - limit)
    × ((i : ℕ) → index_byte newline (drop cut buf) ≡ some i → length buf ≤ cut + suc i)

pub record CutBytes (limit : ℕ) (buf : Str) (cut c : ℕ) : Type 0 where
  later : cut ≤ c
  inside : c ≤ length buf
  within : length buf - c ≤ limit
  boundary : IsBoundary buf c ⊎ IsLongLine limit buf c
  kept : length buf - cut ≤ limit → c ≡ cut

long_line-CutBytes :
    (limit : ℕ) (buf : Str) (cut : ℕ)
    → cut ≤ length buf
    → limit < length buf - cut
    → CutBytes limit buf cut
        (to_boundary (length buf - limit) buf (index_byte newline (drop (length buf - limit) buf)))
long_line-CutBytes limit buf cut h k =
    let at = length buf - limit in
    elim (Option-cases (index_byte newline (drop at buf))) [
      | inl e ↦ rw e (record {
        later = omega arith;
        inside = omega arith;
        within = omega arith;
        boundary = inr (refl, λ i f. cc);
        kept = λ f. absurd (omega arith);
      })
      | inr (i, e) ↦ elim (Bool-cases (ltb (at + suc i) (length buf))) [
        | inl t ↦
            rw (e, t)
              (record {
                later = omega arith;
                inside = omega (arith, ltb→lt (at + suc i) (length buf) t);
                within = omega arith;
                boundary = inl (index-IsBoundary buf at i e);
                kept = λ f. absurd (omega arith);
              })
        | inr t ↦
            rw (e, t)
              (record {
                later = omega arith;
                inside = omega arith;
                within = omega arith;
                boundary = inr (refl, λ j f. ground (arith, e, f));
                kept = λ f. absurd (omega arith);
              })
      ]
    ]

cut_bytes-CutBytes :
    (limit : ℕ) (buf : Str) (cut : ℕ)
    → cut ≤ length buf
    → IsBoundary buf cut
    → CutBytes limit buf cut (cut_bytes limit buf cut)
unfolding cut_bytes
cut_bytes-CutBytes limit buf cut h b = elim (Bool-cases (ltb limit (length buf - cut))) [
  | inl e ↦ rw e (long_line-CutBytes limit buf cut h (ltb→lt limit (length buf - cut) e))
  | inr e ↦ rw e (record {
    later = omega arith;
    inside = h;
    within = ground arith;
    boundary = inl b;
    kept = λ _. refl;
  })
]

-- The cut that trim makes: within the buffer, with at most `n` lines and `limit` bytes behind it,
-- at a line boundary unless one line alone passes the byte limit, and no cut at all if nothing
-- passes a limit.
pub record IsCut (n limit : ℕ) (buf : Str) (cut : ℕ) : Type 0 where
  pub inside : cut ≤ length buf
  pub lines : count_lines (drop cut buf) ≤ n
  pub bytes : length (drop cut buf) ≤ limit
  pub boundary : IsBoundary buf cut ⊎ IsLongLine limit buf cut
  pub kept : count_lines buf ≤ n → length buf ≤ limit → cut ≡ 0

lines-drop_le : (m n : ℕ) (s : Str) → m ≤ n → lines (drop n s) ≤ lines (drop m s)
lines-drop_le m n s h =
    let split_at : n ≡ m + (n - m) = omega arith in
    let same : lines (drop n s) ≡ lines (drop (n - m) (drop m s)) =
      ap (λ (k : ℕ). lines (drop k s)) split_at ∙ ap lines (drop-add m (n - m) s) in
    omega (arith, same, lines-drop (n - m) (drop m s))

-- For a line limit of at least 1, what trim keeps has at most that many lines and at most the byte
-- limit, starts at a line boundary unless one line alone passes the byte limit, and is everything
-- if nothing passes a limit.
pub cut_for-IsCut : (n limit : ℕ) (buf : Str) → 1 ≤ n → IsCut n limit buf (cut_for n limit buf)
unfolding cut_for
cut_for-IsCut n limit buf h =
    let extra = count_lines buf - n in
    let first = cut_lines extra buf 0 in
    let counted = count_lines-lines buf in
    let (fits, fewer) = cut_lines_lem extra buf 0 (omega arith) (few extra (omega arith)) in
    let c = cut_bytes-CutBytes limit buf first fits (cut_lines-IsBoundary extra buf 0 (inl refl)) in
    let cut = cut_bytes limit buf first in
    record {
      inside = c.inside;
      lines = omega (
        arith,
        count_lines-lines (drop cut buf),
        lines-drop_le first cut buf c.later,
        fewer,
        counted,
      );
      bytes = omega (arith, length-drop cut buf, c.within);
      boundary = c.boundary;
      kept = λ k l. c.kept (omega arith) ∙ no_extra extra (omega arith);
    }
  where
    few : (k : ℕ) → (k ≡ count_lines buf - n) → (k < lines buf) ⊎ (k ≡ 0)
    few zero e = inr refl
    few (suc k) e = inl (omega (arith, count_lines-lines buf))

    no_extra : (k : ℕ) → k ≡ 0 → cut_lines k buf 0 ≡ 0
    no_extra zero e = unfold cut_lines in refl
    no_extra (suc k) e = absurd (omega arith)
