-- ===== src/Cmd/Tail/Lines.antt =====
-- lastLines returns the last lines.
use localapp.Base.{
  ℕ, zero, suc, ◌+◌, ◌-◌, ◌≤◌, ◌<◌, ◌≡◌, ◌⊎◌, refl, ap, ◌∙◌, true, false, Bool-cases, inl, inr,
  some, [], ◌∷◌, length, drop, get_elem?, ◌==◌, ==→eq, if◌then◌else◌, arith,
}
use localapp.Text.{Str, str_eq}
use localapp.Logstream.{newline, count_lines}
use localapp.Logstream.Lines.{lines, count_lines-lines}
use localapp.Cmd.Tail.{byte_at, line_end, scan_back, last_lines}

-- The end of the text from a line's start on, with at most `n` lines, and exactly `n` if it is not
-- all of the text.
pub record IsTail (n : ℕ) (text result : Str) : Type 0 where
  pub cut : ℕ
  pub rest : result ≡ drop cut text
  pub short : count_lines result ≤ n
  pub full : (cut ≡ 0) ⊎ ((count_lines result ≡ n) × (get_elem? text (cut - 1) ≡ some newline))

pub lines-drop-suc :
    (k : ℕ) (text : Str)
    → suc k < length text
    → lines (drop k text) ≡ (if byte_at text k == newline then 1 else 0) + lines (drop (suc k) text)
unfolding lines
lines-drop-suc k [] h = absurd (omega arith)
lines-drop-suc zero (c ∷ []) h = absurd (omega arith)
lines-drop-suc zero (c ∷ d ∷ s) h = refl
lines-drop-suc (suc k) (c ∷ s) h = lines-drop-suc k s (omega arith)

lines-nil : lines [] ≡ 0
unfolding lines
lines-nil = refl

pub lines-drop_past : (k : ℕ) (text : Str) → length text ≤ k → lines (drop k text) ≡ 0
unfolding lines
lines-drop_past zero [] h = refl
lines-drop_past (suc k) [] h = refl
lines-drop_past zero (c ∷ s) h = absurd (omega arith)
lines-drop_past (suc k) (c ∷ s) h = lines-drop_past k s (omega arith)

pub lines-drop_last : (k : ℕ) (text : Str) → length text ≡ suc k → lines (drop k text) ≡ 1
unfolding lines
lines-drop_last k [] h = absurd (omega arith)
lines-drop_last zero (c ∷ []) h = refl
lines-drop_last zero (c ∷ d ∷ s) h = absurd (omega arith)
lines-drop_last (suc k) (c ∷ s) h = lines-drop_last k s (omega arith)

get-byte_at :
    (s : Str) (i : ℕ)
    → i < length s
    → (byte_at s i == newline) ≡ true
    → get_elem? s i ≡ some newline
get-byte_at [] i h e = absurd (omega arith)
get-byte_at (c ∷ s) zero h e = ap some (==→eq c newline e)
get-byte_at (c ∷ s) (suc i) h e = get-byte_at s i (omega arith) e

scan_back-IsTail :
    (i : ℕ) (text : Str) (n count : ℕ)
    → i < length text
    → count < n
    → lines (drop i text) ≡ suc count
    → IsTail n text (scan_back i text n count)
unfolding scan_back
scan_back-IsTail zero text n count h k e = record {
  cut = 0;
  rest = refl;
  short = omega (arith, count_lines-lines text);
  full = inl refl;
}
scan_back-IsTail (suc i) text n count h k e = elim (Bool-cases (byte_at text i == newline)) [
  | inr c ↦
      rw c
        (scan_back-IsTail i text n count (omega arith) k (ground (arith, lines-drop-suc i text h)))
  | inl c ↦ elim (Bool-cases (suc count == n)) [
    | inl d ↦
        rw (c, d)
          (record {
            cut = suc i;
            rest = refl;
            short = ground (arith, count_lines-lines (drop (suc i) text));
            full = inr (
              ground (arith, count_lines-lines (drop (suc i) text)),
              ap (get_elem? text) (omega arith) ∙ get-byte_at text i (omega arith) c,
            );
          })
    | inr d ↦
        rw (c, d)
          (scan_back-IsTail i text n (suc count) (omega arith) (ground arith)
            (ground (arith, lines-drop-suc i text h)))
  ]
]

-- The scan may start at the last byte.
scan_back-line_end :
    (text : Str) (n : ℕ)
    → 0 < length text
    → scan_back (line_end text) text n 0 ≡ scan_back (length text - 1) text n 0
unfolding line_end
scan_back-line_end text n h = elim (Bool-cases (byte_at text (length text - 1) == newline)) [
  | inl e ↦ rw e refl
  | inr e ↦
      let k : length text ≡ suc (length text - 1) = omega arith in
      rw e (ap (λ i. scan_back i text n 0) k ∙ unfold scan_back in rw e refl)
]

last_lines-nil : (n : ℕ) → last_lines [] n ≡ []
unfolding last_lines str_eq
last_lines-nil n = ground arith

pub last_lines-IsTail : (text : Str) (n : ℕ) → 0 < n → IsTail n text (last_lines text n)
unfolding last_lines str_eq
last_lines-IsTail [] n h = rw (last_lines-nil n) (record {
  cut = 0;
  rest = refl;
  short = omega (arith, count_lines-lines [], lines-nil);
  full = inl refl;
})
last_lines-IsTail (c ∷ s) n h =
    let e : (n == 0) ≡ false = ground arith in
    rw (e, scan_back-line_end (c ∷ s) n (omega arith))
      (scan_back-IsTail (length (c ∷ s) - 1) (c ∷ s) n 0 (omega arith) h
        (lines-drop_last (length (c ∷ s) - 1) (c ∷ s) (omega arith)))
