-- ===== src/Cmd/Tail/Agreement.antt =====
-- tailLines and lastLines are two ways to find the last lines, and agree on a text that does not
-- begin with a newline.
use localapp.Base.{
  ℕ, zero, suc, ◌+◌, ◌≤◌, ◌<◌, ◌≡◌, ◌≢◌, refl, ap, sym, ◌∙◌, true, false, Bool-cases, inl, inr,
  some, [], ◌∷◌, length, take, drop, get_elem?, ◌==◌, ==→eq, if◌then◌else◌, arith,
}
use localapp.Text.{Str, str_eq, last_index_byte}
use localapp.Logstream.{newline}
use localapp.Cmd.Tail.{byte_at, line_end, scan_back, last_lines, tail_loop, tail_lines}

-- One byte more in front of the end.
last_index_byte-take-suc :
    (i : ℕ) (text : Str)
    → i < length text
    → last_index_byte newline (take (suc i) text)
      ≡ (if byte_at text i == newline then some i else last_index_byte newline (take i text))
unfolding last_index_byte
last_index_byte-take-suc i [] h = absurd (omega arith)
last_index_byte-take-suc zero (c ∷ s) h = ground arith
last_index_byte-take-suc (suc i) (c ∷ s) h = ground (arith, last_index_byte-take-suc i s)

pub tail_loop-at_newline :
    (i : ℕ) (text : Str) (m : ℕ)
    → i < length text
    → (byte_at text i == newline) ≡ true
    → tail_loop (suc m) text (suc i) ≡ tail_loop m text i
unfolding tail_loop
tail_loop-at_newline i text m h c =
    let e : (suc i == 0) ≡ false = ground arith in rw (e, last_index_byte-take-suc i text h, c) refl

pub tail_loop-before_newline :
    (i : ℕ) (text : Str) (m : ℕ)
    → 0 < i
    → i < length text
    → (byte_at text i == newline) ≡ false
    → tail_loop (suc m) text (suc i) ≡ tail_loop (suc m) text i
unfolding tail_loop
tail_loop-before_newline i text m p h c =
    let e : (suc i == 0) ≡ false = ground arith in
    let z : (i == 0) ≡ false = ground arith in rw (e, z, last_index_byte-take-suc i text h, c) refl

tail_loop-start :
    (text : Str) (m : ℕ)
    → 0 < length text
    → (byte_at text 0 == newline) ≡ false
    → tail_loop (suc m) text 1 ≡ text
unfolding tail_loop last_index_byte
tail_loop-start [] m h f = absurd (omega arith)
tail_loop-start (c ∷ s) m h f = ground arith

scan_back-at_newline :
    (i : ℕ) (text : Str) (n count : ℕ)
    → (byte_at text i == newline) ≡ true
    → scan_back (suc i) text n count
      ≡ (if suc count == n then drop (suc i) text else scan_back i text n (suc count))
unfolding scan_back
scan_back-at_newline i text n count c = rw c refl

scan_back-before_newline :
    (i : ℕ) (text : Str) (n count : ℕ)
    → (byte_at text i == newline) ≡ false
    → scan_back (suc i) text n count ≡ scan_back i text n count
unfolding scan_back
scan_back-before_newline i text n count c = rw c refl

scan_back-start : (text : Str) (n count : ℕ) → scan_back 0 text n count ≡ text
unfolding scan_back
scan_back-start text n count = refl

pub tail_loop-done : (text : Str) (i : ℕ) → tail_loop 0 text i ≡ drop (suc i) text
unfolding tail_loop
tail_loop-done text i = refl

-- At a newline one line less is left to find; `on` is the rest of the scan.
count_newline :
    (i : ℕ) (text : Str) (n count k : ℕ)
    → ((m : ℕ)
        → n ≡ suc (suc count + m)
        → tail_loop (suc m) text i ≡ scan_back i text n (suc count))
    → n ≡ suc (count + k)
    → tail_loop k text i
      ≡ (if suc count == n then drop (suc i) text else scan_back i text n (suc count))
count_newline i text n count zero on e =
    let d : (suc count == n) ≡ true = ground arith in rw d (tail_loop-done text i)
count_newline i text n count (suc k) on e =
    let d : (suc count == n) ≡ false = ground arith in rw d (on k (omega arith))

tail_loop-scan_back :
    (i : ℕ) (text : Str) (m n count : ℕ)
    → 0 < i
    → i ≤ length text
    → n ≡ suc (count + m)
    → (byte_at text 0 == newline) ≡ false
    → tail_loop (suc m) text i ≡ scan_back i text n count
tail_loop-scan_back zero text m n count p h e f = absurd (omega arith)
tail_loop-scan_back (suc zero) text m n count p h e f =
    tail_loop-start text m (omega arith) f
    ∙ sym (scan_back-start text n count)
    ∙ sym (scan_back-before_newline 0 text n count f)
tail_loop-scan_back (suc (suc i)) text m n count p h e f =
    elim (Bool-cases (byte_at text (suc i) == newline)) [
      | inr c ↦
          tail_loop-before_newline (suc i) text m (omega arith) (omega arith) c
          ∙ tail_loop-scan_back (suc i) text m n count (omega arith) (omega arith) e f
          ∙ sym (scan_back-before_newline (suc i) text n count c)
      | inl c ↦
          tail_loop-at_newline (suc i) text m (omega arith) c
          ∙ count_newline (suc i) text n count m
              (λ m' e'.
                tail_loop-scan_back (suc i) text m' n (suc count) (omega arith) (omega arith) e' f)
              e
          ∙ sym (scan_back-at_newline (suc i) text n count c)
    ]

pub line_end-le : (text : Str) → line_end text ≤ length text
unfolding line_end
line_end-le text = ground arith

line_end-pos : (c : ℕ) (s : Str) → (c == newline) ≡ false → 0 < line_end (c ∷ s)
unfolding line_end
line_end-pos c [] f = ground arith
line_end-pos c (d ∷ s) f = ground arith

-- On a text that does not start with a newline, the tailLines of logcat and the lastLines of logs
-- return the same, for any number of lines.
pub tail_lines-last_lines :
    (text : Str) (n : ℕ) → get_elem? text 0 ≢ some newline → tail_lines text n ≡ last_lines text n
unfolding tail_lines last_lines line_end str_eq
tail_lines-last_lines [] n h = ground arith
tail_lines-last_lines (c ∷ s) zero h = refl
tail_lines-last_lines (c ∷ s) (suc n) h =
    let f : (c == newline) ≡ false = elim (Bool-cases (c == newline)) [
      | inl e ↦ absurd (h (ap some (==→eq c newline e)))
      | inr e ↦ e
    ] in
    let z : (suc n == 0) ≡ false = ground arith in
    rw z (
      tail_loop-scan_back (line_end (c ∷ s)) (c ∷ s) n (suc n) 0 (line_end-pos c s f)
        (line_end-le (c ∷ s)) (omega arith) f)
