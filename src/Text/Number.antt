-- ===== src/Text/Number.antt =====
-- strconv.Atoi and strconv.Itoa.
pub mod Digits
use Prim.Native.Nat.{◌%◌, ◌/◌}
use localapp.Base.{
  ℕ, zero, suc, ◌+◌, ◌-◌, ◌*◌, ◌^◌, ◌≤◌, ◌<◌, ◌≡◌, refl, ap, ◌∙◌, true, false, ◌&&◌, Option, none,
  some, [], ◌∷◌, arith, ltb, leb, ◌==◌, if◌then◌else◌, ℤ, pos, negsuc, Bool-cases, inl, inr, ◌>>=◌,
}
use localapp.Text.{Str}

-- The digits, read from the left onto `n`.
unfoldable pub read_digits : ℕ → Str → Option ℕ
read_digits n [] = some n
read_digits n (c ∷ s) =
    let rest = read_digits (n * 10 + (c - b'0')) s in
    if leb b'0' c && leb c b'9' then rest else none

unfoldable pub read_number : Str → Option ℕ
read_number [] = none
read_number (c ∷ s) = read_digits 0 (c ∷ s)

abbrev positive : ℕ → Option ℤ
positive n = if ltb n (2 ^ 63) then some (pos n) else none

abbrev negative : ℕ → Option ℤ
negative zero = some (pos 0)
negative (suc n) = if ltb n (2 ^ 63) then some (negsuc n) else none

-- Atoi, `none` for an error: an optional sign, digits, and the range of int.
unfoldable pub atoi : Str → Option ℤ
unfolding read_number
atoi [] = none
atoi (c ∷ s) =
    if c == b'-'
    then read_number s >>= negative
    else if c == b'+'
    then read_number s >>= positive
    else read_number (c ∷ s) >>= positive

-- The digits of `n` before `rest`; the fuel bounds their number.
write_digits : ℕ → ℕ → Str → Str
write_digits zero n rest = rest
write_digits (suc fuel) n rest =
    let more = write_digits fuel (n / 10) ((b'0' + n % 10) ∷ rest) in
    if ltb n 10 then (b'0' + n) ∷ rest else more

-- Itoa, for a number that is not negative.
unfoldable pub itoa : ℕ → Str
unfolding write_digits
itoa n = write_digits (suc n) n []

read-digit :
    (n d : ℕ) (rest : Str)
    → d < 10
    → read_digits n ((b'0' + d) ∷ rest) ≡ read_digits (n * 10 + d) rest
unfolding read_digits
read-digit n d rest h =
    let ok : (leb b'0' (b'0' + d) && leb (b'0' + d) b'9') ≡ true = ground arith in
    rw ok (ap (λ (k : ℕ). read_digits k rest) (omega arith))

read-write :
    (fuel n : ℕ) (rest : Str)
    → n < fuel
    → read_digits 0 (write_digits fuel n rest) ≡ read_digits n rest
unfolding write_digits
read-write zero n rest h = absurd (omega (arith, h))
read-write (suc fuel) n rest h = elim (Bool-cases (ltb n 10)) [
  | inl e ↦
      rw e (read-digit 0 n rest (ground arith) ∙ ap (λ (k : ℕ). read_digits k rest) (omega arith))
  | inr e ↦ rw e (
      read-write fuel (n / 10) ((b'0' + n % 10) ∷ rest) (ground arith)
      ∙ read-digit (n / 10) (n % 10) rest (omega arith)
      ∙ ap (λ (k : ℕ). read_digits k rest) (omega arith))
]

-- The first digit.
first_digit :
    (fuel n : ℕ) (rest : Str)
    → n < fuel
    → (c : ℕ) × (t : Str) × (write_digits fuel n rest ≡ c ∷ t) × (b'0' ≤ c)
unfolding write_digits
first_digit zero n rest h = absurd (omega (arith, h))
first_digit (suc fuel) n rest h = elim (Bool-cases (ltb n 10)) [
  | inl e ↦ rw e (b'0' + n, rest, refl, omega arith)
  | inr e ↦ rw e (first_digit fuel (n / 10) ((b'0' + n % 10) ∷ rest) (ground arith))
]

read_end : (n : ℕ) → read_digits n [] ≡ some n
unfolding read_digits
read_end n = refl

-- Without a sign, the digits decide.
atoi_digit :
    (c : ℕ) (t : Str) (n : ℕ)
    → b'0' ≤ c
    → read_digits 0 (c ∷ t) ≡ some n
    → n < 2 ^ 63
    → atoi (c ∷ t) ≡ some (pos n)
unfolding atoi read_number
atoi_digit c t n digit k small =
    let minus : (c == b'-') ≡ false = ground arith in
    let plus : (c == b'+') ≡ false = ground arith in rw (minus, plus, k) (ground arith)

-- A number is read back from its digits.
pub atoi-itoa : (n : ℕ) → n < 2 ^ 63 → atoi (itoa n) ≡ some (pos n)
unfolding itoa
atoi-itoa n h =
    let (c, t, e, digit) = first_digit (suc n) n [] (omega arith) in
    rw e (atoi_digit c t n digit (rw e at (read-write (suc n) n [] (omega arith) ∙ read_end n)) h)
