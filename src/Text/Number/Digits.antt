-- ===== src/Text/Number/Digits.antt =====
-- What Itoa writes consists of digits.
use localapp.Base.{ℕ, zero, suc, ◌≡◌, true, ◌&&◌, Bool-cases, inl, inr, All, [], arith, leb, ltb}
use localapp.Text.{Str}
use localapp.Text.Number.{write_digits, itoa}

abbrev pub IsDigits : Str → Type 0
IsDigits s = All (λ c. (leb b'0' c && leb c b'9') ≡ true) s

write_digits-IsDigits :
    (fuel n : ℕ) (rest : Str) → IsDigits rest → IsDigits (write_digits fuel n rest)
unfolding write_digits
write_digits-IsDigits zero n rest h = h
write_digits-IsDigits (suc fuel) n rest h = elim (Bool-cases (ltb n 10)) [
  | inl e ↦ rw e (ground arith, h)
  | inr e ↦ rw e (write_digits-IsDigits fuel _ _ (ground arith, h))
]

pub itoa-IsDigits : (n : ℕ) → IsDigits (itoa n)
unfolding itoa
itoa-IsDigits n = write_digits-IsDigits (suc n) n [] tt
