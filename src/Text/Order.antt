-- ===== src/Text/Order.antt =====
-- Equality and order of strings.
use localapp.Base.{◌≡◌, ◌≢◌, ◌↔◌, inl, inr, refl, true, false, [], ◌∷◌, arith, Bool-cases}
use localapp.Text.{Str, str_eq, str_lt}

pub str_eq→eq : (a b : Str) → str_eq a b ≡ true → a ≡ b
unfolding str_eq
str_eq→eq [] [] h = refl
str_eq→eq [] (y ∷ ys) h = cc
str_eq→eq (x ∷ xs) [] h = cc
str_eq→eq (x ∷ xs) (y ∷ ys) h = ground (arith, str_eq→eq xs ys)

pub str_eq_refl : (a : Str) → str_eq a a ≡ true
unfolding str_eq
str_eq_refl [] = refl
str_eq_refl (x ∷ xs) = ground (arith, str_eq_refl xs)

pub str_eq_iff : (a b : Str) → (str_eq a b ≡ true) ↔ (a ≡ b)
str_eq_iff a b = (str_eq→eq a b, λ e. rw e (str_eq_refl b))

pub str_eq-eq-false : (a b : Str) → a ≢ b → str_eq a b ≡ false
str_eq-eq-false a b h = ground (arith, str_eq_iff a b)

str_lt_irrefl : (a : Str) → str_lt a a ≡ false
unfolding str_lt
str_lt_irrefl [] = refl
str_lt_irrefl (x ∷ xs) = ground (arith, str_lt_irrefl xs)

pub str_lt_trans : (a b c : Str) → str_lt a b ≡ true → str_lt b c ≡ true → str_lt a c ≡ true
unfolding str_lt
str_lt_trans [] [] c h k = cc
str_lt_trans [] (y ∷ ys) [] h k = cc
str_lt_trans [] (y ∷ ys) (z ∷ zs) h k = refl
str_lt_trans (x ∷ xs) [] c h k = cc
str_lt_trans (x ∷ xs) (y ∷ ys) [] h k = cc
str_lt_trans (x ∷ xs) (y ∷ ys) (z ∷ zs) h k = ground (arith, str_lt_trans xs ys zs)

-- Of two different strings one is the smaller.
pub str_lt_total : (a b : Str) → a ≢ b → str_lt a b ≡ false → str_lt b a ≡ true
unfolding str_lt
str_lt_total [] [] n h = absurd (n refl)
str_lt_total [] (y ∷ ys) n h = cc
str_lt_total (x ∷ xs) [] n h = refl
str_lt_total (x ∷ xs) (y ∷ ys) n h =
    ground (arith, str_lt_total xs ys, λ (p : x ≡ y) (e : xs ≡ ys). n (cc))

pub ne_of_str_lt : (a b : Str) → str_lt a b ≡ true → a ≢ b
ne_of_str_lt a b h e = cc (str_lt_irrefl b, subst_lt)
  where
    subst_lt : str_lt b b ≡ true
    subst_lt = rw e at h

pub str_lt_asymm : (a b : Str) → str_lt a b ≡ true → str_lt b a ≡ false
str_lt_asymm a b h = elim (Bool-cases (str_lt b a)) [
  | inl e ↦ cc (str_lt_trans a b a h e, str_lt_irrefl a)
  | inr e ↦ e
]
