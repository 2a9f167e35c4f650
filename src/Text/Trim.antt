-- ===== src/Text/Trim.antt =====
-- Trimming one byte off the ends.
use localapp.Base.{
  ℕ, ◌≡◌, refl, [], ◌∷◌, arith, ◌==◌, ◌+◌, ◌≤◌, Bool-cases, inl, inr, ◌≢◌, length, All,
}
use localapp.Text.{Str, trim_left, trim_right, trim, cons_unless}

-- The first byte, where there is one, is not `c`; so the last.
abbrev pub FirstIsNot : ℕ → Str → Type 0
FirstIsNot c [] = Unit
FirstIsNot c (x ∷ s) = x ≢ c

abbrev pub LastIsNot : ℕ → Str → Type 0
LastIsNot c [] = Unit
LastIsNot c (x ∷ []) = x ≢ c
LastIsNot c (x ∷ y ∷ s) = LastIsNot c (y ∷ s)

trim_left-FirstIsNot : (c : ℕ) (s : Str) → FirstIsNot c (trim_left c s)
unfolding trim_left
trim_left-FirstIsNot c [] = tt
trim_left-FirstIsNot c (x ∷ s) = elim (Bool-cases (x == c)) [
  | inl e ↦ rw e (trim_left-FirstIsNot c s)
  | inr e ↦ rw e (ground arith)
]

pub trim_left_of_FirstIsNot : (c : ℕ) (s : Str) → FirstIsNot c s → trim_left c s ≡ s
unfolding trim_left
trim_left_of_FirstIsNot c [] h = refl
trim_left_of_FirstIsNot c (x ∷ s) h = ground arith

cons_unless-LastIsNot : (c x : ℕ) (s : Str) → LastIsNot c s → LastIsNot c (cons_unless c x s)
cons_unless-LastIsNot c x [] h = elim (Bool-cases (x == c)) [
  | inl e ↦ rw e tt
  | inr e ↦ rw e (ground arith)
]
cons_unless-LastIsNot c x (y ∷ s) h = h

pub trim_right-LastIsNot : (c : ℕ) (s : Str) → LastIsNot c (trim_right c s)
unfolding trim_right
trim_right-LastIsNot c [] = tt
trim_right-LastIsNot c (x ∷ s) =
    cons_unless-LastIsNot c x (trim_right c s) (trim_right-LastIsNot c s)

pub trim_right_of_LastIsNot : (c : ℕ) (s : Str) → LastIsNot c s → trim_right c s ≡ s
unfolding trim_right
trim_right_of_LastIsNot c [] h = refl
trim_right_of_LastIsNot c (x ∷ []) h = ground arith
trim_right_of_LastIsNot c (x ∷ y ∷ s) h = rw (trim_right_of_LastIsNot c (y ∷ s) h)

cons_unless-FirstIsNot : (c x : ℕ) (s : Str) → x ≢ c → FirstIsNot c (cons_unless c x s)
cons_unless-FirstIsNot c x [] h = elim (Bool-cases (x == c)) [ inl e ↦ rw e tt | inr e ↦ rw e h ]
cons_unless-FirstIsNot c x (y ∷ s) h = h

trim_right-FirstIsNot : (c : ℕ) (s : Str) → FirstIsNot c s → FirstIsNot c (trim_right c s)
unfolding trim_right
trim_right-FirstIsNot c [] h = tt
trim_right-FirstIsNot c (x ∷ s) h = cons_unless-FirstIsNot c x (trim_right c s) h

pub trim_ends : (c : ℕ) (s : Str) → FirstIsNot c (trim c s) × LastIsNot c (trim c s)
unfolding trim
trim_ends c s = (
  trim_right-FirstIsNot c (trim_left c s) (trim_left-FirstIsNot c s),
  trim_right-LastIsNot c (trim_left c s),
)

pub trim_of_ends : (c : ℕ) (s : Str) → FirstIsNot c s → LastIsNot c s → trim c s ≡ s
unfolding trim
trim_of_ends c s h k = rw (trim_left_of_FirstIsNot c s h) (trim_right_of_LastIsNot c s k)

-- What holds of all bytes still holds, and nothing is added.
module _ {ℓ} (P : ℕ → Type ℓ) where
  trim_left-All : (c : ℕ) (s : Str) → All P s → All P (trim_left c s)
  unfolding trim_left
  trim_left-All c [] h = tt
  trim_left-All c (x ∷ s) h = elim (Bool-cases (x == c)) [
    | inl e ↦ rw e (trim_left-All c s h.1)
    | inr e ↦ rw e h
  ]

  cons_unless-All : (c x : ℕ) (s : Str) → P x → All P s → All P (cons_unless c x s)
  cons_unless-All c x [] p h = elim (Bool-cases (x == c)) [ inl e ↦ rw e tt | inr e ↦ rw e (p, tt) ]
  cons_unless-All c x (y ∷ s) p h = (p, h)

  trim_right-All : (c : ℕ) (s : Str) → All P s → All P (trim_right c s)
  unfolding trim_right
  trim_right-All c [] h = tt
  trim_right-All c (x ∷ s) h = cons_unless-All c x (trim_right c s) h.0 (trim_right-All c s h.1)

  trim-All : (c : ℕ) (s : Str) → All P s → All P (trim c s)
  unfolding trim
  trim-All c s h = trim_right-All c (trim_left c s) (trim_left-All c s h)

trim_left-le : (c : ℕ) (s : Str) → length (trim_left c s) ≤ length s
unfolding trim_left
trim_left-le c [] = omega arith
trim_left-le c (x ∷ s) = ground (arith, trim_left-le c s)

cons_unless-le : (c x : ℕ) (s : Str) → length (cons_unless c x s) ≤ length s + 1
cons_unless-le c x [] = ground arith
cons_unless-le c x (y ∷ s) = omega arith

trim_right-le : (c : ℕ) (s : Str) → length (trim_right c s) ≤ length s
unfolding trim_right
trim_right-le c [] = omega arith
trim_right-le c (x ∷ s) = omega (arith, trim_right-le c s, cons_unless-le c x (trim_right c s))

pub length-trim-le : (c : ℕ) (s : Str) → length (trim c s) ≤ length s
unfolding trim
length-trim-le c s = omega (arith, trim_right-le c (trim_left c s), trim_left-le c s)
