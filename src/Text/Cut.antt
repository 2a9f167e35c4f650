-- ===== src/Text/Cut.antt =====
-- strings.Cut for a separator of one byte.
use localapp.Base.{
  ℕ, ◌≡◌, refl, ap, ◌⊎◌, inl, inr, false, Bool-cases, Option, none, some, [], ◌∷◌, ◌++◌, arith,
  ◌==◌, ==→eq, if◌then◌else◌,
}
use localapp.Text.{Str, contains}

abbrev before : ℕ → Str × Option Str → Str × Option Str
before x (a, b) = (x ∷ a, b)

-- What stands before the first separator, and what stands behind it; `none`: there is no separator.
unfoldable pub cut : ℕ → Str → Str × Option Str
cut sep [] = ([], none)
cut sep (x ∷ s) = if x == sep then ([], some s) else before x (cut sep s)

pub cut-append :
    (sep : ℕ) (a b : Str) → contains sep a ≡ false → cut sep (a ++ sep ∷ b) ≡ (a, some b)
unfolding cut contains
cut-append sep [] b h = ground arith
cut-append sep (x ∷ a) b h = elim (Bool-cases (x == sep)) [
  | inl e ↦ cc (rw e at h)
  | inr e ↦ rw e (ap (before x) (cut-append sep a b (rw e at h)))
]

pub cut_of_contains : (sep : ℕ) (s : Str) → contains sep s ≡ false → cut sep s ≡ (s, none)
unfolding cut contains
cut_of_contains sep [] h = refl
cut_of_contains sep (x ∷ s) h = elim (Bool-cases (x == sep)) [
  | inl e ↦ cc (rw e at h)
  | inr e ↦ rw e (ap (before x) (cut_of_contains sep s (rw e at h)))
]

-- The parts make up the text again.
pub cut-join :
    (sep : ℕ) (s : Str)
    → ((cut sep s ≡ (s, none)) × (contains sep s ≡ false))
      ⊎ ((b : Str) × (cut sep s ≡ ((cut sep s).0, some b))
          × (s ≡ (cut sep s).0 ++ sep ∷ b)
          × (contains sep (cut sep s).0 ≡ false))
unfolding cut contains
cut-join sep [] = inl (refl, refl)
cut-join sep (x ∷ s) = elim (Bool-cases (x == sep)) [
  | inl e ↦ inr (s, rw e (refl), rw e (ap (λ (y : ℕ). y ∷ s) (==→eq x sep e)), rw e refl)
  | inr e ↦ elim (cut-join sep s) [
    | inl (f, free) ↦ inl (rw (e, f) refl, rw (e, free) refl)
    | inr (b, f, joined, free) ↦
        inr (b, rw e (ap (before x) f), rw e (ap (λ t. x ∷ t) joined), rw (e) (rw (e) free))
  ]
]
