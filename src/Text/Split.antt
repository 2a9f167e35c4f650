-- ===== src/Text/Split.antt =====
-- Splitting at a separator, and joining again.
use localapp.Base.{
  ℕ, ◌≡◌, refl, false, List, [], ◌∷◌, ◌++◌, ap, arith, ◌==◌, Bool-cases, inl, inr, All, ◌≢◌,
}
use localapp.Text.{Str, split, cons_head, contains}

cons_head-ne-nil : (x : ℕ) (ps : List Str) → cons_head x ps ≢ []
cons_head-ne-nil x [] h = cc
cons_head-ne-nil x (p ∷ ps) h = cc

pub split-ne-nil : (c : ℕ) (s : Str) → split c s ≢ []
unfolding split
split-ne-nil c [] h = cc
split-ne-nil c (x ∷ s) h = ground (arith, cons_head-ne-nil x (split c s))

-- A string that holds no separator is one part.
pub split_of_contains : (c : ℕ) (s : Str) → contains c s ≡ false → split c s ≡ s ∷ []
unfolding split contains
split_of_contains c [] h = refl
split_of_contains c (x ∷ s) h = ground (arith, split_of_contains c s)

-- A first part that holds no separator is split off.
pub split-append : (c : ℕ) (s t : Str) → contains c s ≡ false → split c (s ++ c ∷ t) ≡ s ∷ split c t
unfolding split contains
split-append c [] t h = ground arith
split-append c (x ∷ s) t h = ground (arith, split-append c s t)

-- strings.Join(parts, c), to state that splitting loses nothing.
unfoldable pub join : ℕ → List Str → Str
join c [] = []
join c (p ∷ []) = p
join c (p ∷ q ∷ ps) = p ++ c ∷ join c (q ∷ ps)

join-cons_head : (c x : ℕ) (ps : List Str) → ps ≢ [] → join c (cons_head x ps) ≡ x ∷ join c ps
unfolding join
join-cons_head c x [] h = absurd (h refl)
join-cons_head c x (p ∷ []) h = refl
join-cons_head c x (p ∷ q ∷ ps) h = refl

join-nil_cons : (c : ℕ) (ps : List Str) → ps ≢ [] → join c ([] ∷ ps) ≡ c ∷ join c ps
unfolding join
join-nil_cons c [] h = absurd (h refl)
join-nil_cons c (p ∷ ps) h = refl

pub join-split : (c : ℕ) (s : Str) → join c (split c s) ≡ s
unfolding split
join-split c [] = unfold join in refl
join-split c (x ∷ s) = ground (
  arith,
  join-split c s,
  join-nil_cons c (split c s) (split-ne-nil c s),
  join-cons_head c x (split c s) (split-ne-nil c s),
)

-- No part holds the separator.
abbrev pub IsFree : ℕ → Str → Type 0
IsFree c s = contains c s ≡ false

cons_head-IsFree :
    (c x : ℕ) (ps : List Str)
    → (x == c) ≡ false
    → All (IsFree c) ps
    → All (IsFree c) (cons_head x ps)
unfolding contains
cons_head-IsFree c x [] n h = ground arith
cons_head-IsFree c x (p ∷ ps) n h = (ground (arith, h.0), h.1)

split-IsFree : (c : ℕ) (s : Str) → All (IsFree c) (split c s)
unfolding split
split-IsFree c [] = unfold contains in (refl, tt)
split-IsFree c (x ∷ s) = elim (Bool-cases (x == c)) [
  | inl e ↦ rw e (unfold contains in refl, split-IsFree c s)
  | inr e ↦ rw e (cons_head-IsFree c x (split c s) e (split-IsFree c s))
]

cons_head-append :
    (x : ℕ) (ps qs : List Str) → ps ≢ [] → cons_head x (ps ++ qs) ≡ cons_head x ps ++ qs
cons_head-append x [] qs n = absurd (n refl)
cons_head-append x (p ∷ ps) qs n = refl

-- Splitting at a separator that stands in the middle splits the two sides.
pub split-append_sep : (c : ℕ) (s t : Str) → split c (s ++ c ∷ t) ≡ split c s ++ split c t
unfolding split
split-append_sep c [] t = ground arith
split-append_sep c (x ∷ s) t = elim (Bool-cases (x == c)) [
  | inl e ↦ rw e (ap (λ l. [] ∷ l) (split-append_sep c s t))
  | inr e ↦
      rw (e, split-append_sep c s t) (cons_head-append x (split c s) (split c t) (split-ne-nil c s))
]
