-- ===== src/Text/Joined.antt =====
-- Joined parts: splitting them apart again, and how the whole ends.
use localapp.Base.{
  ℕ, ◌≡◌, ◌≢◌, refl, ap, ◌∙◌, List, [], ◌∷◌, arith, All, ◌==◌, Bool-cases, inl, inr,
}
use localapp.Text.{Str, split, cons_head}
use localapp.Text.Split.{IsFree, join, join-split, split-ne-nil, split-append, split_of_contains}
use localapp.Text.Trim.{LastIsNot}

-- Parts that do not hold the separator come back from their join.
pub split-join :
    (c : ℕ) (p : Str) (ps : List Str) → All (IsFree c) (p ∷ ps) → split c (join c (p ∷ ps)) ≡ p ∷ ps
unfolding join
split-join c p [] h = split_of_contains c p h.0
split-join c p (q ∷ ps) h =
    split-append c p (join c (q ∷ ps)) h.0 ∙ ap (λ l. p ∷ l) (split-join c q ps h.1)

-- The last part is not empty.
abbrev pub LastFull : List Str → Type 0
LastFull [] = Unit
LastFull (p ∷ []) = p ≢ []
LastFull (p ∷ q ∷ ps) = LastFull (q ∷ ps)

pub All-LastFull : (ps : List Str) → All (λ p. p ≢ []) ps → LastFull ps
All-LastFull [] h = tt
All-LastFull (p ∷ []) h = h.0
All-LastFull (p ∷ q ∷ ps) h = All-LastFull (q ∷ ps) h.1

LastFull-cons : (p : Str) (ps : List Str) → ps ≢ [] → LastFull (p ∷ ps) → LastFull ps
LastFull-cons p [] n h = absurd (n refl)
LastFull-cons p (q ∷ ps) n h = h

LastFull-cons_head :
    (c x : ℕ) (ps : List Str) → ps ≢ [] → join c ps ≢ [] → LastFull (cons_head x ps) → LastFull ps
unfolding join
LastFull-cons_head c x [] n k h = absurd (n refl)
LastFull-cons_head c x (p ∷ []) n k h = k
LastFull-cons_head c x (p ∷ q ∷ ps) n k h = h

-- A string whose last part is not empty does not end in the separator.
pub LastFull-LastIsNot : (c : ℕ) (s : Str) → LastFull (split c s) → LastIsNot c s
unfolding split
LastFull-LastIsNot c [] h = tt
LastFull-LastIsNot c (x ∷ []) h = elim (Bool-cases (x == c)) [
  | inl e ↦ absurd ((rw e at h) refl)
  | inr e ↦ ground arith
]
LastFull-LastIsNot c (x ∷ y ∷ s) h = LastFull-LastIsNot c (y ∷ s) (elim (Bool-cases (x == c)) [
  | inl e ↦ LastFull-cons [] (split c (y ∷ s)) (split-ne-nil c (y ∷ s)) (rw e at h)
  | inr e ↦
      LastFull-cons_head c x (split c (y ∷ s)) (split-ne-nil c (y ∷ s))
        (λ k. cc (join-split c (y ∷ s))) (rw e at h)
])
