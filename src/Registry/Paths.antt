-- ===== src/Registry/Paths.antt =====
-- ValidatePath and NormalizePath on path mounts.
use localapp.Base.{ℕ, ◌≡◌, refl, true, false, ◌⊎◌, inl, inr, none, [], ◌∷◌, arith, ◌==◌, Bool-cases}
use localapp.Text.{Str, has_prefix, contains, trim_right, cons_unless}
use localapp.Text.Trim.{LastIsNot, trim_right-LastIsNot, trim_right_of_LastIsNot}
use localapp.Registry.{validate_path, normalize_path, has_forbidden}

normalize_path_lem : (p : Str) → normalize_path p ≡ trim_right b'/' p
unfolding normalize_path
normalize_path_lem [] = unfold trim_right in refl
normalize_path_lem (c ∷ p) = refl

normalize_path-LastIsNot : (p : Str) → LastIsNot b'/' (normalize_path p)
normalize_path-LastIsNot p = rw normalize_path_lem (trim_right-LastIsNot b'/' p)

-- Normalising twice is normalising once.
pub normalize_path_idempotent : (p : Str) → normalize_path (normalize_path p) ≡ normalize_path p
normalize_path_idempotent p =
    rw (normalize_path_lem (normalize_path p))
      (trim_right_of_LastIsNot b'/' (normalize_path p) (normalize_path-LastIsNot p))

contains-cons_unless :
    (b c x : ℕ) (s : Str)
    → (x == b) ≡ false
    → contains b s ≡ false
    → contains b (cons_unless c x s) ≡ false
unfolding contains
contains-cons_unless b c x [] h k = ground arith
contains-cons_unless b c x (y ∷ s) h k = ground arith

contains-trim_right :
    (b c : ℕ) (s : Str) → contains b s ≡ false → contains b (trim_right c s) ≡ false
unfolding trim_right
contains-trim_right b c [] h = h
contains-trim_right b c (x ∷ s) h =
    contains-cons_unless b c x (trim_right c s) (unfold contains in ground arith)
      (contains-trim_right b c s (unfold contains in ground arith))

has_forbidden-trim_right :
    (p : Str) → has_forbidden p ≡ false → has_forbidden (trim_right b'/' p) ≡ false
unfolding has_forbidden
has_forbidden-trim_right p h = ground (
  arith,
  contains-trim_right b'?' b'/' p,
  contains-trim_right b'#' b'/' p,
  contains-trim_right b' ' b'/' p,
  contains-trim_right b'\t' b'/' p,
  contains-trim_right b'\r' b'/' p,
  contains-trim_right b'\n' b'/' p,
)

-- A valid mount is empty, or it begins with a slash and holds no forbidden byte.
validate_path_iff_left :
    (p : Str)
    → validate_path p ≡ none
    → (p ≡ []) ⊎ ((has_prefix p (b'/' ∷ []) ≡ true) × (has_forbidden p ≡ false))
unfolding validate_path
validate_path_iff_left [] h = inl refl
validate_path_iff_left (c ∷ p) h = inr (ground arith, ground arith)

validate_path_iff_right :
    (p : Str)
    → (p ≡ []) ⊎ ((has_prefix p (b'/' ∷ []) ≡ true) × (has_forbidden p ≡ false))
    → validate_path p ≡ none
unfolding validate_path
validate_path_iff_right [] h = refl
validate_path_iff_right (c ∷ p) (inl e) = cc
validate_path_iff_right (c ∷ p) (inr h) = ground (arith, h.0, h.1)

slash-trim_right :
    (p : Str)
    → has_prefix p (b'/' ∷ []) ≡ true
    → (trim_right b'/' p ≡ []) ⊎ (has_prefix (trim_right b'/' p) (b'/' ∷ []) ≡ true)
unfolding trim_right
slash-trim_right [] h = unfold has_prefix in cc
slash-trim_right (x ∷ p) h = by_rest (trim_right b'/' p)
  where
    by_rest :
        (r : Str)
        → (cons_unless b'/' x r ≡ []) ⊎ (has_prefix (cons_unless b'/' x r) (b'/' ∷ []) ≡ true)
    by_rest [] =
        unfold has_prefix in
        elim (Bool-cases (x == b'/')) [ inl e ↦ inl (rw e) | inr e ↦ cc (rw e at h) ]
    by_rest (y ∷ r) = inr (unfold has_prefix in ground arith)

-- The normal form of a path that ValidatePath accepts is itself accepted.
pub validate-normalize_path :
    (p : Str) → validate_path p ≡ none → validate_path (normalize_path p) ≡ none
validate-normalize_path p h = rw normalize_path_lem (by_case (validate_path_iff_left p h))
  where
    by_case :
        (p ≡ []) ⊎ ((has_prefix p (b'/' ∷ []) ≡ true) × (has_forbidden p ≡ false))
        → validate_path (trim_right b'/' p) ≡ none
    by_case (inl e) = rw e (unfold trim_right validate_path in refl)
    by_case (inr k) = validate_path_iff_right (trim_right b'/' p) (second (slash-trim_right p k.0))
      where
        second :
            (trim_right b'/' p ≡ []) ⊎ (has_prefix (trim_right b'/' p) (b'/' ∷ []) ≡ true)
            → (trim_right b'/' p ≡ [])
              ⊎ ((has_prefix (trim_right b'/' p) (b'/' ∷ []) ≡ true)
                  × (has_forbidden (trim_right b'/' p) ≡ false))
        second (inl e) = inl e
        second (inr e) = inr (e, has_forbidden-trim_right p k.1)
