-- ===== src/Domain/Laws.antt =====
-- What domain.Validate accepts.
use localapp.Base.{
  ◌≡◌, ◌≢◌, ◌↔◌, ◌≤◌, ◌-◌, refl, false, none, List, [], ◌∷◌, arith, All, All_mono, length,
  get_elem?,
}
use native.Mathlib.Numerals.{unary_clauses}
use localapp.Text.{Str, split}
use localapp.Text.Trim.{FirstIsNot, LastIsNot}
use localapp.Registry.{is_name_byte}
use localapp.Registry.Names.{all_bytes→All, All→all_bytes}
use localapp.Domain.{is_hyphen, check_label, check_labels, validate}
use localapp.Domain.Labels.{IsNameBytes, IsHostBytes, split-IsHostBytes}
use localapp.Text.Joined.{All-LastFull, LastFull-LastIsNot}

-- 1 to 63 bytes of [a-z0-9-], with no hyphen at either end.
pub record IsLabel (s : Str) : Type 0 where
  pub nonempty : 1 ≤ length s
  pub short : length s ≤ 63
  pub first : FirstIsNot b'-' s
  pub last : LastIsNot b'-' s
  pub bytes : IsNameBytes s

last_hyphen : (s : Str) → is_hyphen (get_elem? s (length s - 1)) ≡ false → LastIsNot b'-' s
last_hyphen [] h = tt
last_hyphen (x ∷ []) h = ground arith
last_hyphen (x ∷ y ∷ s) h = last_hyphen (y ∷ s) (simp unary_clauses (simp unary_clauses at h))

hyphen_last : (s : Str) → LastIsNot b'-' s → is_hyphen (get_elem? s (length s - 1)) ≡ false
hyphen_last [] h = refl
hyphen_last (x ∷ []) h = ground arith
hyphen_last (x ∷ y ∷ s) h = simp unary_clauses (simp unary_clauses at (hyphen_last (y ∷ s) h))

first_hyphen : (s : Str) → is_hyphen (get_elem? s 0) ≡ false → FirstIsNot b'-' s
first_hyphen [] h = tt
first_hyphen (x ∷ s) h = ground arith

hyphen_first : (s : Str) → FirstIsNot b'-' s → is_hyphen (get_elem? s 0) ≡ false
hyphen_first [] h = refl
hyphen_first (x ∷ s) h = ground arith

check_label-IsLabel : (s : Str) → check_label s ≡ none → IsLabel s
unfolding check_label
check_label-IsLabel s h = record {
  nonempty = ground arith;
  short = ground arith;
  first = first_hyphen s (ground arith);
  last = last_hyphen s (ground arith);
  bytes = all_bytes→All is_name_byte s (ground arith);
}

IsLabel-check_label : (s : Str) → IsLabel s → check_label s ≡ none
unfolding check_label
IsLabel-check_label s h = ground (
  arith,
  h.nonempty,
  h.short,
  hyphen_first s h.first,
  hyphen_last s h.last,
  All→all_bytes is_name_byte s h.bytes,
)

check_labels-All : (ps : List Str) → check_labels ps ≡ none → All IsLabel ps
unfolding check_labels
check_labels-All [] h = tt
check_labels-All (p ∷ ps) h =
    (check_label-IsLabel p (ground arith), check_labels-All ps (ground arith))

All-check_labels : (ps : List Str) → All IsLabel ps → check_labels ps ≡ none
unfolding check_labels
All-check_labels [] h = refl
All-check_labels (p ∷ ps) h = ground (arith, IsLabel-check_label p h.0, All-check_labels ps h.1)

-- Validate accepts exactly the names of 1 to 253 bytes whose dot-separated labels are 1 to 63
-- bytes of [a-z0-9-] with no hyphen at either end.
pub record IsDomain (s : Str) : Type 0 where
  pub nonempty : 1 ≤ length s
  pub short : length s ≤ 253
  pub labels : All IsLabel (split b'.' s)

pub validate-IsDomain : (s : Str) → validate s ≡ none → IsDomain s
unfolding validate
validate-IsDomain s h = record {
  nonempty = ground arith;
  short = ground arith;
  labels = check_labels-All (split b'.' s) (ground arith);
}

IsDomain-validate : (s : Str) → IsDomain s → validate s ≡ none
unfolding validate
IsDomain-validate s h =
    ground (arith, h.nonempty, h.short, All-check_labels (split b'.' s) h.labels)

pub IsDomain-IsHostBytes : {s : Str} → IsDomain s → IsHostBytes s
IsDomain-IsHostBytes {s} h =
    split-IsHostBytes s (All_mono IsLabel IsNameBytes (λ p l. l.bytes) (split b'.' s) h.labels)

label-ne-nil : (p : Str) → IsLabel p → p ≢ []
label-ne-nil [] l e = absurd (omega (arith, l.nonempty))
label-ne-nil (c ∷ p) l e = cc

IsDomain-LastIsNot : {s : Str} → IsDomain s → LastIsNot b'.' s
IsDomain-LastIsNot {s} h = LastFull-LastIsNot b'.' s (
    All-LastFull (split b'.' s)
      (All_mono IsLabel (λ p. p ≢ []) label-ne-nil (split b'.' s) h.labels))

-- Validate accepts exactly the names of 1 to 253 bytes whose labels have 1 to 63 bytes of
-- [a-z0-9-] and neither begin nor end with a hyphen.
validate_iff : (s : Str) → (validate s ≡ none) ↔ IsDomain s
validate_iff s = (validate-IsDomain s, IsDomain-validate s)
