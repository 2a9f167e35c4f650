-- ===== src/Registry/Names.antt =====
-- What ValidateName accepts, and what NormalizeName makes of any string.
use localapp.Base.{
  ℕ, zero, suc, ◌≤◌, ◌≡◌, refl, ◌⊎◌, inl, inr, true, false, Bool, none, [], ◌∷◌, map, length, take,
  All, All_mono, arith, ltb, ◌==◌, if◌then◌else◌, Bool-cases, length-take, ltb→lt, &&-eq-true,
}
use localapp.Text.{Str, trim_left, trim_right, trim, cons_unless, to_lower, all_bytes, lower_byte}
use localapp.Text.Trim.{FirstIsNot, LastIsNot, trim_ends, trim_of_ends, length-trim-le}
use localapp.Registry.{
  is_alnum, is_name_byte, name_re, validate_name, collapse, truncate, normalize_name,
}

-- One to 63 bytes of [a-z0-9-].
pub record IsName (s : Str) : Type 0 where
  pub nonempty : 1 ≤ length s
  pub short : length s ≤ 63
  pub bytes : All (λ c. is_name_byte c ≡ true) s

pub all_bytes→All : (p : ℕ → Bool) (s : Str) → all_bytes p s ≡ true → All (λ c. p c ≡ true) s
unfolding all_bytes
all_bytes→All p [] h = tt
all_bytes→All p (c ∷ s) h =
    let (here, later) = &&-eq-true (p c) (all_bytes p s) h in (here, all_bytes→All p s later)

pub All→all_bytes : (p : ℕ → Bool) (s : Str) → All (λ c. p c ≡ true) s → all_bytes p s ≡ true
unfolding all_bytes
All→all_bytes p [] h = refl
All→all_bytes p (c ∷ s) h = rw (h.0, All→all_bytes p s h.1)

pub IsName-validate : (kind s : Str) → IsName s → validate_name kind s ≡ none
unfolding validate_name name_re
IsName-validate kind s h = ground (arith, h.nonempty, h.short, All→all_bytes is_name_byte s h.bytes)

pub validate-IsName : (kind s : Str) → validate_name kind s ≡ none → IsName s
unfolding validate_name name_re
validate-IsName kind s h = record {
  nonempty = ground arith;
  short = ground arith;
  bytes = all_bytes→All is_name_byte s (ground arith);
}

-- Lowercase letters, digits, and single dashes; `prev` tells that a dash stands before.
abbrev IsCollapsed : Bool → Str → Type 0
IsCollapsed prev [] = Unit
IsCollapsed prev (r ∷ s) =
    ((is_alnum r ≡ true) × IsCollapsed false s) ⊎ ((r ≡ b'-') × (prev ≡ false) × IsCollapsed true s)

dash-IsCollapsed :
    (b : Bool) (s : Str) → IsCollapsed true s → IsCollapsed b (if b then s else b'-' ∷ s)
dash-IsCollapsed true s h = h
dash-IsCollapsed false s h = inr (refl, refl, h)

collapse-IsCollapsed : (prev : Bool) (s : Str) → IsCollapsed prev (collapse prev s)
unfolding collapse
collapse-IsCollapsed prev [] = tt
collapse-IsCollapsed prev (r ∷ s) = elim (Bool-cases (is_alnum r)) [
  | inl e ↦ rw e (inl (e, collapse-IsCollapsed false s))
  | inr e ↦ rw e (dash-IsCollapsed prev (collapse true s) (collapse-IsCollapsed true s))
]

collapse_of_IsCollapsed : (prev : Bool) (s : Str) → IsCollapsed prev s → collapse prev s ≡ s
unfolding collapse
collapse_of_IsCollapsed prev [] h = refl
collapse_of_IsCollapsed prev (r ∷ s) (inl h) = rw (h.0, collapse_of_IsCollapsed false s h.1)
collapse_of_IsCollapsed prev (r ∷ s) (inr h) =
    ground (arith, h.0, h.1, collapse_of_IsCollapsed true s h.2)

take-IsCollapsed :
    (n : ℕ) (prev : Bool) (s : Str) → IsCollapsed prev s → IsCollapsed prev (take n s)
take-IsCollapsed zero prev s h = tt
take-IsCollapsed (suc n) prev [] h = tt
take-IsCollapsed (suc n) prev (r ∷ s) (inl h) = inl (h.0, take-IsCollapsed n false s h.1)
take-IsCollapsed (suc n) prev (r ∷ s) (inr h) = inr (h.0, h.1, take-IsCollapsed n true s h.2)

trim_left-IsCollapsed :
    (c : ℕ) (prev : Bool) (s : Str) → IsCollapsed prev s → IsCollapsed false (trim_left c s)
unfolding trim_left
trim_left-IsCollapsed c prev [] h = tt
trim_left-IsCollapsed c prev (r ∷ s) (inl h) =
    let rest = trim_left-IsCollapsed c false s h.1 in
    elim (Bool-cases (r == c)) [ inl e ↦ rw e rest | inr e ↦ rw e (inl h) ]
trim_left-IsCollapsed c prev (r ∷ s) (inr h) =
    let rest = trim_left-IsCollapsed c true s h.2 in
    elim (Bool-cases (r == c)) [ inl e ↦ rw e rest | inr e ↦ rw e (inr (h.0, refl, h.2)) ]

cons_unless-IsCollapsed :
    (c r : ℕ) (prev : Bool) (s : Str)
    → IsCollapsed prev (r ∷ s)
    → IsCollapsed prev (cons_unless c r s)
cons_unless-IsCollapsed c r prev [] h = elim (Bool-cases (r == c)) [
  | inl e ↦ rw e tt
  | inr e ↦ rw e h
]
cons_unless-IsCollapsed c r prev (y ∷ s) h = h

trim_right-IsCollapsed :
    (c : ℕ) (prev : Bool) (s : Str) → IsCollapsed prev s → IsCollapsed prev (trim_right c s)
unfolding trim_right
trim_right-IsCollapsed c prev [] h = tt
trim_right-IsCollapsed c prev (r ∷ s) (inl h) =
    cons_unless-IsCollapsed c r prev (trim_right c s)
      (inl (h.0, trim_right-IsCollapsed c false s h.1))
trim_right-IsCollapsed c prev (r ∷ s) (inr h) =
    cons_unless-IsCollapsed c r prev (trim_right c s)
      (inr (h.0, h.1, trim_right-IsCollapsed c true s h.2))

trim-IsCollapsed : (c : ℕ) (s : Str) → IsCollapsed false s → IsCollapsed false (trim c s)
unfolding trim
trim-IsCollapsed c s h =
    trim_right-IsCollapsed c false (trim_left c s) (trim_left-IsCollapsed c false s h)

-- A normal form of NormalizeName: at most 63 bytes of [a-z0-9-], no two dashes in a row, and no
-- dash at either end.
pub record IsNormal (s : Str) : Type 0 where
  pub collapsed : IsCollapsed false s
  pub first : FirstIsNot b'-' s
  pub last : LastIsNot b'-' s
  pub short : length s ≤ 63

truncate-IsNormal :
    (s : Str) → IsCollapsed false s → FirstIsNot b'-' s → LastIsNot b'-' s → IsNormal (truncate s)
unfolding truncate
truncate-IsNormal s c f l = elim (Bool-cases (ltb 63 (length s))) [
  | inl e ↦ rw e (record {
    collapsed = trim-IsCollapsed b'-' (take 63 s) (take-IsCollapsed 63 false s c);
    first = (trim_ends b'-' (take 63 s)).0;
    last = (trim_ends b'-' (take 63 s)).1;
    short = omega (arith, length-trim-le b'-' (take 63 s), length-take 63 s);
  })
  | inr e ↦ rw e (record { collapsed = c; first = f; last = l; short = ground arith })
]

-- Whatever the input, and however strings that are not ASCII are lowercased, NormalizeName yields
-- at most 63 bytes of [a-z0-9-], with no two dashes in a row and none at either end.
pub normalize_name-IsNormal : (unicode : Str → Str) (s : Str) → IsNormal (normalize_name unicode s)
unfolding normalize_name
normalize_name-IsNormal unicode s =
    let c = collapse false (to_lower unicode s) in
    truncate-IsNormal (trim b'-' c)
      (trim-IsCollapsed b'-' c (collapse-IsCollapsed false (to_lower unicode s)))
      (trim_ends b'-' c).0 (trim_ends b'-' c).1

IsCollapsed-bytes :
    (prev : Bool) (s : Str) → IsCollapsed prev s → All (λ c. is_name_byte c ≡ true) s
unfolding is_name_byte
IsCollapsed-bytes prev [] h = tt
IsCollapsed-bytes prev (r ∷ s) (inl h) = (ground (arith, h.0), IsCollapsed-bytes false s h.1)
IsCollapsed-bytes prev (r ∷ s) (inr h) = (ground (arith, h.0), IsCollapsed-bytes true s h.2)

-- What NormalizeName returns is empty or a name that ValidateName accepts.
validate-normalize_name :
    (unicode : Str → Str) (kind s : Str)
    → (normalize_name unicode s ≡ []) ⊎ (validate_name kind (normalize_name unicode s) ≡ none)
validate-normalize_name unicode kind s =
    by_length (normalize_name unicode s) (normalize_name-IsNormal unicode s)
  where
    by_length : (r : Str) → IsNormal r → (r ≡ []) ⊎ (validate_name kind r ≡ none)
    by_length [] n = inl refl
    by_length (c ∷ r) n = inr (
        IsName-validate kind (c ∷ r) (record {
          nonempty = omega arith;
          short = n.short;
          bytes = IsCollapsed-bytes false (c ∷ r) n.collapsed;
        }))

is_name_byte-ascii : (c : ℕ) → is_name_byte c ≡ true → (ltb c 128 ≡ true) × (lower_byte c ≡ c)
unfolding is_name_byte lower_byte
is_name_byte-ascii c h = (ground arith, ground arith)

map-lower_byte : (s : Str) → All (λ c. is_name_byte c ≡ true) s → map lower_byte s ≡ s
map-lower_byte [] h = refl
map-lower_byte (c ∷ s) h = rw ((is_name_byte-ascii c h.0).1, map-lower_byte s h.1)

-- ToLower leaves the bytes of names alone.
to_lower-name_bytes :
    (unicode : Str → Str) (s : Str) → All (λ c. is_name_byte c ≡ true) s → to_lower unicode s ≡ s
unfolding to_lower
to_lower-name_bytes unicode s h =
    let ascii =
      All→all_bytes (λ c. ltb c 128) s
        (All_mono (λ c. is_name_byte c ≡ true) (λ c. ltb c 128 ≡ true)
          (λ c p. (is_name_byte-ascii c p).0) s h) in
    rw (ascii, map-lower_byte s h)

truncate_of_short : (s : Str) → length s ≤ 63 → truncate s ≡ s
unfolding truncate
truncate_of_short s h = elim (Bool-cases (ltb 63 (length s))) [
  | inl e ↦ absurd (omega (arith, ltb→lt 63 (length s) e))
  | inr e ↦ rw e
]

normalize_name_of_IsNormal :
    (unicode : Str → Str) (s : Str) → IsNormal s → normalize_name unicode s ≡ s
unfolding normalize_name
normalize_name_of_IsNormal unicode s n =
    rw
      (
        to_lower-name_bytes unicode s (IsCollapsed-bytes false s n.collapsed),
        collapse_of_IsCollapsed false s n.collapsed,
        trim_of_ends b'-' s n.first n.last,
      )
      (truncate_of_short s n.short)

-- Normalising twice is normalising once.
normalize_name_idempotent :
    (unicode : Str → Str) (s : Str)
    → normalize_name unicode (normalize_name unicode s) ≡ normalize_name unicode s
normalize_name_idempotent unicode s =
    normalize_name_of_IsNormal unicode (normalize_name unicode s)
      (normalize_name-IsNormal unicode s)
