-- ===== src/Proxy/Hosts.antt =====
-- normalizeHost on host names in any case, with or without a trailing dot or a port.
use localapp.Base.{
  ℕ, ◌≡◌, refl, ap, ◌∙◌, true, false, [], ◌∷◌, ◌++◌, map, arith, All, All-append, All_mono, ltb,
  leb, ◌&&◌, Bool-cases, inl, inr, take, length, ◌-◌,
}
use localapp.Text.{
  Str, contains, has_prefix, has_suffix, trim_suffix, trim_prefix, to_lower, lower_byte,
}
use localapp.Text.Affix.{
  eq_of_has_suffix, trim_suffix-append, trim_suffix_of_has_suffix, trim_prefix_of_has_prefix,
}
use localapp.Text.Trim.{LastIsNot}
use localapp.Registry.Names.{All→all_bytes}
use localapp.Domain.Labels.{is_host_byte, IsHostBytes}
use localapp.Net.{is_space}
use localapp.Net.HostPort.{
  IsPlainHost, split_host_port_of_plain, split_host_port-append, IsSpaceFree,
  trim_space_of_SpaceFree,
}
use localapp.Proxy.{normalize_host}

-- Bytes of a host name in either case.
abbrev pub IsRawHost : Str → Type 0
IsRawHost s = All (λ c. is_host_byte (lower_byte c) ≡ true) s

abbrev IsDigits : Str → Type 0
IsDigits s = All (λ c. (leb b'0' c && leb c b'9') ≡ true) s

host_byte-lower : (c : ℕ) → is_host_byte c ≡ true → lower_byte c ≡ c
unfolding is_host_byte lower_byte
host_byte-lower c h = ground arith

pub IsHostBytes-IsRawHost : (s : Str) → IsHostBytes s → IsRawHost s
IsHostBytes-IsRawHost s h =
    All_mono (λ c. is_host_byte c ≡ true) (λ c. is_host_byte (lower_byte c) ≡ true)
      (λ c p. ap is_host_byte (host_byte-lower c p) ∙ p) s h

pub IsHostBytes-lower : (s : Str) → IsHostBytes s → map lower_byte s ≡ s
IsHostBytes-lower [] h = refl
IsHostBytes-lower (c ∷ s) h = rw (host_byte-lower c h.0, IsHostBytes-lower s h.1)

raw_byte : (c : ℕ) → is_host_byte (lower_byte c) ≡ true → (is_space c ≡ false) × (ltb c 128 ≡ true)
unfolding is_host_byte lower_byte is_space
raw_byte c h = (ground arith, ground arith)

digit_byte : (c : ℕ) → (leb b'0' c && leb c b'9') ≡ true → is_space c ≡ false
unfolding is_space
digit_byte c h = ground arith

raw-contains :
    (c : ℕ) (s : Str) → is_host_byte (lower_byte c) ≡ false → IsRawHost s → contains c s ≡ false
unfolding contains
raw-contains c [] n h = refl
raw-contains c (x ∷ s) n h = ground (arith, raw-contains c s n h.1)

digits-contains : (c : ℕ) (s : Str) → leb c b'9' ≡ false → IsDigits s → contains c s ≡ false
unfolding contains
digits-contains c [] n h = refl
digits-contains c (x ∷ s) n h = ground (arith, digits-contains c s n h.1)

pub raw-IsPlainHost : (s : Str) → IsRawHost s → IsPlainHost s
raw-IsPlainHost s h =
    unfold is_host_byte lower_byte in
    record {
      colon = raw-contains b':' s refl h;
      open_bracket = raw-contains b'[' s refl h;
      close_bracket = raw-contains b']' s refl h;
    }

pub digits-IsPlainHost : (s : Str) → IsDigits s → IsPlainHost s
digits-IsPlainHost s h = record {
  colon = digits-contains b':' s refl h;
  open_bracket = digits-contains b'[' s refl h;
  close_bracket = digits-contains b']' s refl h;
}

raw-IsSpaceFree : (s : Str) → IsRawHost s → IsSpaceFree s
raw-IsSpaceFree s h =
    All_mono (λ c. is_host_byte (lower_byte c) ≡ true) (λ c. is_space c ≡ false)
      (λ c p. (raw_byte c p).0) s h

last-append : (c : ℕ) (t : Str) → LastIsNot c (t ++ c ∷ []) → ⊥
last-append c [] h = h refl
last-append c (x ∷ []) h = h refl
last-append c (x ∷ y ∷ t) h = last-append c (y ∷ t) h

has_suffix_of_LastIsNot : (c : ℕ) (s : Str) → LastIsNot c s → has_suffix s (c ∷ []) ≡ false
has_suffix_of_LastIsNot c s h = elim (Bool-cases (has_suffix s (c ∷ []))) [
  | inl e ↦
      absurd (last-append c (take (length s - 1) s) (subst_last (eq_of_has_suffix s (c ∷ []) e)))
  | inr e ↦ e
]
  where
    subst_last : {t : Str} → s ≡ t → LastIsNot c t
    subst_last e = rw e at h

contains-LastIsNot : (c : ℕ) (s : Str) → contains c s ≡ false → LastIsNot c s
contains-LastIsNot c [] h = tt
contains-LastIsNot c (x ∷ []) h = unfold contains in ground arith
contains-LastIsNot c (x ∷ y ∷ s) h = contains-LastIsNot c (y ∷ s) (unfold contains in ground arith)

no_open_bracket : (s : Str) → contains b'[' s ≡ false → has_prefix s (b'[' ∷ []) ≡ false
unfolding has_prefix contains
no_open_bracket [] h = refl
no_open_bracket (x ∷ s) h = ground arith

-- The steps of normalizeHost after the port is gone.
abbrev strip : (Str → Str) → Str → Str
strip unicode bare =
    to_lower unicode
      (trim_suffix (trim_prefix (trim_suffix bare (b'.' ∷ [])) (b'[' ∷ [])) (b']' ∷ []))

to_lower-raw : (unicode : Str → Str) (s : Str) → IsRawHost s → to_lower unicode s ≡ map lower_byte s
unfolding to_lower
to_lower-raw unicode s h = rw (
    All→all_bytes (λ c. ltb c 128) s
      (All_mono (λ c. is_host_byte (lower_byte c) ≡ true) (λ c. ltb c 128 ≡ true)
        (λ c p. (raw_byte c p).1) s h))

module _ (unicode : Str → Str) (s : Str) (raw : IsRawHost s) where
  plain : IsPlainHost s
  plain = raw-IsPlainHost s raw

  strip_brackets : trim_suffix (trim_prefix s (b'[' ∷ [])) (b']' ∷ []) ≡ s
  strip_brackets =
      rw (trim_prefix_of_has_prefix s (b'[' ∷ []) (no_open_bracket s plain.open_bracket)) (
        trim_suffix_of_has_suffix s (b']' ∷ [])
          (has_suffix_of_LastIsNot b']' s (contains-LastIsNot b']' s plain.close_bracket)))

  strip_dot : strip unicode (s ++ b'.' ∷ []) ≡ map lower_byte s
  strip_dot = rw (trim_suffix-append s (b'.' ∷ []), strip_brackets) (to_lower-raw unicode s raw)

  strip_plain : LastIsNot b'.' s → strip unicode s ≡ map lower_byte s
  strip_plain l =
      rw
        (trim_suffix_of_has_suffix s (b'.' ∷ []) (has_suffix_of_LastIsNot b'.' s l), strip_brackets)
        (to_lower-raw unicode s raw)

module _ (unicode : Str → Str) (s : Str) (raw : IsRawHost s) where
  abbrev dotted : Str
  dotted = s ++ b'.' ∷ []

  dotted-IsRawHost : IsRawHost dotted
  dotted-IsRawHost =
      All-append (λ c. is_host_byte (lower_byte c) ≡ true) s (b'.' ∷ []) raw (dot, tt)
    where
      dot : is_host_byte (lower_byte b'.') ≡ true
      dot = unfold is_host_byte lower_byte in refl

  normalize_bare : (t : Str) → IsRawHost t → normalize_host unicode t ≡ strip unicode t
  unfolding normalize_host
  normalize_bare t h = rw (
    trim_space_of_SpaceFree t (raw-IsSpaceFree t h),
    split_host_port_of_plain t (raw-IsPlainHost t h),
  )

  normalize_port :
      (t port : Str)
      → IsRawHost t
      → IsDigits port
      → normalize_host unicode (t ++ b':' ∷ port) ≡ strip unicode t
  unfolding normalize_host
  normalize_port t port h d =
      let free : IsSpaceFree (t ++ b':' ∷ port) =
        All-append (λ c. is_space c ≡ false) t (b':' ∷ port) (raw-IsSpaceFree t h)
          (
            unfold is_space in refl,
            All_mono (λ c. (leb b'0' c && leb c b'9') ≡ true) (λ c. is_space c ≡ false) digit_byte
                port d,
          ) in
      rw (
        trim_space_of_SpaceFree (t ++ b':' ∷ port) free,
        split_host_port-append t port (raw-IsPlainHost t h) (digits-IsPlainHost port d),
      )

  -- A host name in any case that does not end in a dot, with or without a trailing dot and a port
  -- of digits, is normalised to the name in lower case.
  pub normalize_host_forms :
      LastIsNot b'.' s
      → (port : Str) → IsDigits port
      → (normalize_host unicode s ≡ map lower_byte s)
        × (normalize_host unicode dotted ≡ map lower_byte s)
        × (normalize_host unicode (s ++ b':' ∷ port) ≡ map lower_byte s)
        × (normalize_host unicode (dotted ++ b':' ∷ port) ≡ map lower_byte s)
  normalize_host_forms l port d = (
    normalize_bare s raw ∙ strip_plain unicode s raw l,
    normalize_bare dotted dotted-IsRawHost ∙ strip_dot unicode s raw,
    normalize_port s port raw d ∙ strip_plain unicode s raw l,
    normalize_port dotted port dotted-IsRawHost d ∙ strip_dot unicode s raw,
  )
