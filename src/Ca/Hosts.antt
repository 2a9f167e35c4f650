-- ===== src/Ca/Hosts.antt =====
-- Which host names get a certificate.
use localapp.Base.{
  ◌≡◌, ◌≢◌, ◌≤◌, ◌⊎◌, ◌↔◌, refl, ap, sym, subst, ◌∙◌, true, none, List, [], ◌∷◌, ◌++◌, arith, All,
  All-append, All_mono, length, Bool-cases, inl, inr,
}
use localapp.Text.{Str, str_eq, has_suffix, trim_suffix, split}
use localapp.Text.Order.{str_eq→eq, str_eq_iff}
use localapp.Text.Affix.{has_suffix-append, trim_suffix-append, eq_of_trim_suffix}
use localapp.Text.Split.{split-append_sep}
use localapp.Registry.{is_name_byte}
use localapp.Registry.Names.{IsName, all_bytes→All, All→all_bytes}
use localapp.Domain.Labels.{IsNameBytes, IsHostBytes, split-IsHostBytes, dotted-IsHostBytes}
use localapp.Domain.Laws.{IsDomain, IsLabel, IsDomain-IsHostBytes}
use localapp.Ca.{validate_label, validate_labels, validate_host}

validate_label-IsName : (s : Str) → validate_label s ≡ none → IsName s
unfolding validate_label
validate_label-IsName [] h = cc
validate_label-IsName (c ∷ s) h = record {
  nonempty = omega arith;
  short = ground arith;
  bytes = all_bytes→All is_name_byte (c ∷ s) (ground arith);
}

IsName-validate_label : (s : Str) → IsName s → validate_label s ≡ none
unfolding validate_label
IsName-validate_label [] h = absurd (omega (arith, h.nonempty))
IsName-validate_label (c ∷ s) h =
    ground (arith, h.short, All→all_bytes is_name_byte (c ∷ s) h.bytes)

validate_labels-All : (ps : List Str) → validate_labels ps ≡ none → All IsName ps
unfolding validate_labels
validate_labels-All [] h = tt
validate_labels-All (p ∷ ps) h =
    (validate_label-IsName p (ground arith), validate_labels-All ps (ground arith))

All-validate_labels : (ps : List Str) → All IsName ps → validate_labels ps ≡ none
unfolding validate_labels
All-validate_labels [] h = refl
All-validate_labels (p ∷ ps) h =
    ground (arith, IsName-validate_label p h.0, All-validate_labels ps h.1)

-- A host under the domain: labels, a dot, and the domain.
pub record IsUnder (host domain : Str) : Type 0 where
  pub prefix : Str
  pub joined : host ≡ prefix ++ b'.' ∷ domain
  pub labels : All IsName (split b'.' prefix)

-- The names that the CA may issue for.
pub record IsIssuable (host domain : Str) : Type 0 where
  pub nonempty : host ≢ []
  pub short : length host ≤ 253
  pub place : (host ≡ domain) ⊎ IsUnder host domain

validate-place :
    (host domain : Str) → validate_host host domain ≡ none → (host ≡ domain) ⊎ IsUnder host domain
unfolding validate_host
validate-place host domain h = elim (Bool-cases (str_eq host domain)) [
  | inl e ↦ inl (str_eq→eq host domain e)
  | inr e ↦ inr (record {
    prefix = trim_suffix host (b'.' ∷ domain);
    joined = eq_of_trim_suffix host (b'.' ∷ domain) (ground arith);
    labels = validate_labels-All (split b'.' (trim_suffix host (b'.' ∷ domain))) (ground arith);
  })
]

validate-IsIssuable :
    (host domain : Str) → validate_host host domain ≡ none → IsIssuable host domain
unfolding validate_host
validate-IsIssuable host domain h = record {
  nonempty = λ e. ground (arith, str_eq_iff host []);
  short = ground arith;
  place = validate-place host domain h;
}

validate_of_IsUnder :
    (host domain : Str)
    → host ≢ []
    → length host ≤ 253
    → IsUnder host domain
    → validate_host host domain ≡ none
unfolding validate_host
validate_of_IsUnder host domain n s u =
    let suffix = b'.' ∷ domain in
    let ends : has_suffix host suffix ≡ true =
      ap (λ h. has_suffix h suffix) u.joined ∙ has_suffix-append u.prefix suffix in
    let rest : trim_suffix host suffix ≡ u.prefix =
      ap (λ h. trim_suffix h suffix) u.joined ∙ trim_suffix-append u.prefix suffix in
    ground
      (arith, str_eq_iff host [], n, ends, rest, All-validate_labels (split b'.' u.prefix) u.labels)

IsIssuable-validate :
    (host domain : Str) → IsIssuable host domain → validate_host host domain ≡ none
IsIssuable-validate host domain h = elim h.place [
  | inl e ↦
      unfold validate_host in
      ground (arith, h.short, str_eq_iff host [], h.nonempty, str_eq_iff host domain)
  | inr u ↦ validate_of_IsUnder host domain h.nonempty h.short u
]

-- The CA accepts exactly the domain itself and the names under it whose further labels are names
-- of 1 to 63 bytes of [a-z0-9-], up to 253 bytes in all.
pub validate_host_iff :
    (host domain : Str) → (validate_host host domain ≡ none) ↔ IsIssuable host domain
validate_host_iff host domain = (validate-IsIssuable host domain, IsIssuable-validate host domain)

-- A host of the domain: host bytes, and no empty label.
pub record IsHost (s : Str) : Type 0 where
  pub bytes : IsHostBytes s
  pub full : All (λ p. p ≢ []) (split b'.' s)

IsName-ne-nil : (p : Str) → IsName p → p ≢ []
IsName-ne-nil [] l e = absurd (omega (arith, l.nonempty))
IsName-ne-nil (c ∷ p) l e = cc

IsLabel-ne-nil : (p : Str) → IsLabel p → p ≢ []
IsLabel-ne-nil [] l e = absurd (omega (arith, l.nonempty))
IsLabel-ne-nil (c ∷ p) l e = cc

IsDomain-IsHost : (d : Str) → IsDomain d → IsHost d
IsDomain-IsHost d h = record {
  bytes = IsDomain-IsHostBytes h;
  full = All_mono IsLabel (λ p. p ≢ []) IsLabel-ne-nil (split b'.' d) h.labels;
}

under-IsHost :
    (prefix d : Str) → IsDomain d → All IsName (split b'.' prefix) → IsHost (prefix ++ b'.' ∷ d)
under-IsHost prefix d h names =
    let domain = IsDomain-IsHost d h in
    record {
      bytes =
          dotted-IsHostBytes prefix d
            (split-IsHostBytes prefix
              (All_mono IsName IsNameBytes (λ p n. n.bytes) (split b'.' prefix) names))
            domain.bytes;
      full = rw (split-append_sep b'.' prefix d) (
          All-append (λ p. p ≢ []) (split b'.' prefix) (split b'.' d)
            (All_mono IsName (λ p. p ≢ []) IsName-ne-nil (split b'.' prefix) names) domain.full);
    }

-- Every host that the CA accepts under a valid domain consists of [a-z0-9-] and dots and has no
-- empty label.
pub validate_host-IsHost :
    (host domain : Str) → IsDomain domain → validate_host host domain ≡ none → IsHost host
validate_host-IsHost host domain d h = elim (validate-place host domain h) [
  | inl e ↦ subst IsHost (sym e) (IsDomain-IsHost domain d)
  | inr u ↦ subst IsHost (sym u.joined) (under-IsHost u.prefix domain d u.labels)
]
