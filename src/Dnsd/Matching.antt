-- ===== src/Dnsd/Matching.antt =====
-- Which names the DNS server answers for.
use mathlib.Core.List.{map-append}
use localapp.Base.{
  ℕ, ◌++◌, ◌∷◌, [], ◌≡◌, ◌⊎◌, ◌↔◌, refl, ap, sym, ◌∙◌, true, false, Bool, ◌||◌, All-append,
  All_mono, Bool-cases, inl, inr, arith, map, length, take, ◌-◌, append_assoc, ltb,
}
use localapp.Text.{Str, str_eq, has_suffix, to_lower, lower_byte, contains, trim_suffix}
use localapp.Text.Order.{str_eq→eq, str_eq_refl}
use localapp.Text.Affix.{has_suffix-append, eq_of_has_suffix, trim_suffix-append}
use localapp.Text.Trim.{LastIsNot}
use localapp.Registry.Names.{All→all_bytes}
use localapp.Proxy.Hosts.{IsRawHost}
use localapp.Domain.Labels.{is_host_byte}
use localapp.Dnsd.{Server, matches, default_ttl}

-- What the documentation of Fqdn says: a name without a final dot gets one, and a name that has
-- one, and no escape, stays as it is.
pub record IsFqdn (fqdn : Str → Str) : Type 0 where
  pub relative : (s : Str) → LastIsNot b'.' s → fqdn s ≡ s ++ b'.' ∷ []
  pub absolute : (s : Str) → contains b'\\' s ≡ false → fqdn (s ++ b'.' ∷ []) ≡ s ++ b'.' ∷ []

-- The apex or a name below it, in any case.
abbrev pub IsWithin : Str → Str → Type 0
IsWithin domain name =
    (map lower_byte name ≡ domain) ⊎ ((p : Str) × (map lower_byte name ≡ p ++ b'.' ∷ domain))

dot-cancel : (s t : Str) → s ++ b'.' ∷ [] ≡ t ++ b'.' ∷ [] → s ≡ t
dot-cancel s t e =
    sym (trim_suffix-append s (b'.' ∷ []))
    ∙ ap (λ z. trim_suffix z (b'.' ∷ [])) e
    ∙ trim_suffix-append t (b'.' ∷ [])

raw-ascii : (c : ℕ) → is_host_byte (lower_byte c) ≡ true → ltb c 128 ≡ true
unfolding is_host_byte lower_byte
raw-ascii c h = ground arith

-- A host name in any case is lowered byte by byte, and its final dot stays.
lower-dotted :
    (unicode : Str → Str) (s : Str)
    → IsRawHost s
    → to_lower unicode (s ++ b'.' ∷ []) ≡ map lower_byte s ++ b'.' ∷ []
unfolding to_lower lower_byte
lower-dotted unicode s h =
    rw
      (All→all_bytes (λ c. ltb c 128) (s ++ b'.' ∷ [])
        (All-append (λ c. ltb c 128 ≡ true) s (b'.' ∷ [])
          (All_mono (λ c. is_host_byte (lower_byte c) ≡ true) (λ c. ltb c 128 ≡ true) raw-ascii s h)
          (refl, tt)))
      (map-append lower_byte s (b'.' ∷ []))

raw-escape : (s : Str) → IsRawHost s → contains b'\\' s ≡ false
unfolding contains is_host_byte lower_byte
raw-escape [] h = refl
raw-escape (x ∷ s) h = ground (arith, raw-escape s h.1)

||-true : (b : Bool) → (b || true) ≡ true
||-true true = refl
||-true false = refl

module _ (unicode fqdn : Str → Str) (domain : Str) where
  abbrev server : Server
  server = record { domain = domain ++ b'.' ∷ []; ttl = default_ttl }

  matches-dotted :
      (name low : Str)
      → to_lower unicode (fqdn name) ≡ low ++ b'.' ∷ []
      → (matches unicode fqdn server name ≡ true)
        ↔ ((low ≡ domain) ⊎ ((p : Str) × (low ≡ p ++ b'.' ∷ domain)))
  unfolding matches
  matches-dotted name low e = (forth, back)
    where
      whole : Str
      whole = low ++ b'.' ∷ []

      suffix : Str
      suffix = b'.' ∷ domain ++ b'.' ∷ []

      forth :
          matches unicode fqdn server name ≡ true
          → (low ≡ domain) ⊎ ((p : Str) × (low ≡ p ++ b'.' ∷ domain))
      forth h = elim (Bool-cases (str_eq whole (domain ++ b'.' ∷ []))) [
        | inl q ↦ inl (dot-cancel low domain (str_eq→eq whole (domain ++ b'.' ∷ []) q))
        | inr q ↦
            let k : has_suffix whole suffix ≡ true = rw q at (rw e at h) in
            let p = take (length whole - length suffix) whole in
            inr (
              p,
              dot-cancel low (p ++ b'.' ∷ domain) (
                  eq_of_has_suffix whole suffix k
                  ∙ sym (append_assoc p (b'.' ∷ domain) (b'.' ∷ []))),
            )
      ]

      back :
          (low ≡ domain) ⊎ ((p : Str) × (low ≡ p ++ b'.' ∷ domain))
          → matches unicode fqdn server name ≡ true
      back (inl q) = rw (e, q, str_eq_refl (domain ++ b'.' ∷ []))
      back (inr (p, q)) =
          rw (e, q, append_assoc p (b'.' ∷ domain) (b'.' ∷ []), has_suffix-append p suffix)
            (||-true _)

  -- Where Fqdn does what its documentation says, the DNS server answers for the domain and the
  -- names below it, in any case, with or without the final dot, and for no other host name.
  pub matches_iff :
      IsFqdn fqdn
      → (name : Str) → IsRawHost name
      → LastIsNot b'.' name
      → ((matches unicode fqdn server name ≡ true) ↔ IsWithin domain name)
        × ((matches unicode fqdn server (name ++ b'.' ∷ []) ≡ true) ↔ IsWithin domain name)
  matches_iff f name raw l = (
    matches-dotted name (map lower_byte name)
        (ap (to_lower unicode) (f.relative name l) ∙ lower-dotted unicode name raw),
    matches-dotted (name ++ b'.' ∷ []) (map lower_byte name) (
        ap (to_lower unicode) (f.absolute name (raw-escape name raw))
        ∙ lower-dotted unicode name raw),
  )
