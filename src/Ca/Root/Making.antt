-- ===== src/Ca/Root/Making.antt =====
-- What createRoot makes, in the form in which its files give it back.
use localapp.Base.{ℕ, ◌+◌, ◌≡◌, ◌⊎◌, refl, subst, inl, inr, true, none, some, Option-cases, [], ◌∷◌}
use localapp.Text.{Str, text}
use localapp.Text.Order.{str_eq_refl}
use localapp.Ca.Crypto.{Crypto, IsLawful}
use localapp.Ca.Root.{
  CaError, Result, ok, err, Draw, Made, decode_cert, decode_key, encode_cert, encode_key, make_root,
  root_template,
}

pub Result-cases {ℓ} :
    {A : Type ℓ} (m : Result A) → ((a : A) × (m ≡ ok a)) ⊎ ((e : CaError) × (m ≡ err e))
Result-cases (ok a) = inl (a, refl)
Result-cases (err e) = inr (e, refl)

module _ (C : Crypto) (join : Str → Str → Str) where
  -- What a root that has been made is, in a form that its files give back.
  pub record IsMade (domain : Str) (m : Made C join) : Type 0 where
    pub matched : C.matches m.root.cert m.root.key ≡ true
    pub authority : C.is_ca m.root.cert ≡ true
    pub permits : C.permitted m.root.cert ≡ domain ∷ []
    pub cert_read : decode_cert C join m.cert_pem ≡ ok m.root.cert
    pub key_read : decode_key C join m.key_pem ≡ ok m.root.key

  pub decode_cert-encode :
      (der : Str) (cert : C.Cert)
      → IsLawful C
      → C.parse der ≡ some cert
      → decode_cert C join (encode_cert C join der) ≡ ok cert
  unfolding encode_cert decode_cert
  decode_cert-encode der cert law parsed =
      rw (law.decodes (text "CERTIFICATE") der, decode_cert)
        (rw (str_eq_refl (text "CERTIFICATE"), parsed) refl)

  pub decode_key-encode :
      (key : C.Key) (der : Str)
      → IsLawful C
      → C.marshal key ≡ some der
      → decode_key C join (C.pem_encode (text "PRIVATE KEY") der) ≡ ok key
  unfolding decode_key
  decode_key-encode key der law marshalled =
      rw (law.decodes (text "PRIVATE KEY") der, decode_key)
        (rw (str_eq_refl (text "PRIVATE KEY"), law.parses_key key der marshalled) refl)

  of_parts :
      (domain : Str) (now serial : ℕ) (key : C.Key) (der key_der : Str) (cert : C.Cert)
      → IsLawful C
      → C.create (root_template C join domain serial now) none key key ≡ some der
      → C.parse der ≡ some cert
      → C.marshal key ≡ some key_der
      → IsMade domain (record {
        root = record { cert = cert; key = key };
        key_pem = C.pem_encode (text "PRIVATE KEY") key_der;
        cert_pem = encode_cert C join der;
      })
  unfolding encode_cert decode_cert decode_key root_template
  of_parts domain now serial key der key_der cert law created parsed marshalled =
      let is = law.creates (root_template C join domain serial now) none key key der created in
      let same : is.cert ≡ cert = cc (is.parsed, parsed) in
      record {
        matched = rw (← same) is.owned;
        authority = rw (← same) is.authority;
        permits = rw (← same) is.permits;
        cert_read = decode_cert-encode der cert law parsed;
        key_read = decode_key-encode key key_der law marshalled;
      }

  pub make_root-IsMade :
      (domain : Str) (now : ℕ) (draw : Draw C) (m : Made C join)
      → IsLawful C
      → make_root C join domain now draw ≡ ok m
      → IsMade domain m
  unfolding make_root encode_key
  make_root-IsMade domain now draw m law h = elim (Option-cases draw.new_key) [
    | inl e ↦ cc (rw e at h)
    | inr (key, e) ↦ elim (Option-cases draw.number) [
      | inl f ↦ cc (rw (e, f) at h)
      | inr (n, f) ↦
          elim (Option-cases (C.create (root_template C join domain (n + 1) now) none key key)) [
            | inl g ↦ cc (rw (e, f, g) at h)
            | inr (der, g) ↦ elim (Option-cases (C.parse der)) [
              | inl k ↦ cc (rw (e, f, g, k) at h)
              | inr (cert, k) ↦ elim (Option-cases (C.marshal key)) [
                | inl l ↦ cc (rw (e, f, g, k, l) at h)
                | inr (key_der, l) ↦
                    subst (IsMade domain) (cc (rw (e, f, g, k, l) at h))
                      (of_parts domain now (n + 1) key der key_der cert law g k l)
              ]
            ]
          ]
    ]
  ]
