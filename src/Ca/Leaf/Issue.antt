-- ===== src/Ca/Leaf/Issue.antt =====
-- What issueLeaf has made when it comes to saving.
use localapp.Base.{ℕ, ◌≡◌, refl, subst, inl, inr, some, Option-cases, [], ◌∷◌}
use localapp.Text.{Str}
use localapp.Ca.Crypto.{Crypto}
use localapp.Ca.Root.{ok, Draw, encode_cert, encode_key, new_serial}
use localapp.Ca.Root.Making.{Result-cases}
use localapp.Ca.Leaf.{Ca, leaf_template, valid_host, leaf_paths, Issued, issue}

module _ (C : Crypto) (join : Str → Str → Str) where
  pub record IsMade (ca : Ca C) (host : Str) (now : ℕ) (i : Issued C join) : Type 0 where
    pub serial : ℕ
    pub der : Str
    pub key : C.Key
    pub leaf : C.Cert
    pub created :
        C.create (leaf_template host serial now) (some ca.root.cert) key ca.root.key ≡ some der
    pub parsed : C.parse der ≡ some leaf
    pub encoded : encode_key C join key ≡ ok i.key_pem
    pub paths : leaf_paths C join ca.place host ≡ ok (i.cert_at, i.key_at)
    pub cert_text : i.cert_pem ≡ encode_cert C join der
    pub whole :
        i.pair ≡ record { chain = der ∷ C.raw ca.root.cert ∷ []; key = key; leaf = some leaf }

  pub issue-IsMade :
      (ca : Ca C) (host : Str) (now : ℕ) (draw : Draw C) (i : Issued C join)
      → issue C join ca host now draw ≡ ok i
      → IsMade ca host now i
  unfolding issue
  issue-IsMade ca host now draw i h = elim (Result-cases (valid_host host ca.place.domain)) [
    | inr (e, a) ↦ cc (rw a at h)
    | inl (u, a) ↦ elim (Option-cases draw.new_key) [
      | inl b ↦ cc (rw (a, b) at h)
      | inr (key, b) ↦ elim (Result-cases (new_serial draw.number)) [
        | inr (e, c) ↦ cc (rw (a, b, c) at h)
        | inl (serial, c) ↦
            elim (Option-cases
              (C.create (leaf_template host serial now) (some ca.root.cert) key ca.root.key)) [
                | inl k ↦ cc (rw (a, b, c, k) at h)
                | inr (der, k) ↦ elim (Option-cases (C.parse der)) [
                  | inl l ↦ cc (rw (a, b, c, k, l) at h)
                  | inr (leaf, l) ↦ elim (Result-cases (encode_key C join key)) [
                    | inr (e, m) ↦ cc (rw (a, b, c, k, l, m) at h)
                    | inl (pem, m) ↦ elim (Result-cases (leaf_paths C join ca.place host)) [
                      | inr (e, n) ↦ cc (rw (a, b, c, k, l, m, n) at h)
                      | inl (paths, n) ↦
                          subst (IsMade ca host now) (cc (rw (a, b, c, k, l, m, n) at h)) (record {
                            serial = serial;
                            der = der;
                            key = key;
                            leaf = leaf;
                            created = k;
                            parsed = l;
                            encoded = m;
                            paths = n;
                            cert_text = refl;
                            whole = refl;
                          })
                    ]
                  ]
                ]
              ]
      ]
    ]
  ]
