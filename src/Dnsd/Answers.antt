-- ===== src/Dnsd/Answers.antt =====
-- What a client of the DNS server may rely on.
use localapp.Base.{◌∷◌, [], ◌≡◌, ◌≢◌, ◌⊎◌, refl, true, false, ◌==◌, Bool-cases, inl, inr, arith}
use localapp.Text.{Str}
use localapp.Dnsd.{
  class_inet, type_a, type_aaaa, opcode_query, loopback_v4, loopback_v6, success, refused, Question,
  Answer, Query, Reply, Server, matches, answer, reply, serve_dns,
}

-- A loopback address of the type that was asked for, for the name that was asked for.
pub record IsLoopback (s : Server) (q : Question) (a : Answer) : Type 0 where
  pub name : a.name ≡ q.name
  pub class : (a.rrclass ≡ class_inet) × (q.qclass ≡ class_inet)
  pub ttl : a.ttl ≡ s.ttl
  pub address :
      ((q.qtype ≡ type_a) × (a.rrtype ≡ type_a) × (a.address ≡ loopback_v4))
      ⊎ ((q.qtype ≡ type_aaaa) × (a.rrtype ≡ type_aaaa) × (a.address ≡ loopback_v6))

-- What the server answers to one question.
pub data IsAnswer (unicode fqdn : Str → Str) (s : Server) (q : Question) (m : Reply) : Type 0 where
  is_refused :
      ((q.qclass ≢ class_inet) ⊎ (matches unicode fqdn s q.name ≡ false))
      → m ≡ record { rcode = refused; authoritative = false; answers = [] }
      → IsAnswer unicode fqdn s q m
  is_address :
      (a : Answer)
      → matches unicode fqdn s q.name ≡ true
      → m ≡ record { rcode = success; authoritative = true; answers = a ∷ [] }
      → IsLoopback s q a
      → IsAnswer unicode fqdn s q m
  is_no_data :
      matches unicode fqdn s q.name ≡ true
      → q.qtype ≢ type_a
      → q.qtype ≢ type_aaaa
      → m ≡ record { rcode = success; authoritative = true; answers = [] }
      → IsAnswer unicode fqdn s q m

module _ (unicode fqdn : Str → Str) (s : Server) where
  answer-IsAnswer :
      (q : Question) → IsAnswer unicode fqdn s q (answer unicode fqdn s q (reply unicode fqdn))
  unfolding answer
  answer-IsAnswer q = elim (Bool-cases (q.qclass == class_inet)) [
    | inr c ↦ rw c (is_refused (inl (ground arith)) refl)
    | inl c ↦ elim (Bool-cases (matches unicode fqdn s q.name)) [
      | inr m ↦ rw (c, m) (is_refused (inr m) refl)
      | inl m ↦
          rw (c, m)
            (elim (Bool-cases (q.qtype == type_a)) [
              | inl a ↦ rw a (
                  is_address _ m refl (record {
                    name = refl;
                    class = (refl, ground arith);
                    ttl = refl;
                    address = inl (ground arith, refl, refl);
                  }))
              | inr a ↦ rw a (elim (Bool-cases (q.qtype == type_aaaa)) [
                | inl b ↦ rw b (
                    is_address _ m refl (record {
                      name = refl;
                      class = (refl, ground arith);
                      ttl = refl;
                      address = inr (ground arith, refl, refl);
                    }))
                | inr b ↦ rw b (is_no_data m (ground arith) (ground arith) refl)
              ])
            ])
    ]
  ]

  -- A standard query with one question is refused outside the domain and in any class but IN;
  -- inside it is answered with the loopback address of the type asked for, or with no data for any
  -- other type, and never with another address.
  pub serve_dns-IsAnswer :
      (r : Query) (q : Question)
      → r.opcode ≡ opcode_query
      → r.questions ≡ q ∷ []
      → IsAnswer unicode fqdn s q (serve_dns unicode fqdn s r)
  unfolding serve_dns
  serve_dns-IsAnswer r q o e = rw (o, e) (answer-IsAnswer q)
