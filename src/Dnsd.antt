-- ===== src/Dnsd.antt =====
-- internal/dnsd/dnsd.go: the answer to one DNS query. The DNS library is an argument: `fqdn` is its
-- Fqdn, and `unicode` is strings.ToLower outside ASCII.
pub mod Answers
pub mod Matching
use localapp.Base.{
  ℕ, ◌++◌, ◌∷◌, [], List, true, false, Bool, not, ◌&&◌, ◌||◌, ◌==◌, ltb, if◌then◌else◌, Option,
  none, some, length,
}
use localapp.Text.{Str, str_eq, has_suffix, to_lower}
use localapp.Domain.{DomainError, validate}

-- The numbers of the protocol that the server tests for.
abbrev pub opcode_query : ℕ
opcode_query = 0

abbrev pub class_inet : ℕ
class_inet = 1

abbrev pub type_a : ℕ
type_a = 1

abbrev pub type_aaaa : ℕ
type_aaaa = 28

abbrev pub default_ttl : ℕ
default_ttl = 10

pub data Rcode : Type 0 where
  success format_error not_implemented refused : Rcode

-- The fixed addresses: 127.0.0.1 and ::1.
pub data Address : Type 0 where
  ipv4 : List ℕ → Address
  ipv6 : List ℕ → Address

abbrev pub loopback_v4 : Address
loopback_v4 = ipv4 (127 ∷ 0 ∷ 0 ∷ 1 ∷ [])

abbrev pub loopback_v6 : Address
loopback_v6 = ipv6 (0 ∷ 0 ∷ 0 ∷ 0 ∷ 0 ∷ 0 ∷ 0 ∷ 0 ∷ 0 ∷ 0 ∷ 0 ∷ 0 ∷ 0 ∷ 0 ∷ 0 ∷ 1 ∷ [])

pub record Question : Type 0 where
  pub name : Str
  pub qtype : ℕ
  pub qclass : ℕ

-- A record of the answer section, with the fields of its header.
pub record Answer : Type 0 where
  pub name : Str
  pub rrtype : ℕ
  pub rrclass : ℕ
  pub ttl : ℕ
  pub address : Address

pub record Query : Type 0 where
  pub opcode : ℕ
  pub questions : List Question

pub record Reply : Type 0 where
  pub rcode : Rcode
  pub authoritative : Bool
  pub answers : List Answer

pub record Server : Type 0 where
  pub domain : Str
  pub ttl : ℕ

-- New: the server of a domain, or the error of its validation.
pub data Created : Type 0 where
  created : Server → Created
  invalid : DomainError → Created

unfoldable new : (Str → Str) → Str → Created
unfolding validate
new fqdn domain = elim (validate domain) [
  | none ↦ created (record { domain = fqdn domain; ttl = default_ttl })
  | some e ↦ invalid e
]

module _ (unicode fqdn : Str → Str) where
  -- match
  unfoldable pub matches : Server → Str → Bool
  unfolding to_lower str_eq has_suffix
  matches s name =
      let n = to_lower unicode (fqdn name) in str_eq n s.domain || has_suffix n (b'.' ∷ s.domain)

  abbrev header : Server → Question → ℕ → Address → Answer
  header s q rrtype a = record {
    name = q.name;
    rrtype = rrtype;
    rrclass = class_inet;
    ttl = s.ttl;
    address = a;
  }

  -- answer, on the reply that SetReply prepared.
  unfoldable pub answer : Server → Question → Reply → Reply
  unfolding matches
  answer s q m =
      if not (q.qclass == class_inet) || not (matches s q.name)
      then record m { rcode = refused }
      else record m {
        authoritative = true;
        answers =
            if q.qtype == type_a
            then m.answers ++ header s q type_a loopback_v4 ∷ []
            else if q.qtype == type_aaaa
            then m.answers ++ header s q type_aaaa loopback_v6 ∷ []
            else m.answers;
      }

  abbrev pub reply : Reply
  reply = record { rcode = success; authoritative = false; answers = [] }

  abbrev answer_all : Server → List Question → Reply
  answer_all s [] = record reply { rcode = format_error }
  answer_all s (q ∷ []) = answer s q reply
  answer_all s (_ ∷ _ ∷ _) = record reply { rcode = format_error }

  -- ServeDNS
  unfoldable pub serve_dns : Server → Query → Reply
  unfolding answer
  serve_dns s r =
      if not (r.opcode == opcode_query)
      then record reply { rcode = not_implemented }
      else answer_all s r.questions

-- write: the size that a UDP response is truncated to; `udp_size` is that of the EDNS0 option.
unfoldable response_size : Option ℕ → ℕ
response_size none = 512
response_size (some udp_size) = if ltb 512 udp_size then udp_size else 512
