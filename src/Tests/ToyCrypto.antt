-- ===== src/Tests/ToyCrypto.antt =====
-- A small cryptography that keeps what internal/ca relies on: a certificate is its own bytes, which
-- list its fields, and keys are numbers.
use localapp.Base.{
  ℕ, ◌≡◌, refl, sym, ap, subst, ◌∙◌, Bool, true, false, ◌&&◌, Option, none, some, List, [], ◌∷◌,
  ◌++◌, length, take, drop, ◌==◌, ◌>>=◌, if◌then◌else◌, take-length-append, drop-length-append,
  ==_refl,
}
use localapp.Text.{Str, str_eq}
use localapp.Text.Order.{str_eq_refl}
use localapp.Ca.Crypto.{Crypto, Template, KeyUsage, cert_sign, IsIssued, IsLawful, root_usage}
use localapp.Cmd.Tail.{byte_at}

abbrev bit : Bool → ℕ
bit true = 1
bit false = 0

abbrev sign_bit : List KeyUsage → ℕ
sign_bit (cert_sign ∷ usage) = 1
sign_bit _ = 0

-- What kind of name, and the name; only these templates are taken.
abbrev subject : List Str → List Str → Option (ℕ × Str)
subject [] (d ∷ []) = some (0, d)
subject (host ∷ []) [] = some (1, host)
subject _ _ = none

abbrev field : ℕ → Str → ℕ
field i cert = byte_at cert i

abbrev parent_key : Option Str → ℕ → ℕ
parent_key none key = key
parent_key (some p) key = field 5 p

abbrev encode : Template → ℕ → ℕ → Option (ℕ × Str) → Option Str
encode t key signer none = none
encode t key signer (some (kind, name)) =
    some (kind ∷ bit t.is_ca ∷ t.not_before ∷ t.not_after ∷ sign_bit t.usage ∷ key ∷ signer ∷ name)

abbrev permitted_of : Str → List Str
permitted_of cert = if field 0 cert == 0 then drop 7 cert ∷ [] else []

abbrev parse_number : Str → Option ℕ
parse_number [] = none
parse_number (k ∷ rest) = some k

abbrev pem_encode : Str → Str → Str
pem_encode kind bytes = length kind ∷ kind ++ bytes

abbrev pem_decode : Str → Option (Str × Str)
pem_decode [] = none
pem_decode (n ∷ rest) = some (take n rest, drop n rest)

abbrev matching : Str → ℕ → Option (Str × ℕ)
matching der key = if field 5 der == key then some (der, key) else none

abbrev key_pair : Str → Str → Option (Str × ℕ)
key_pair cert_pem key_pem = do
  (kind, der) ← pem_decode cert_pem
  (key_kind, bytes) ← pem_decode key_pem
  key ← parse_number bytes
  matching der key

abbrev pub toy : Crypto
toy = record {
  Cert = Str;
  Key = ℕ;
  create = λ t parent key signer. encode t key signer (subject t.dns_names t.permitted);
  parse = some;
  raw = λ cert. cert;
  not_before = field 2;
  not_after = field 3;
  is_ca = λ cert. field 1 cert == 1;
  permitted = permitted_of;
  may_sign = λ cert. field 4 cert == 1;
  is_ip = λ host. false;
  verifies = λ cert host. field 0 cert == 1 && str_eq (drop 7 cert) host;
  signed_by = λ cert parent. field 5 parent == field 6 cert;
  matches = λ cert key. field 5 cert == key;
  marshal = λ key. some (key ∷ []);
  parse_key = parse_number;
  pem_encode = pem_encode;
  pem_decode = pem_decode;
  key_pair = key_pair;
}

sign_bit-root : (usage : List KeyUsage) → usage ≡ root_usage → (sign_bit usage == 1) ≡ true
sign_bit-root usage h = rw h refl

bit-is_ca : (b : Bool) → (bit b == 1) ≡ b
bit-is_ca true = refl
bit-is_ca false = refl

abbrev written : ℕ → Str → Template → ℕ → ℕ → Str
written kind name t key signer =
    kind ∷ bit t.is_ca ∷ t.not_before ∷ t.not_after ∷ sign_bit t.usage ∷ key ∷ signer ∷ name

written-IsIssued :
    (kind : ℕ) (name : Str) (t : Template) (parent : Option Str) (key signer : ℕ)
    → permitted_of (written kind name t key signer) ≡ t.permitted
    → ((host : Str)
        → t.dns_names ≡ host ∷ []
        → toy.verifies (written kind name t key signer) host ≡ true)
    → IsIssued toy t parent key signer (written kind name t key signer)
written-IsIssued kind name t parent key signer permits named = record {
  cert = written kind name t key signer;
  parsed = refl;
  bytes = refl;
  starts = refl;
  ends = refl;
  authority = bit-is_ca t.is_ca;
  permits = permits;
  owned = ==_refl key;
  signs = sign_bit-root t.usage;
  named = λ host e a. named host e;
  signed = λ p e owned authority sign. owned;
}

issued :
    (t : Template) (dns permitted : List Str) (parent : Option Str) (key signer : ℕ) (der : Str)
    → t.dns_names ≡ dns
    → t.permitted ≡ permitted
    → encode t key signer (subject dns permitted) ≡ some der
    → IsIssued toy t parent key signer der
issued t [] [] parent key signer der d p h = cc
issued t [] (a ∷ b ∷ r) parent key signer der d p h = cc
issued t (a ∷ b ∷ r) permitted parent key signer der d p h = cc
issued t (a ∷ []) (b ∷ r) parent key signer der d p h = cc
issued t [] (a ∷ []) parent key signer der d p h =
    subst (IsIssued toy t parent key signer) (cc h)
      (written-IsIssued 0 a t parent key signer (sym p) (λ host e. cc))
issued t (host ∷ []) [] parent key signer der d p h =
    subst (IsIssued toy t parent key signer) (cc h) (
      written-IsIssued 1 host t parent key signer (sym p)
        (λ name e. let same : host ≡ name = cc in rw same (str_eq_refl name)))

pub toy-IsLawful : IsLawful toy
toy-IsLawful = record {
  creates = λ t parent key signer der h.
      issued t t.dns_names t.permitted parent key signer der refl refl h;
  decodes = λ kind bytes. ap some (
      ap (λ k. (k, drop (length kind) (kind ++ bytes))) (take-length-append kind bytes)
      ∙ ap (λ r. (kind, r)) (drop-length-append kind bytes));
  parses_key = λ k bytes h. let e : k ∷ [] ≡ bytes = cc h in ap parse_number (sym e);
  pairs = λ key_pem cert_pem der bytes cert key a b c d e.
      let same : der ≡ cert = cc b in rw a (rw c (rw d (rw (same, e) refl)));
}
