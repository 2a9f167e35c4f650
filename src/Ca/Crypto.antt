-- ===== src/Ca/Crypto.antt =====
-- What internal/ca calls of crypto/x509, crypto/tls and encoding/pem, as operations over unknown
-- certificates and keys. Times are seconds. The laws are what the documentation of these packages
-- promises.
use localapp.Base.{ℕ, ◌≡◌, true, false, Bool, Option, some, List, [], ◌∷◌}
use localapp.Text.{Str, text}

pub data KeyUsage : Type 0 where
  cert_sign crl_sign digital_signature server_auth : KeyUsage

abbrev pub root_usage : List KeyUsage
root_usage = cert_sign ∷ crl_sign ∷ digital_signature ∷ []

-- The fields of x509.Certificate that the templates set.
pub record Template : Type 0 where
  pub serial : ℕ
  pub common_name : Str
  pub organization : List Str
  pub not_before : ℕ
  pub not_after : ℕ
  pub usage : List KeyUsage
  pub is_ca : Bool
  pub dns_names : List Str
  pub permitted : List Str

pub record Crypto : Type 1 where
  pub Cert : Type 0
  pub Key : Type 0
  -- x509.CreateCertificate: the template, the parent (`none`: the template itself), the key that is
  -- certified and the key that signs.
  pub create : Template → Option Cert → Key → Key → Option Str
  pub parse : Str → Option Cert
  pub raw : Cert → Str
  pub not_before : Cert → ℕ
  pub not_after : Cert → ℕ
  pub is_ca : Cert → Bool
  pub permitted : Cert → List Str
  -- The key usage is unset or has the signing of certificates.
  pub may_sign : Cert → Bool
  -- net.ParseIP(host) != nil
  pub is_ip : Str → Bool
  -- leaf.VerifyHostname(host) == nil and leaf.CheckSignatureFrom(parent) == nil
  pub verifies : Cert → Str → Bool
  pub signed_by : Cert → Cert → Bool
  -- The certificate's public key is that of the key.
  pub matches : Cert → Key → Bool
  -- x509.MarshalPKCS8PrivateKey, and ParsePKCS8PrivateKey for an ECDSA key.
  pub marshal : Key → Option Str
  pub parse_key : Str → Option Key
  -- pem.EncodeToMemory and pem.Decode: a type and its bytes.
  pub pem_encode : Str → Str → Str
  pub pem_decode : Str → Option (Str × Str)
  -- tls.X509KeyPair: the certificate's bytes, and the key.
  pub key_pair : Str → Str → Option (Str × Key)

-- What an issued certificate is.
pub record IsIssued (C : Crypto) (t : Template) (parent : Option C.Cert) (key signer : C.Key)
    (der : Str) : Type 0 where
  pub cert : C.Cert
  pub parsed : C.parse der ≡ some cert
  pub bytes : C.raw cert ≡ der
  pub starts : C.not_before cert ≡ t.not_before
  pub ends : C.not_after cert ≡ t.not_after
  pub authority : C.is_ca cert ≡ t.is_ca
  pub permits : C.permitted cert ≡ t.permitted
  pub owned : C.matches cert key ≡ true
  pub signs : t.usage ≡ root_usage → C.may_sign cert ≡ true
  pub named :
      (host : Str) → t.dns_names ≡ host ∷ [] → C.is_ip host ≡ false → C.verifies cert host ≡ true
  pub signed :
      (p : C.Cert)
      → parent ≡ some p
      → C.matches p signer ≡ true
      → C.is_ca p ≡ true
      → C.may_sign p ≡ true
      → C.signed_by cert p ≡ true

pub record IsLawful (C : Crypto) : Type 0 where
  pub creates :
      (t : Template) (parent : Option C.Cert) (key signer : C.Key) (der : Str)
      → C.create t parent key signer ≡ some der
      → IsIssued C t parent key signer der
  pub decodes : (kind bytes : Str) → C.pem_decode (C.pem_encode kind bytes) ≡ some (kind, bytes)
  pub parses_key : (k : C.Key) (bytes : Str) → C.marshal k ≡ some bytes → C.parse_key bytes ≡ some k
  pub pairs :
      (key_pem cert_pem der bytes : Str) (cert : C.Cert) (key : C.Key)
      → C.pem_decode cert_pem ≡ some (text "CERTIFICATE", der)
      → C.parse der ≡ some cert
      → C.pem_decode key_pem ≡ some (text "PRIVATE KEY", bytes)
      → C.parse_key bytes ≡ some key
      → C.matches cert key ≡ true
      → C.key_pair cert_pem key_pem ≡ some (der, key)
