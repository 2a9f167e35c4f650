-- ===== src/Tests/DnsRuns.antt =====
-- The DNS server, and the scan of listening sockets.
use localapp.Base.{
  ℕ, ◌≡◌, ◌↔◌, ◌++◌, refl, ap, true, Bool, ◌==◌, none, [], ◌∷◌, pos, arith, if◌then◌else◌,
}
use localapp.Text.{Str, text, contains}
use localapp.Text.Trim.{LastIsNot}
use localapp.Dnsd.{
  Server, Question, Query, serve_dns, opcode_query, class_inet, type_a, matches, default_ttl,
}
use localapp.Dnsd.Answers.{IsAnswer, serve_dns-IsAnswer}
use localapp.Dnsd.Matching.{IsFqdn, IsWithin, matches_iff}
use localapp.Proxy.Hosts.{IsRawHost}
use localapp.Scan.{Listener, parse_lsof, filter}
use localapp.Scan.Filtering.{find_port, IsAscending, filter_lem}
use localapp.Tests.Fixtures.{same}

-- Fqdn on names without escapes.
unfoldable pub fqdn : Str → Str
fqdn [] = b'.' ∷ []
fqdn (x ∷ []) = if x == b'.' then b'.' ∷ [] else x ∷ b'.' ∷ []
fqdn (x ∷ y ∷ s) = x ∷ fqdn (y ∷ s)

fqdn-relative : (s : Str) → LastIsNot b'.' s → fqdn s ≡ s ++ b'.' ∷ []
unfolding fqdn
fqdn-relative [] l = refl
fqdn-relative (x ∷ []) l = ground arith
fqdn-relative (x ∷ y ∷ s) l = ap (λ t. x ∷ t) (fqdn-relative (y ∷ s) l)

fqdn-absolute : (s : Str) → fqdn (s ++ b'.' ∷ []) ≡ s ++ b'.' ∷ []
unfolding fqdn
fqdn-absolute [] = refl
fqdn-absolute (x ∷ []) = refl
fqdn-absolute (x ∷ y ∷ s) = ap (λ t. x ∷ t) (fqdn-absolute (y ∷ s))

pub fqdn-IsFqdn : IsFqdn fqdn
fqdn-IsFqdn = record { relative = fqdn-relative; absolute = λ s h. fqdn-absolute s }

-- A.lo
abbrev name : Str
name = b'A' ∷ b'.' ∷ b'l' ∷ b'o' ∷ []

abbrev short_domain : Str
short_domain = b'l' ∷ b'o' ∷ []

abbrev question : Question
question = record { name = name; qtype = type_a; qclass = class_inet }

abbrev query : Query
query = record { opcode = opcode_query; questions = question ∷ [] }

abbrev dns : Server
dns = record { domain = short_domain ++ b'.' ∷ []; ttl = default_ttl }

name-matches : matches same fqdn dns name ≡ true
unfolding matches fqdn localapp.Text.to_lower localapp.Text.str_eq localapp.Text.has_suffix
name-matches = refl

serve_dns-IsAnswer_example : IsAnswer same fqdn dns question (serve_dns same fqdn dns query)
serve_dns-IsAnswer_example = serve_dns-IsAnswer same fqdn dns query question refl refl

name-IsRawHost : IsRawHost name
unfolding localapp.Domain.Labels.is_host_byte localapp.Text.lower_byte
    localapp.Registry.is_name_byte
name-IsRawHost = (refl, (refl, (refl, (refl, tt))))

matches_iff_example :
    ((matches same fqdn dns name ≡ true) ↔ IsWithin short_domain name)
    × ((matches same fqdn dns (name ++ b'.' ∷ []) ≡ true) ↔ IsWithin short_domain name)
matches_iff_example =
    matches_iff same fqdn short_domain fqdn-IsFqdn name name-IsRawHost (λ e. omega (arith, e))

-- "p7\ncnode\nn*:3000\n"
abbrev lsof : Str
lsof =
    b'p' ∷ b'7' ∷ b'\n' ∷ b'c' ∷ b'n' ∷ b'o' ∷ b'd' ∷ b'e' ∷ b'\n' ∷ b'n' ∷ b'*' ∷ b':' ∷ b'3'
    ∷ b'0' ∷ b'0' ∷ b'0' ∷ b'\n' ∷ []

abbrev node : Listener
node = record {
  port = 3000;
  pid = pos 7;
  command = b'n' ∷ b'o' ∷ b'd' ∷ b'e' ∷ [];
  address = b'*' ∷ [];
}

lsof-parsed : parse_lsof lsof ≡ node ∷ []
unfolding parse_lsof localapp.Scan.parse_lines localapp.Scan.parse_line
    localapp.Scan.parse_socket_name localapp.Scan.checked_port localapp.Scan.is_local
    localapp.Text.Number.atoi localapp.Text.Number.read_number localapp.Text.Number.read_digits
    localapp.Text.last_index_byte localapp.Text.split localapp.Text.str_eq localapp.Text.text
    localapp.Text.trim_right
lsof-parsed = refl

abbrev excluded : ℕ → Bool
excluded port = port == 80

filter_lem_example :
    IsAscending (filter (node ∷ node ∷ []) excluded)
    × ((port : ℕ)
        → find_port port (filter (node ∷ node ∷ []) excluded)
          ≡ (if excluded port then none else find_port port (node ∷ node ∷ [])))
filter_lem_example = filter_lem (node ∷ node ∷ []) excluded
