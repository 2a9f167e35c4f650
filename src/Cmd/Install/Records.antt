-- ===== src/Cmd/Install/Records.antt =====
-- What is recorded is read back.
use localapp.Base.{
  ℕ, ◌^◌, ◌<◌, ◌≡◌, refl, true, false, Bool, ◌&&◌, none, some, [], ◌∷◌, ◌++◌, arith, ltb, leb, pos,
  All, All_mono, All-append, ◌==◌,
}
use localapp.Text.{Str, contains, all_bytes}
use localapp.Text.Cut.{cut-append}
use localapp.Text.Number.{itoa, atoi-itoa}
use localapp.Text.Number.Digits.{IsDigits, itoa-IsDigits}
use localapp.Net.{is_space}
use localapp.Net.Spaces.{trim_space-line}
use localapp.Domain.{validate}
use localapp.Domain.Labels.{is_host_byte}
use localapp.Domain.Laws.{validate-IsDomain, IsDomain-IsHostBytes}
use localapp.Registry.{is_name_byte}
use localapp.Cmd.Install.{
  trim_text, domain_record, read_domain, owner_record, read_owner, valid_domain,
}

all_bytes-All : (p : ℕ → Bool) (s : Str) → All (λ c. p c ≡ true) s → all_bytes p s ≡ true
unfolding all_bytes
all_bytes-All p [] h = refl
all_bytes-All p (c ∷ s) h = rw (h.0, all_bytes-All p s h.1) refl

abbrev IsInk : ℕ → Type 0
IsInk c = (is_space c ≡ false) × (ltb c 128 ≡ true)

-- A line of printable characters is read without its newline.
trim_text-line :
    (unicode : Str → Str) (s : Str) → All IsInk s → trim_text unicode (s ++ 10 ∷ []) ≡ s
unfolding trim_text
trim_text-line unicode s h =
    let ascii : all_bytes (λ c. ltb c 128) (s ++ 10 ∷ []) ≡ true =
      all_bytes-All (λ c. ltb c 128) (s ++ 10 ∷ [])
        (All-append (λ c. ltb c 128 ≡ true) s (10 ∷ [])
          (All_mono IsInk (λ c. ltb c 128 ≡ true) (λ c i. i.1) s h) (refl, tt)) in
    rw ascii (trim_space-line s (All_mono IsInk (λ c. is_space c ≡ false) (λ c i. i.0) s h))

host-IsInk : (c : ℕ) → is_host_byte c ≡ true → IsInk c
unfolding is_host_byte is_name_byte is_space
host-IsInk c h = (ground arith, ground arith)

pub read_domain-record :
    (unicode : Str → Str) (domain : Str)
    → validate domain ≡ none
    → read_domain unicode (some (domain_record domain)) ≡ some domain
unfolding read_domain domain_record
read_domain-record unicode domain h =
    let ink =
      All_mono (λ c. is_host_byte c ≡ true) IsInk host-IsInk domain
        (IsDomain-IsHostBytes (validate-IsDomain domain h)) in
    rw (trim_text-line unicode domain ink) (rw (h, valid_domain) refl)

digit-IsInk : (c : ℕ) → (leb b'0' c && leb c b'9') ≡ true → IsInk c
unfolding is_space
digit-IsInk c h = (ground arith, ground arith)

digits-free : (s : Str) → IsDigits s → contains b':' s ≡ false
unfolding contains
digits-free [] h = refl
digits-free (c ∷ s) h =
    let other : (c == b':') ≡ false = ground arith in rw (other, digits-free s h.1) refl

digits-IsInk : (n : ℕ) → All IsInk (itoa n)
digits-IsInk n =
    All_mono (λ c. (leb b'0' c && leb c b'9') ≡ true) IsInk digit-IsInk (itoa n) (itoa-IsDigits n)

-- The owner that writeOwner records, with a user id that is not 0 and both ids below 2^63, is the
-- one that readOwner reads.
read_owner-record :
    (unicode : Str → Str) (uid gid : ℕ)
    → 0 < uid
    → uid < 2 ^ 63
    → gid < 2 ^ 63
    → read_owner unicode (some (owner_record uid gid)) ≡ some (pos uid, pos gid)
unfolding read_owner owner_record
read_owner-record unicode uid gid h k l =
    let line : Str = itoa uid ++ b':' ∷ itoa gid in
    let ink : All IsInk line =
      All-append IsInk (itoa uid) (b':' ∷ itoa gid) (digits-IsInk uid)
        ((refl, refl), digits-IsInk gid) in
    rw
      (
        trim_text-line unicode line ink,
        cut-append b':' (itoa uid) (itoa gid) (digits-free (itoa uid) (itoa-IsDigits uid)),
        atoi-itoa uid k,
        atoi-itoa gid l,
      )
      (ground arith)
