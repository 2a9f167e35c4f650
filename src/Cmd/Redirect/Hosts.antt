-- ===== src/Cmd/Redirect/Hosts.antt =====
-- The redirect leads to the host that the proxy takes the request for.
use localapp.Base.{
  ℕ, ◌≡◌, ◌≢◌, refl, sym, ◌∙◌, inl, inr, true, false, Bool, Bool-cases, Option, none, some, [], ◌∷◌,
  ◌++◌, map, ◌==◌,
}
use localapp.Text.{Str, text, contains, lower_byte}
use localapp.Text.Order.{str_eq-eq-false}
use localapp.Text.Number.{itoa}
use localapp.Text.Number.Digits.{IsDigits, itoa-IsDigits}
use localapp.Text.Trim.{LastIsNot}
use localapp.Net.{split_host_port}
use localapp.Net.HostPort.{split_host_port_of_plain, split_host_port-append}
use localapp.Proxy.{normalize_host}
use localapp.Proxy.Hosts.{IsRawHost, raw-IsPlainHost, digits-IsPlainHost, normalize_host_forms}
use localapp.Cmd.Redirect.{moved_permanently, is_ipv6_literal, redirect_host, redirect}

-- An address without a colon has an IPv4 form.
unfoldable pub ColonInV6 : (Str → Option Bool) → Type 0
ColonInV6 is_ipv4 = (s : Str) → contains b':' s ≡ false → is_ipv4 s ≢ some false

module _ (is_ipv4 : Str → Option Bool) (https_port : ℕ) (s : Str) (raw : IsRawHost s) where
  redirect_host-other :
      (https_port == 443) ≡ false → redirect_host is_ipv4 https_port s ≡ s ++ b':' ∷ itoa https_port
  unfolding redirect_host
  redirect_host-other e = rw (e, (raw-IsPlainHost s raw).colon) refl

  plain_host :
      (o : Option Bool) → is_ipv4 s ≡ o → ColonInV6 is_ipv4 → is_ipv6_literal is_ipv4 s ≡ false
  unfolding is_ipv6_literal ColonInV6
  plain_host none e v6 = rw (e, is_ipv6_literal) refl
  plain_host (some true) e v6 = rw (e, is_ipv6_literal) refl
  plain_host (some false) e v6 = absurd (v6 s (raw-IsPlainHost s raw).colon e)

  redirect_host-default :
      ColonInV6 is_ipv4 → (https_port == 443) ≡ true → redirect_host is_ipv4 https_port s ≡ s
  unfolding redirect_host
  redirect_host-default v6 e = rw (e, plain_host (is_ipv4 s) refl v6) refl

  -- The proxy sees the same host behind the redirect.
  redirect_host-same :
      (unicode : Str → Str)
      → ColonInV6 is_ipv4
      → LastIsNot b'.' s
      → normalize_host unicode (redirect_host is_ipv4 https_port s) ≡ map lower_byte s
  redirect_host-same unicode v6 l =
      let (bare, dotted, with_port, _) =
        normalize_host_forms unicode s raw l (itoa https_port) (itoa-IsDigits https_port) in
      elim (Bool-cases (https_port == 443)) [
        | inl e ↦ rw (redirect_host-default v6 e) bare
        | inr e ↦ rw (redirect_host-other e) with_port
      ]

  redirect_of :
      (header uri : Str)
      → split_host_port header ≡ some s
      → s ≢ []
      → redirect is_ipv4 https_port header uri
        ≡ moved_permanently (text "https://" ++ redirect_host is_ipv4 https_port s ++ uri)
  unfolding redirect
  redirect_of header uri h full = rw (h, str_eq-eq-false s [] full) refl

  -- A request for a host name in any case that is not empty and does not end in a dot, with or
  -- without a port of digits, is redirected to an https URL with the same request URI, whose host
  -- the proxy normalises to the same name as the host of the request, whatever the HTTPS port;
  -- provided that no text without a colon is an address without an IPv4 form.
  pub redirect-same_host :
      (unicode : Str → Str) (port uri : Str)
      → ColonInV6 is_ipv4
      → s ≢ []
      → LastIsNot b'.' s
      → IsDigits port
      → (redirect is_ipv4 https_port s uri
          ≡ moved_permanently (text "https://" ++ redirect_host is_ipv4 https_port s ++ uri))
        × (redirect is_ipv4 https_port (s ++ b':' ∷ port) uri
            ≡ moved_permanently (text "https://" ++ redirect_host is_ipv4 https_port s ++ uri))
        × (normalize_host unicode (redirect_host is_ipv4 https_port s) ≡ normalize_host unicode s)
        × (normalize_host unicode (redirect_host is_ipv4 https_port s)
            ≡ normalize_host unicode (s ++ b':' ∷ port))
  unfolding redirect
  redirect-same_host unicode port uri v6 full l d =
      let (bare, dotted, with_port, _) = normalize_host_forms unicode s raw l port d in
      let plain = raw-IsPlainHost s raw in
      let same = redirect_host-same unicode v6 l in
      (
        rw (split_host_port_of_plain s plain, str_eq-eq-false s [] full) refl,
        redirect_of (s ++ b':' ∷ port) uri
            (split_host_port-append s port plain (digits-IsPlainHost port d)) full,
        same ∙ sym bare,
        same ∙ sym with_port,
      )
