-- ===== src/Net/HostPort.antt =====
-- SplitHostPort and TrimSpace on plain host names.
use localapp.Base.{
  ℕ, ◌≡◌, refl, false, ◌||◌, none, some, [], ◌∷◌, ◌++◌, arith, length, All, take-length-append,
}
use localapp.Text.{Str, contains, last_index_byte, has_prefix}
use localapp.Net.{is_space, trim_space_right, trim_space, split_host_port}

last_index_of_contains : (c : ℕ) (s : Str) → contains c s ≡ false → last_index_byte c s ≡ none
unfolding last_index_byte contains
last_index_of_contains c [] h = refl
last_index_of_contains c (x ∷ s) h = ground (arith, last_index_of_contains c s)

last_index-append :
    (c : ℕ) (s t : Str) → contains c t ≡ false → last_index_byte c (s ++ c ∷ t) ≡ some (length s)
unfolding last_index_byte
last_index-append c [] t h = ground (arith, last_index_of_contains c t h)
last_index-append c (x ∷ s) t h = rw (last_index-append c s t h)

contains-append : (c : ℕ) (s t : Str) → contains c (s ++ t) ≡ (contains c s || contains c t)
unfolding contains
contains-append c [] t = refl
contains-append c (x ∷ s) t = ground (arith, contains-append c s t)

no_bracket : (s t : Str) → contains b'[' s ≡ false → has_prefix (s ++ b':' ∷ t) (b'[' ∷ []) ≡ false
unfolding has_prefix contains
no_bracket [] t h = refl
no_bracket (x ∷ s) t h = ground arith

-- No colon, brackets or white space.
pub record IsPlainHost (s : Str) : Type 0 where
  pub colon : contains b':' s ≡ false
  pub open_bracket : contains b'[' s ≡ false
  pub close_bracket : contains b']' s ≡ false

-- A name without a port is not split.
pub split_host_port_of_plain : (s : Str) → IsPlainHost s → split_host_port s ≡ none
unfolding split_host_port
split_host_port_of_plain s h = rw (last_index_of_contains b':' s h.colon, split_host_port)

-- A name with a port loses the port.
pub split_host_port-append :
    (s port : Str) → IsPlainHost s → IsPlainHost port → split_host_port (s ++ b':' ∷ port) ≡ some s
unfolding split_host_port
split_host_port-append s port h k =
    rw (last_index-append b':' s port k.colon, split_host_port)
      (rw (no_bracket s port h.open_bracket) (
        rw (take-length-append s (b':' ∷ port), h.colon)
          (ground (
            arith,
            contains-append b'[' s (b':' ∷ port),
            contains-append b']' s (b':' ∷ port),
            h.open_bracket,
            h.close_bracket,
            k.open_bracket,
            k.close_bracket,
          ))))

-- No byte is white space.
abbrev pub IsSpaceFree : Str → Type 0
IsSpaceFree s = All (λ c. is_space c ≡ false) s

trim_space_right_lem : (s : Str) → IsSpaceFree s → trim_space_right s ≡ s
unfolding trim_space_right
trim_space_right_lem [] h = refl
trim_space_right_lem (c ∷ []) h = rw h.0
trim_space_right_lem (c ∷ d ∷ s) h = rw (trim_space_right_lem (d ∷ s) h.1)

pub trim_space_of_SpaceFree : (s : Str) → IsSpaceFree s → trim_space s ≡ s
unfolding trim_space
trim_space_of_SpaceFree [] h = refl
trim_space_of_SpaceFree (c ∷ s) h = rw h.0 (trim_space_right_lem (c ∷ s) h)
