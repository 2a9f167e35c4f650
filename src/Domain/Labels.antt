-- ===== src/Domain/Labels.antt =====
-- Dotted names: their bytes and their ends, from their labels.
use localapp.Base.{
  ℕ, ◌≡◌, refl, true, false, Bool, ◌||◌, List, [], ◌∷◌, ◌++◌, arith, ◌==◌, All, All-append,
}
use localapp.Text.{Str, split, contains}
use localapp.Text.Split.{join, join-split}
use localapp.Registry.{is_name_byte}

-- A byte of a host name.
unfoldable pub is_host_byte : ℕ → Bool
unfolding is_name_byte
is_host_byte c = is_name_byte c || c == b'.'

abbrev pub IsNameBytes : Str → Type 0
IsNameBytes s = All (λ c. is_name_byte c ≡ true) s

abbrev pub IsHostBytes : Str → Type 0
IsHostBytes s = All (λ c. is_host_byte c ≡ true) s

IsNameBytes-IsHostBytes : (s : Str) → IsNameBytes s → IsHostBytes s
unfolding is_host_byte
IsNameBytes-IsHostBytes [] h = tt
IsNameBytes-IsHostBytes (c ∷ s) h = (rw h.0, IsNameBytes-IsHostBytes s h.1)

-- Names and dots make host bytes.
pub dotted-IsHostBytes : (s t : Str) → IsHostBytes s → IsHostBytes t → IsHostBytes (s ++ b'.' ∷ t)
unfolding is_host_byte is_name_byte
dotted-IsHostBytes s t h k = All-append (λ c. is_host_byte c ≡ true) s (b'.' ∷ t) h (refl, k)

join-IsHostBytes : (labels : List Str) → All IsNameBytes labels → IsHostBytes (join b'.' labels)
unfolding join
join-IsHostBytes [] h = tt
join-IsHostBytes (p ∷ []) h = IsNameBytes-IsHostBytes p h.0
join-IsHostBytes (p ∷ q ∷ ps) h =
    dotted-IsHostBytes p (join b'.' (q ∷ ps)) (IsNameBytes-IsHostBytes p h.0)
      (join-IsHostBytes (q ∷ ps) h.1)

pub split-IsHostBytes : (s : Str) → All IsNameBytes (split b'.' s) → IsHostBytes s
split-IsHostBytes s h = rw (join-split b'.' s) at (join-IsHostBytes (split b'.' s) h)

-- A name holds no dot.
pub name-contains :
    (c : ℕ) (s : Str) → is_name_byte c ≡ false → IsNameBytes s → contains c s ≡ false
unfolding contains
name-contains c [] n h = refl
name-contains c (x ∷ s) n h = ground (arith, name-contains c s n h.1)
