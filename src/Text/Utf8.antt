-- ===== src/Text/Utf8.antt =====
-- Invalid UTF-8 in a string that passes through encoding/json: the encoder writes U+FFFD for every
-- byte that begins no well-formed encoding of a code point, and the decoder reads that back.
use localapp.Base.{
  ℕ, zero, suc, ◌<◌, ◌≡◌, refl, Bool, true, ◌&&◌, [], ◌∷◌, ◌++◌, All, ltb, leb, ◌==◌, arith,
  if◌then◌else◌,
}
use localapp.Text.{Str}

abbrev within : ℕ → ℕ → ℕ → Bool
within lo hi c = leb lo c && leb c hi

abbrev is_tail : ℕ → Bool
is_tail c = within 128 191 c

-- The length of the encoding whose first byte was read, if the bytes after it complete one, else 0.
-- The byte right after the first has a range of its own.
abbrev two : Str → ℕ
two [] = 0
two (a ∷ s) = if is_tail a then 2 else 0

abbrev three : ℕ → ℕ → Str → ℕ
three lo hi [] = 0
three lo hi (a ∷ []) = 0
three lo hi (a ∷ b ∷ s) = if within lo hi a && is_tail b then 3 else 0

abbrev four : ℕ → ℕ → Str → ℕ
four lo hi [] = 0
four lo hi (a ∷ []) = 0
four lo hi (a ∷ b ∷ []) = 0
four lo hi (a ∷ b ∷ c ∷ s) = if within lo hi a && is_tail b && is_tail c then 4 else 0

-- utf8.DecodeRuneInString: the width, 0 for an invalid encoding.
unfoldable pub rune_size : ℕ → Str → ℕ
rune_size c s =
    if ltb c 128
    then 1
    else if within 194 223 c
    then two s
    else if c == 224
    then three 160 191 s
    else if c == 237
    then three 128 159 s
    else if within 225 239 c
    then three 128 191 s
    else if c == 240
    then four 144 191 s
    else if within 241 243 c
    then four 128 191 s
    else if c == 244
    then four 128 143 s
    else 0

-- U+FFFD
abbrev replacement : Str
replacement = 239 ∷ 191 ∷ 189 ∷ []

abbrev kept : ℕ → ℕ → Str
kept c zero = replacement
kept c (suc n) = c ∷ []

abbrev others : ℕ → ℕ
others zero = 0
others (suc n) = n

-- With `k` more bytes of the code point at hand.
unfoldable pub coerce_after : ℕ → Str → Str
unfolding rune_size
coerce_after k [] = []
coerce_after (suc k) (c ∷ s) = c ∷ coerce_after k s
coerce_after zero (c ∷ s) = let n = rune_size c s in kept c n ++ coerce_after (others n) s

unfoldable pub to_valid_utf8 : Str → Str
unfolding coerce_after
to_valid_utf8 s = coerce_after 0 s

coerce_after_of_ascii : (s : Str) → All (λ c. c < 128) s → coerce_after 0 s ≡ s
unfolding coerce_after rune_size
coerce_after_of_ascii [] h = refl
coerce_after_of_ascii (c ∷ s) h =
    let small : ltb c 128 ≡ true = ground (arith, h.0) in
    rw small (rw (coerce_after_of_ascii s h.1))

-- ASCII strings are kept as they are.
pub to_valid_utf8_of_ascii : (s : Str) → All (λ c. c < 128) s → to_valid_utf8 s ≡ s
unfolding to_valid_utf8
to_valid_utf8_of_ascii = coerce_after_of_ascii

pub to_valid_utf8-nil : to_valid_utf8 [] ≡ []
unfolding to_valid_utf8 coerce_after
to_valid_utf8-nil = refl
