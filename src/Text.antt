-- ===== src/Text.antt =====
-- Go strings, as lists of bytes, with the functions of package `strings` that the program calls.
-- A loop `for _, r := range s` whose body tests `r` against ASCII ranges alone is a loop over the
-- bytes here: every byte of a longer encoding is at least 0x80 and fails the same tests.
pub mod Order
pub mod Affix
pub mod Split
pub mod Joined
pub mod Number
pub mod Trim
pub mod Cut
pub mod Utf8
use Prim.Native.Char.{code}
use Prim.Native.String.{String}
use localapp.Base.{
  ℕ, zero, suc, ◌+◌, ◌-◌, Bool, true, false, not, ◌&&◌, ◌||◌, Option, none, some, List, [], ◌∷◌,
  ◌++◌, map, length, take, drop, ltb, leb, ◌==◌, if◌then◌else◌,
}

abbrev pub Str : Type 0
Str = List ℕ

-- A string literal of the source. All of them are ASCII, so code points are bytes.
unfoldable pub text : String → Str
text String.[] = []
text (String.◌∷◌ c s) = code c ∷ text s

unfoldable pub str_eq : Str → Str → Bool
str_eq [] [] = true
str_eq (x ∷ xs) (y ∷ ys) = x == y && str_eq xs ys
str_eq _ _ = false

-- `a < b` on strings: bytewise lexicographic.
unfoldable pub str_lt : Str → Str → Bool
str_lt [] [] = false
str_lt [] (y ∷ ys) = true
str_lt (x ∷ xs) [] = false
str_lt (x ∷ xs) (y ∷ ys) = if ltb x y then true else if ltb y x then false else str_lt xs ys

-- strings.HasPrefix(s, p)
unfoldable pub has_prefix : Str → Str → Bool
has_prefix s [] = true
has_prefix [] (y ∷ p) = false
has_prefix (x ∷ s) (y ∷ p) = x == y && has_prefix s p

-- strings.CutPrefix(s, p); `none` is its `false`.
unfoldable pub cut_prefix : Str → Str → Option Str
cut_prefix s p = if has_prefix s p then some (drop (length p) s) else none

-- strings.HasSuffix(s, p)
unfoldable pub has_suffix : Str → Str → Bool
has_suffix s p = leb (length p) (length s) && str_eq (drop (length s - length p) s) p

-- strings.CutSuffix(s, p)
unfoldable pub cut_suffix : Str → Str → Option Str
cut_suffix s p = if has_suffix s p then some (take (length s - length p) s) else none

-- strings.TrimSuffix(s, p)
unfoldable pub trim_suffix : Str → Str → Str
trim_suffix s p = elim (cut_suffix s p) [ none ↦ s | some t ↦ t ]

-- strings.TrimPrefix(s, p)
unfoldable pub trim_prefix : Str → Str → Str
trim_prefix s p = elim (cut_prefix s p) [ none ↦ s | some t ↦ t ]

abbrev pub cons_head : ℕ → List Str → List Str
cons_head x [] = (x ∷ []) ∷ []
cons_head x (part ∷ parts) = (x ∷ part) ∷ parts

-- strings.Split(s, sep) for a separator of one byte.
unfoldable pub split : ℕ → Str → List Str
split sep [] = [] ∷ []
split sep (x ∷ s) = if x == sep then [] ∷ split sep s else cons_head x (split sep s)

-- strings.TrimLeft(s, c), strings.TrimRight(s, c) and strings.Trim(s, c) for one byte.
unfoldable pub trim_left : ℕ → Str → Str
trim_left c [] = []
trim_left c (x ∷ s) = if x == c then trim_left c s else x ∷ s

abbrev pub cons_unless : ℕ → ℕ → Str → Str
cons_unless c x [] = if x == c then [] else x ∷ []
cons_unless c x (y ∷ s) = x ∷ y ∷ s

unfoldable pub trim_right : ℕ → Str → Str
trim_right c [] = []
trim_right c (x ∷ s) = cons_unless c x (trim_right c s)

unfoldable pub trim : ℕ → Str → Str
unfolding trim_left trim_right
trim c s = trim_right c (trim_left c s)

-- strings.IndexByte(s, c); `none` is -1.
unfoldable pub index_byte : ℕ → Str → Option ℕ
index_byte c [] = none
index_byte c (x ∷ s) =
    if x == c then some 0 else elim (index_byte c s) [ none ↦ none | some i ↦ some (suc i) ]

-- strings.LastIndex(s, c) for one byte; `none` is -1.
unfoldable pub last_index_byte : ℕ → Str → Option ℕ
last_index_byte c [] = none
last_index_byte c (x ∷ s) = elim (last_index_byte c s) [
  | none ↦ if x == c then some 0 else none
  | some i ↦ some (suc i)
]

-- strings.Contains(s, c) for one byte.
unfoldable pub contains : ℕ → Str → Bool
contains c [] = false
contains c (x ∷ s) = x == c || contains c s

-- Every byte passes the test: the loops that return an error at the first one that does not.
unfoldable pub all_bytes : (ℕ → Bool) → Str → Bool
all_bytes p [] = true
all_bytes p (x ∷ s) = p x && all_bytes p s

unfoldable pub lower_byte : ℕ → ℕ
lower_byte c = if leb b'A' c && leb c b'Z' then c + 32 else c

-- strings.ToLower: bytewise on an ASCII string. On any other it goes by the Unicode tables, which
-- are the argument `unicode`.
unfoldable pub to_lower : (Str → Str) → Str → Str
unfolding lower_byte all_bytes
to_lower unicode s = if all_bytes (λ c. ltb c 128) s then map lower_byte s else unicode s
