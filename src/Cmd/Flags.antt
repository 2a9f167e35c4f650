-- ===== src/Cmd/Flags.antt =====
-- parseArgs of cmd/localapp/main.go, with the Parse of package flag that it repeats. The fuel of a
-- loop bounds its rounds; `out_of_fuel` is the end of it.
pub mod Mixed
pub mod Ends
use localapp.Base.{
  ℕ, zero, suc, Bool, true, false, ◌||◌, not, Option, none, some, List, [], ◌∷◌, ◌++◌, length, ltb,
  leb, ◌==◌, if◌then◌else◌,
}
use localapp.Text.{Str, text, str_eq}
use localapp.Text.Cut.{cut}

-- Whether a flag takes a value, and what setting it does; `none`: it does not accept the value.
pub record FlagSet (S : Type 0) : Type 0 where
  pub is_bool : Str → Option Bool
  pub set : Str → Str → S → Option S

-- What parseOne finds: a flag that is set, the end of the flags, or an error.
pub data One (S : Type 0) : Type 0 where
  seen stop : S → List Str → One S
  help bad : One S

pub data Parsed (S : Type 0) : Type 0 where
  parsed : S → List Str → Parsed S
  asked_help failed out_of_fuel : Parsed S

module _ {S : Type 0} (flags : FlagSet S) where
  abbrev set_result : Option S → List Str → One S
  set_result none rest = bad
  set_result (some s) rest = seen s rest

  abbrev set_to : Str → Str → S → List Str → One S
  set_to name value s rest = set_result (flags.set name value s) rest

  abbrev with_next : Str → S → List Str → One S
  with_next name s [] = bad
  with_next name s (value ∷ rest) = set_to name value s rest

  abbrev with_value : Bool → Str → Option Str → S → List Str → One S
  with_value true name none s rest = set_to name (text "true") s rest
  with_value true name (some value) s rest = set_to name value s rest
  with_value false name none s rest = with_next name s rest
  with_value false name (some value) s rest = set_to name value s rest

  abbrev of_kind : Option Bool → Str → Option Str → S → List Str → One S
  of_kind none name value s rest =
      if str_eq name (text "help") || str_eq name (text "h") then help else bad
  of_kind (some b) name value s rest = with_value b name value s rest

  unfoldable pub named : Str × Option Str → S → List Str → One S
  unfolding str_eq text
  named (name, value) s rest = of_kind (flags.is_bool name) name value s rest

  -- The name behind the hyphens. An equals sign cannot be its first byte, so a cut at the first one
  -- is the loop of parseOne.
  unfoldable pub flag : Str → S → List Str → One S
  flag [] s rest = bad
  flag (c ∷ name) s rest =
      if c == b'-' || c == b'=' then bad else named (cut b'=' (c ∷ name)) s rest

  -- parseOne
  unfoldable pub parse_one : S → List Str → One S
  parse_one s [] = stop s []
  parse_one s ([] ∷ args) = stop s ([] ∷ args)
  parse_one s ((c ∷ []) ∷ args) = stop s ((c ∷ []) ∷ args)
  parse_one s ((c ∷ d ∷ name) ∷ args) =
      if not (c == b'-')
      then stop s ((c ∷ d ∷ name) ∷ args)
      else if not (d == b'-')
      then flag (d ∷ name) s args
      else if str_eq name []
      then stop s args
      else flag name s args

  abbrev after_one : (S → List Str → Parsed S) → One S → Parsed S
  after_one on (seen s rest) = on s rest
  after_one on (stop s rest) = parsed s rest
  after_one on help = asked_help
  after_one on bad = failed

  -- FlagSet.Parse
  unfoldable pub parse : ℕ → S → List Str → Parsed S
  parse zero s args = out_of_fuel
  parse (suc fuel) s args = after_one (λ s' rest. parse fuel s' rest) (parse_one s args)

  abbrev positional : List Str → (S → List Str → List Str → Parsed S) → Parsed S → Parsed S
  positional found on (parsed s []) = parsed s found
  positional found on (parsed s (a ∷ rest)) = on s rest (found ++ a ∷ [])
  positional found on asked_help = asked_help
  positional found on failed = failed
  positional found on out_of_fuel = out_of_fuel

  -- parseArgs; `found` are the positional arguments so far.
  unfoldable pub parse_args : ℕ → S → List Str → List Str → Parsed S
  parse_args zero s args found = out_of_fuel
  parse_args (suc fuel) s args found =
      positional found (λ s' rest found'. parse_args fuel s' rest found')
        (parse (suc (length args)) s args)
