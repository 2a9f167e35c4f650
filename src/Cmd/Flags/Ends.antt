-- ===== src/Cmd/Flags/Ends.antt =====
-- The loops end: the fuel is enough.
use localapp.Base.{
  ℕ, zero, suc, ◌≤◌, ◌<◌, ◌≢◌, inl, inr, Bool, Bool-cases, true, false, ◌||◌, Option, none, some,
  List, [], ◌∷◌, ◌++◌, length, arith, ◌==◌,
}
use localapp.Text.{Str, str_eq, text}
use localapp.Text.Cut.{cut}
use localapp.Cmd.Flags.{
  FlagSet, One, seen, stop, help, bad, Parsed, parsed, asked_help, failed, out_of_fuel, set_result,
  of_kind, after_one, with_value, named, flag, parse_one, parse, positional, parse_args,
}

module _ {S : Type 0} (flags : FlagSet S) where
  -- A flag that is set leaves at most `n` arguments, and the end of the flags as well.
  abbrev pub Leaves : ℕ → One S → Type 0
  Leaves n (seen s rest) = length rest ≤ n
  Leaves n (stop s rest) = length rest ≤ suc n
  Leaves n help = Unit
  Leaves n bad = Unit

  set_result-Leaves :
      (o : Option S) (rest : List Str) (n : ℕ)
      → length rest ≤ n
      → Leaves n (set_result flags o rest)
  set_result-Leaves none rest n h = tt
  set_result-Leaves (some s) rest n h = h

  with_value-Leaves :
      (b : Bool) (name : Str) (value : Option Str) (s : S) (rest : List Str)
      → Leaves (length rest) (with_value flags b name value s rest)
  with_value-Leaves true name none s rest = set_result-Leaves _ rest (length rest) (omega arith)
  with_value-Leaves true name (some v) s rest = set_result-Leaves _ rest (length rest) (omega arith)
  with_value-Leaves false name none s [] = tt
  with_value-Leaves false name none s (v ∷ rest) =
      set_result-Leaves _ rest (suc (length rest)) (omega arith)
  with_value-Leaves false name (some v) s rest =
      set_result-Leaves _ rest (length rest) (omega arith)

  of_kind-Leaves :
      (o : Option Bool) (name : Str) (value : Option Str) (s : S) (rest : List Str)
      → Leaves (length rest) (of_kind flags o name value s rest)
  of_kind-Leaves none name value s rest =
      elim (Bool-cases (str_eq name (text "help") || str_eq name (text "h"))) [
        | inl f ↦ rw f tt
        | inr f ↦ rw f tt
      ]
  of_kind-Leaves (some b) name value s rest = with_value-Leaves b name value s rest

  named-Leaves :
      (part : Str × Option Str) (s : S) (rest : List Str)
      → Leaves (length rest) (named flags part s rest)
  unfolding named
  named-Leaves (name, value) s rest = of_kind-Leaves (flags.is_bool name) name value s rest

  flag-Leaves :
      (name : Str) (s : S) (rest : List Str) → Leaves (length rest) (flag flags name s rest)
  unfolding flag
  flag-Leaves [] s rest = tt
  flag-Leaves (c ∷ name) s rest = elim (Bool-cases (c == b'-' || c == b'=')) [
    | inl e ↦ rw e tt
    | inr e ↦ rw e (named-Leaves (cut b'=' (c ∷ name)) s rest)
  ]

  pub parse_one-Leaves :
      (s : S) (a : Str) (args : List Str) → Leaves (length args) (parse_one flags s (a ∷ args))
  unfolding parse_one
  parse_one-Leaves s [] args = omega arith
  parse_one-Leaves s (c ∷ []) args = omega arith
  parse_one-Leaves s (c ∷ d ∷ name) args = elim (Bool-cases (c == b'-')) [
    | inr e ↦ rw e (omega arith)
    | inl e ↦ elim (Bool-cases (d == b'-')) [
      | inr f ↦ rw (e, f) (flag-Leaves (d ∷ name) s args)
      | inl f ↦ elim (Bool-cases (str_eq name [])) [
        | inl g ↦ rw (e, f, g) (omega arith)
        | inr g ↦ rw (e, f, g) (flag-Leaves name s args)
      ]
    ]
  ]

  -- Parse ends, with no more arguments than it was given.
  abbrev Ends : ℕ → Parsed S → Type 0
  Ends n (parsed s rest) = length rest ≤ n
  Ends n asked_help = Unit
  Ends n failed = Unit
  Ends n out_of_fuel = ⊥

  weaken : (n : ℕ) (p : Parsed S) → Ends n p → Ends (suc n) p
  weaken n (parsed s rest) h = omega arith
  weaken n asked_help h = tt
  weaken n failed h = tt
  weaken n out_of_fuel h = h

  more : (m n : ℕ) → m ≤ n → (o : One S) → Leaves m o → Leaves n o
  more m n h (seen s rest) l = omega arith
  more m n h (stop s rest) l = omega arith
  more m n h help l = tt
  more m n h bad l = tt

  after_one-Ends :
      (on : S → List Str → Parsed S) (n : ℕ) (o : One S)
      → ((s : S) (rest : List Str) → length rest ≤ n → Ends n (on s rest))
      → Leaves n o
      → Ends (suc n) (after_one flags on o)
  after_one-Ends on n (seen s rest) k l = weaken n (on s rest) (k s rest l)
  after_one-Ends on n (stop s rest) k l = l
  after_one-Ends on n help k l = tt
  after_one-Ends on n bad k l = tt

  parse-Ends :
      (fuel n : ℕ) (s : S) (args : List Str)
      → length args ≤ n
      → n < fuel
      → Ends n (parse flags fuel s args)
  unfolding parse
  parse-Ends zero n s args h k = absurd (omega arith)
  parse-Ends (suc fuel) n s [] h k = unfold parse_one in (omega arith)
  parse-Ends (suc fuel) zero s (a ∷ args) h k = absurd (omega arith)
  parse-Ends (suc fuel) (suc n) s (a ∷ args) h k =
      after_one-Ends (λ s' rest. parse flags fuel s' rest) n (parse_one flags s (a ∷ args))
        (λ s' rest l. parse-Ends fuel n s' rest l (omega arith))
        (more (length args) n (omega arith) (parse_one flags s (a ∷ args))
          (parse_one-Leaves s a args))

  positional-Ends :
      (fuel n : ℕ) (found : List Str) (on : S → List Str → List Str → Parsed S) (p : Parsed S)
      → Ends n p
      → ((s : S) (rest found' : List Str) → length rest < n → on s rest found' ≢ out_of_fuel)
      → positional flags found on p ≢ out_of_fuel
  positional-Ends fuel n found on (parsed s []) h k = λ e. cc
  positional-Ends fuel n found on (parsed s (a ∷ rest)) h k =
      k s rest (found ++ a ∷ []) (omega arith)
  positional-Ends fuel n found on asked_help h k = λ e. cc
  positional-Ends fuel n found on failed h k = λ e. cc
  positional-Ends fuel n found on out_of_fuel h k = absurd h

  -- Whatever the flags and the arguments, parseArgs ends: with more fuel than there are arguments
  -- it never runs out of it.
  pub parse_args-ne-out_of_fuel :
      (fuel : ℕ) (s : S) (args found : List Str)
      → length args < fuel
      → parse_args flags fuel s args found ≢ out_of_fuel
  unfolding parse_args
  parse_args-ne-out_of_fuel zero s args found h = absurd (omega arith)
  parse_args-ne-out_of_fuel (suc fuel) s args found h =
      positional-Ends fuel (length args) found _ (parse flags (suc (length args)) s args)
        (parse-Ends (suc (length args)) (length args) s args (omega arith) (omega arith))
        (λ s' rest found' l. parse_args-ne-out_of_fuel fuel s' rest found' (omega arith))
