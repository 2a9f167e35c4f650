-- ===== src/Cmd/Flags/Mixed.antt =====
-- Flags and positional arguments may stand in any order.
use localapp.Base.{
  ℕ, zero, suc, ◌≤◌, ◌<◌, ◌≡◌, refl, sym, ap, ◌∙◌, inl, inr, Bool-cases, true, false, Option, none,
  some, Option-cases, List, [], ◌∷◌, ◌++◌, append-nil, append_assoc, length, arith, ◌==◌, ◌>>=◌,
  All,
}
use localapp.Text.{Str, str_eq, text, contains}
use localapp.Text.Cut.{cut_of_contains}
use localapp.Cmd.Flags.{
  FlagSet, One, seen, stop, help, bad, Parsed, parsed, after_one, named, flag, parse_one, parse,
  positional, parse_args,
}
use localapp.Cmd.Flags.Ends.{Leaves, parse_one-Leaves}

-- A positional argument, a Boolean flag, and a flag with its value behind it.
pub data Piece : Type 0 where
  plain switch : Str → Piece
  option : Str → Str → Piece

unfoldable pub render : List Piece → List Str
render [] = []
render (plain p ∷ pieces) = p ∷ render pieces
render (switch name ∷ pieces) = (b'-' ∷ b'-' ∷ name) ∷ render pieces
render (option name value ∷ pieces) = (b'-' ∷ b'-' ∷ name) ∷ value ∷ render pieces

pub plains : List Piece → List Str
plains [] = []
plains (plain p ∷ pieces) = p ∷ plains pieces
plains (switch name ∷ pieces) = plains pieces
plains (option name value ∷ pieces) = plains pieces

abbrev pub IsPlain : Str → Type 0
IsPlain [] = Unit
IsPlain (c ∷ []) = Unit
IsPlain (c ∷ d ∷ p) = (c == b'-') ≡ false

abbrev pub IsFlagName : Str → Type 0
IsFlagName [] = ⊥
IsFlagName (c ∷ name) = ((c == b'-') ≡ false) × (contains b'=' (c ∷ name) ≡ false)

module _ {S : Type 0} (flags : FlagSet S) where
  abbrev pub IsPiece : Piece → Type 0
  IsPiece (plain p) = IsPlain p
  IsPiece (switch name) = IsFlagName name × (flags.is_bool name ≡ some true)
  IsPiece (option name value) = IsFlagName name × (flags.is_bool name ≡ some false)

  -- The settings, one after the other.
  unfoldable pub settings : List Piece → S → Option S
  settings [] s = some s
  settings (plain p ∷ pieces) s = settings pieces s
  settings (switch name ∷ pieces) s = flags.set name (text "true") s >>= settings pieces
  settings (option name value ∷ pieces) s = flags.set name value s >>= settings pieces

  after_one-same :
      (on on' : S → List Str → Parsed S) (n : ℕ) (o : One S)
      → ((s : S) (rest : List Str) → length rest ≤ n → on s rest ≡ on' s rest)
      → Leaves flags n o
      → after_one flags on o ≡ after_one flags on' o
  after_one-same on on' n (seen s rest) k l = k s rest l
  after_one-same on on' n (stop s rest) k l = refl
  after_one-same on on' n help k l = refl
  after_one-same on on' n bad k l = refl

  -- More fuel makes no difference.
  parse-fuel :
      (f g : ℕ) (s : S) (args : List Str)
      → length args < f
      → length args < g
      → parse flags f s args ≡ parse flags g s args
  unfolding parse
  parse-fuel zero g s args h k = absurd (omega arith)
  parse-fuel (suc f) zero s args h k = absurd (omega arith)
  parse-fuel (suc f) (suc g) s [] h k = unfold parse_one in refl
  parse-fuel (suc f) (suc g) s (a ∷ args) h k =
      after_one-same (λ s' rest. parse flags f s' rest) (λ s' rest. parse flags g s' rest)
        (length args) (parse_one flags s (a ∷ args))
        (λ s' rest l. parse-fuel f g s' rest (omega arith) (omega arith))
        (parse_one-Leaves flags s a args)

  -- A flag that is set is passed over.
  parse_args-seen :
      (fuel : ℕ) (s s' : S) (a : Str) (args rest found : List Str)
      → parse_one flags s (a ∷ args) ≡ seen s' rest
      → length rest ≤ length args
      → parse_args flags (suc fuel) s (a ∷ args) found ≡ parse_args flags (suc fuel) s' rest found
  unfolding parse_args parse
  parse_args-seen fuel s s' a args rest found e h =
      let same : parse flags (suc (length args)) s' rest ≡ parse flags (suc (length rest)) s' rest =
        parse-fuel (suc (length args)) (suc (length rest)) s' rest (omega arith) (omega arith) in
      rw e
        (ap (positional flags found (λ s' rest found'. parse_args flags fuel s' rest found')) same)

  parse_one-plain :
      (s : S) (p : Str) (args : List Str)
      → IsPlain p
      → parse_one flags s (p ∷ args) ≡ stop s (p ∷ args)
  unfolding parse_one
  parse_one-plain s [] args h = refl
  parse_one-plain s (c ∷ []) args h = refl
  parse_one-plain s (c ∷ d ∷ p) args h = rw h refl

  parse_one-flag :
      (s : S) (name : Str) (args : List Str)
      → IsFlagName name
      → parse_one flags s ((b'-' ∷ b'-' ∷ name) ∷ args) ≡ named flags (name, none) s args
  unfolding parse_one flag str_eq
  parse_one-flag s [] args h = absurd h
  parse_one-flag s (c ∷ name) args (h, free) =
      let other : (c == b'=') ≡ false = elim (Bool-cases (c == b'=')) [
        | inl e ↦ unfold contains in cc (rw e at free)
        | inr e ↦ e
      ] in
      rw (h, other, cut_of_contains b'=' (c ∷ name) free) refl

  -- The flags end at a positional argument, which is taken.
  parse_args-stop :
      (fuel : ℕ) (s : S) (p : Str) (args found : List Str)
      → parse_one flags s (p ∷ args) ≡ stop s (p ∷ args)
      → parse_args flags (suc fuel) s (p ∷ args) found
        ≡ parse_args flags fuel s args (found ++ p ∷ [])
  unfolding parse_args parse
  parse_args-stop fuel s p args found e = rw e refl

  switch-seen :
      (s s' : S) (name : Str) (args : List Str)
      → IsFlagName name
      → flags.is_bool name ≡ some true
      → flags.set name (text "true") s ≡ some s'
      → parse_one flags s ((b'-' ∷ b'-' ∷ name) ∷ args) ≡ seen s' args
  unfolding named
  switch-seen s s' name args n k e = parse_one-flag s name args n ∙ rw (k, e) refl

  option-seen :
      (s s' : S) (name value : Str) (args : List Str)
      → IsFlagName name
      → flags.is_bool name ≡ some false
      → flags.set name value s ≡ some s'
      → parse_one flags s ((b'-' ∷ b'-' ∷ name) ∷ value ∷ args) ≡ seen s' args
  unfolding named
  option-seen s s' name value args n k e = parse_one-flag s name (value ∷ args) n ∙ rw (k, e) refl

  -- For any mix of positional arguments that do not begin with a dash (or are a lone dash), boolean
  -- flags, and flags with a value, in any order, of which the flags accept every value: with more
  -- fuel than arguments, parseArgs sets the flags in order and returns the positional arguments in
  -- order.
  pub parse_args-render :
      (fuel : ℕ) (pieces : List Piece) (s s' : S) (found : List Str)
      → length (render pieces) < fuel
      → All IsPiece pieces
      → settings pieces s ≡ some s'
      → parse_args flags fuel s (render pieces) found ≡ parsed s' (found ++ plains pieces)
  unfolding render plains settings
  parse_args-render zero pieces s s' found h ok e = absurd (omega arith)
  parse_args-render (suc fuel) [] s s' found h ok e =
      unfold parse_args parse parse_one in
      (ap (λ x. parsed x found) (cc e) ∙ ap (λ l. parsed s' l) (sym (append-nil found)))
  parse_args-render (suc fuel) (plain p ∷ pieces) s s' found h ok e =
      parse_args-stop fuel s p (render pieces) found (parse_one-plain s p (render pieces) ok.0)
      ∙ parse_args-render fuel pieces s s' (found ++ p ∷ []) (omega arith) ok.1 e
      ∙ ap (λ l. parsed s' l) (append_assoc found (p ∷ []) (plains pieces))
  parse_args-render (suc fuel) (switch name ∷ pieces) s s' found h ok e =
      elim (Option-cases (flags.set name (text "true") s)) [
        | inl f ↦ cc (rw f at e)
        | inr (s1, f) ↦
            parse_args-seen fuel s s1 _ (render pieces) (render pieces) found
              (switch-seen s s1 name (render pieces) ok.0.0 ok.0.1 f) (omega arith)
            ∙ parse_args-render (suc fuel) pieces s1 s' found (omega arith) ok.1 (rw f at e)
      ]
  parse_args-render (suc fuel) (option name value ∷ pieces) s s' found h ok e =
      elim (Option-cases (flags.set name value s)) [
        | inl f ↦ cc (rw f at e)
        | inr (s1, f) ↦
            parse_args-seen fuel s s1 _ (value ∷ render pieces) (render pieces) found
              (option-seen s s1 name value (render pieces) ok.0.0 ok.0.1 f) (omega arith)
            ∙ parse_args-render (suc fuel) pieces s1 s' found (omega arith) ok.1 (rw f at e)
      ]
