-- ===== src/Text/Affix.antt =====
-- Prefixes and suffixes.
use localapp.Base.{
  ◌-◌, ◌≡◌, refl, true, false, some, [], ◌∷◌, ◌++◌, ap, sym, ◌∙◌, arith, length, take, drop,
  take-append-drop, take-length-append, drop-length-append, length-append, le→leb, &&-eq-true,
}
use localapp.Text.{Str, has_prefix, cut_prefix, has_suffix, cut_suffix, trim_suffix, trim_prefix}
use localapp.Text.Order.{str_eq→eq, str_eq_refl}

pub has_prefix-append : (p s : Str) → has_prefix (p ++ s) p ≡ true
unfolding has_prefix
has_prefix-append [] s = refl
has_prefix-append (x ∷ p) s = ground (arith, has_prefix-append p s)

pub eq_of_has_prefix : (s p : Str) → has_prefix s p ≡ true → s ≡ p ++ drop (length p) s
unfolding has_prefix
eq_of_has_prefix s [] h = refl
eq_of_has_prefix [] (y ∷ p) h = cc
eq_of_has_prefix (x ∷ s) (y ∷ p) h = ground (arith, eq_of_has_prefix s p)

pub cut_prefix-append : (p s : Str) → cut_prefix (p ++ s) p ≡ some s
unfolding cut_prefix
cut_prefix-append p s = rw has_prefix-append (ap some (drop-length-append p s))

pub eq_of_cut_prefix : (s p t : Str) → cut_prefix s p ≡ some t → s ≡ p ++ t
unfolding cut_prefix
eq_of_cut_prefix s p t h = ground (arith, eq_of_has_prefix s p)

sub-length-append : (t p : Str) → length (t ++ p) - length p ≡ length t
sub-length-append t p = omega (arith, length-append t p)

pub has_suffix-append : (t p : Str) → has_suffix (t ++ p) p ≡ true
unfolding has_suffix
has_suffix-append t p =
    rw (sub-length-append t p, drop-length-append t p, str_eq_refl p)
      (rw (le→leb (length p) (length (t ++ p)) (omega (arith, length-append t p))))

pub cut_suffix-append : (t p : Str) → cut_suffix (t ++ p) p ≡ some t
unfolding cut_suffix
cut_suffix-append t p =
    rw (has_suffix-append t p, sub-length-append t p) (ap some (take-length-append t p))

pub eq_of_has_suffix : (s p : Str) → has_suffix s p ≡ true → s ≡ take (length s - length p) s ++ p
unfolding has_suffix
eq_of_has_suffix s p h =
    sym (take-append-drop (length s - length p) s)
    ∙ ap (λ r. take (length s - length p) s ++ r)
        (str_eq→eq (drop (length s - length p) s) p (&&-eq-true _ _ h).1)

cut_suffix_total : (s p : Str) → has_suffix s p ≡ true → (t : Str) × (cut_suffix s p ≡ some t)
unfolding cut_suffix
cut_suffix_total s p h = (take (length s - length p) s, rw h)

pub trim_suffix-append : (t p : Str) → trim_suffix (t ++ p) p ≡ t
unfolding trim_suffix
trim_suffix-append t p = rw (cut_suffix-append t p, trim_suffix)

pub trim_suffix_of_has_suffix : (s p : Str) → has_suffix s p ≡ false → trim_suffix s p ≡ s
unfolding trim_suffix cut_suffix
trim_suffix_of_has_suffix s p h = ground arith

pub trim_prefix_of_has_prefix : (s p : Str) → has_prefix s p ≡ false → trim_prefix s p ≡ s
unfolding trim_prefix cut_prefix
trim_prefix_of_has_prefix s p h = ground arith

eq_of_cut_suffix : (s p t : Str) → cut_suffix s p ≡ some t → s ≡ t ++ p
unfolding cut_suffix
eq_of_cut_suffix s p t h = ground (arith, eq_of_has_suffix s p)

pub eq_of_trim_suffix : (s p : Str) → has_suffix s p ≡ true → s ≡ trim_suffix s p ++ p
unfolding trim_suffix
eq_of_trim_suffix s p h =
    let (t, e) = cut_suffix_total s p h in rw (e, trim_suffix) (eq_of_cut_suffix s p t e)
