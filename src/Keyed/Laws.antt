-- ===== src/Keyed/Laws.antt =====
-- Looking a name up after one place of the slice was changed.
use localapp.Base.{
  ℕ, zero, suc, ◌≡◌, ◌≢◌, refl, none, some, List, [], ◌∷◌, ◌++◌, arith, if◌then◌else◌, All,
  All-append, Bool-cases, inl, inr, get_elem?,
}
use mathlib.Core.List.{Memᴰ}
use localapp.Text.{Str, str_eq}
use localapp.Text.Order.{str_eq_iff, str_eq-eq-false}
use localapp.Keyed.{modify_at, remove_at, find, index_of, IsNew, IsUnique}

module _ {ℓ κ} {A : Type ℓ} (P : A → Type κ) where
  pub All-modify_at :
      (f : A → A)
      → ((x : A) → P x → P (f x))
      → (i : ℕ) (xs : List A) → All P xs
      → All P (modify_at f i xs)
  unfolding modify_at
  All-modify_at f keep i [] h = tt
  All-modify_at f keep zero (x ∷ xs) h = (keep x h.0, h.1)
  All-modify_at f keep (suc i) (x ∷ xs) h = (h.0, All-modify_at f keep i xs h.1)

  pub All-remove_at : (i : ℕ) (xs : List A) → All P xs → All P (remove_at i xs)
  unfolding remove_at
  All-remove_at i [] h = tt
  All-remove_at zero (x ∷ xs) h = h.1
  All-remove_at (suc i) (x ∷ xs) h = (h.0, All-remove_at i xs h.1)

module _ {ℓ} {A : Type ℓ} (name : A → Str) where
  find_of_IsNew : (k : Str) (xs : List A) → IsNew name k xs → find name k xs ≡ none
  unfolding find
  find_of_IsNew k [] h = refl
  find_of_IsNew k (x ∷ xs) h = rw (str_eq-eq-false (name x) k h.0) (find_of_IsNew k xs h.1)

  pub IsNew-find : (k : Str) (xs : List A) → find name k xs ≡ none → IsNew name k xs
  unfolding find
  IsNew-find k [] h = tt
  IsNew-find k (x ∷ xs) h = (ground (arith, str_eq_iff (name x) k), IsNew-find k xs (ground arith))

  pub name_of_find : (k : Str) (xs : List A) (a : A) → find name k xs ≡ some a → name a ≡ k
  unfolding find
  name_of_find k [] a h = cc
  name_of_find k (x ∷ xs) a h = ground (arith, str_eq_iff (name x) k, name_of_find k xs a)

  pub find-Memᴰ : (k : Str) (xs : List A) (a : A) → find name k xs ≡ some a → Memᴰ a xs
  unfolding find
  find-Memᴰ k [] a h = cc
  find-Memᴰ k (x ∷ xs) a h = elim (Bool-cases (str_eq (name x) k)) [
    | inl e ↦ Memᴰ.head (ground arith)
    | inr e ↦ Memᴰ.tail (find-Memᴰ k xs a (ground arith))
  ]

  pub All_of_find {κ} :
      (P : A → Type κ) (k : Str) (xs : List A) (a : A) → All P xs → find name k xs ≡ some a → P a
  unfolding find
  All_of_find P k [] a h e = cc
  All_of_find P k (x ∷ xs) a h e = elim (Bool-cases (str_eq (name x) k)) [
    | inl t ↦ rw (some-inj (rw t at e)) at h.0
    | inr t ↦ All_of_find P k xs a h.1 (rw t at e)
  ]
    where
      some-inj : {u v : A} → some u ≡ some v → u ≡ v
      some-inj p = cc

  -- The position and the element that the two loops find agree.
  pub index_of-find :
      (k : Str) (xs : List A) (a : A)
      → find name k xs ≡ some a
      → (i : ℕ) × (index_of name k xs ≡ some i) × (get_elem? xs i ≡ some a)
  unfolding find index_of
  index_of-find k [] a h = cc
  index_of-find k (x ∷ xs) a h = elim (Bool-cases (str_eq (name x) k)) [
    | inl e ↦ (0, rw e, rw e at h)
    | inr e ↦ let (i, at_i, is_a) = index_of-find k xs a (rw e at h) in (suc i, rw (e, at_i), is_a)
  ]

  pub index_of-none : (k : Str) (xs : List A) → find name k xs ≡ none → index_of name k xs ≡ none
  unfolding find index_of
  index_of-none k [] h = refl
  index_of-none k (x ∷ xs) h = ground (arith, index_of-none k xs)

  pub find-append-new :
      (k : Str) (xs : List A) (x : A)
      → find name (name x) xs ≡ none
      → find name k (xs ++ x ∷ []) ≡ (if str_eq (name x) k then some x else find name k xs)
  unfolding find
  find-append-new k [] x h = refl
  find-append-new k (y ∷ xs) x h = ground (
    arith,
    find-append-new k xs x,
    str_eq_iff (name y) k,
    str_eq_iff (name x) k,
    str_eq_iff (name y) (name x),
  )

  -- A change of the element named `k` that keeps its name shows under `k` alone.
  pub find-modify_at :
      (f : A → A) (k j : Str) (xs : List A) (i : ℕ) (a : A)
      → ((x : A) → name x ≡ k → name (f x) ≡ k)
      → index_of name k xs ≡ some i
      → find name k xs ≡ some a
      → find name j (modify_at f i xs) ≡ (if str_eq k j then some (f a) else find name j xs)
  unfolding find index_of modify_at
  find-modify_at f k j [] i a keep at_i h = cc
  find-modify_at f k j (x ∷ xs) zero a keep at_i h = ground (
    arith,
    keep x,
    str_eq_iff (name x) k,
    str_eq_iff k j,
    str_eq_iff (name x) j,
    str_eq_iff (name (f x)) j,
  )
  find-modify_at f k j (x ∷ xs) (suc i) a keep at_i h = ground (
    arith,
    find-modify_at f k j xs i a keep,
    str_eq_iff (name x) k,
    str_eq_iff k j,
    str_eq_iff (name x) j,
  )

  IsNew-modify_at :
      (f : A → A) (k l : Str) (xs : List A) (i : ℕ)
      → ((x : A) → name x ≡ k → name (f x) ≡ k)
      → index_of name k xs ≡ some i
      → IsNew name l xs
      → IsNew name l (modify_at f i xs)
  unfolding index_of modify_at
  IsNew-modify_at f k l [] i keep at_i n = tt
  IsNew-modify_at f k l (x ∷ xs) zero keep at_i n =
      (ground (arith, keep x, str_eq_iff (name x) k, n.0), n.1)
  IsNew-modify_at f k l (x ∷ xs) (suc i) keep at_i n =
      (n.0, IsNew-modify_at f k l xs i keep (ground arith) n.1)

  pub IsUnique-modify_at :
      (f : A → A) (k : Str) (xs : List A) (i : ℕ)
      → ((x : A) → name x ≡ k → name (f x) ≡ k)
      → index_of name k xs ≡ some i
      → IsUnique name xs
      → IsUnique name (modify_at f i xs)
  unfolding index_of modify_at
  IsUnique-modify_at f k [] i keep at_i u = tt
  IsUnique-modify_at f k (x ∷ xs) zero keep at_i u =
      (rw (same_name (ground (arith, str_eq_iff (name x) k))) u.0, u.1)
    where
      same_name : name x ≡ k → name (f x) ≡ name x
      same_name e = cc (keep x e)
  IsUnique-modify_at f k (x ∷ xs) (suc i) keep at_i u =
      let later : index_of name k xs ≡ some i = ground arith in
      (IsNew-modify_at f k (name x) xs i keep later u.0, IsUnique-modify_at f k xs i keep later u.1)

  pub IsUnique-remove_at : (i : ℕ) (xs : List A) → IsUnique name xs → IsUnique name (remove_at i xs)
  unfolding remove_at
  IsUnique-remove_at i [] h = tt
  IsUnique-remove_at zero (x ∷ xs) h = h.1
  IsUnique-remove_at (suc i) (x ∷ xs) h =
      (All-remove_at (λ y. name y ≢ name x) i xs h.0, IsUnique-remove_at i xs h.1)

  pub IsUnique-append :
      (xs : List A) (x : A)
      → IsUnique name xs
      → IsNew name (name x) xs
      → IsUnique name (xs ++ x ∷ [])
  IsUnique-append [] x h n = (tt, tt)
  IsUnique-append (y ∷ xs) x h n = (
    All-append (λ z. name z ≢ name y) xs (x ∷ []) h.0 (λ e. n.0 (sym_name e), tt),
    IsUnique-append xs x h.1 n.1,
  )
    where
      sym_name : name x ≡ name y → name y ≡ name x
      sym_name e = cc

  -- Removing the element named `k` removes that name alone, where names are distinct.
  pub find-remove_at :
      (k j : Str) (xs : List A) (i : ℕ)
      → IsUnique name xs
      → index_of name k xs ≡ some i
      → find name j (remove_at i xs) ≡ (if str_eq k j then none else find name j xs)
  unfolding find index_of remove_at
  find-remove_at k j [] i u h = cc
  find-remove_at k j (x ∷ xs) zero u h = ground (
    arith,
    str_eq_iff (name x) k,
    str_eq_iff k j,
    str_eq_iff (name x) j,
    find_of_IsNew (name x) xs u.0,
  )
  find-remove_at k j (x ∷ xs) (suc i) u h = ground (
    arith,
    find-remove_at k j xs i u.1,
    str_eq_iff (name x) k,
    str_eq_iff k j,
    str_eq_iff (name x) j,
  )
