-- ===== src/Keyed/Sorting.antt =====
-- Sorting by name: its order, and looking a name up afterwards.
use localapp.Base.{
  ◌≡◌, ◌≢◌, refl, true, false, some, List, [], ◌∷◌, arith, if◌then◌else◌, All, All_mono, Bool-cases,
  inl, inr,
}
use localapp.Text.{Str, str_eq, str_lt}
use localapp.Text.Order.{str_eq_iff, str_lt_trans, str_lt_total, ne_of_str_lt}
use localapp.Keyed.{find, insert_by_name, sort_by_name, IsNew, IsUnique, IsSorted}

module _ {ℓ} {A : Type ℓ} (name : A → Str) where
  module _ {κ} (P : A → Type κ) where
    All-insert : (x : A) (xs : List A) → P x → All P xs → All P (insert_by_name name x xs)
    unfolding insert_by_name
    All-insert x [] p h = (p, tt)
    All-insert x (y ∷ xs) p h = elim (Bool-cases (str_lt (name y) (name x))) [
      | inl e ↦ rw e (h.0, All-insert x xs p h.1)
      | inr e ↦ rw e (p, h)
    ]

    pub All-sort : (xs : List A) → All P xs → All P (sort_by_name name xs)
    unfolding sort_by_name
    All-sort [] h = tt
    All-sort (x ∷ xs) h = All-insert x (sort_by_name name xs) h.0 (All-sort xs h.1)

  find-insert :
      (k : Str) (x : A) (xs : List A)
      → IsNew name (name x) xs
      → find name k (insert_by_name name x xs)
        ≡ (if str_eq (name x) k then some x else find name k xs)
  unfolding find insert_by_name
  find-insert k x [] n = refl
  find-insert k x (y ∷ xs) n =
      ground (arith, find-insert k x xs n.1, str_eq_iff (name x) k, str_eq_iff (name y) k, n.0)

  -- Sorting changes no lookup.
  pub find-sort :
      (k : Str) (xs : List A)
      → IsUnique name xs
      → find name k (sort_by_name name xs) ≡ find name k xs
  unfolding sort_by_name
  find-sort k [] u = refl
  find-sort k (x ∷ xs) u =
      rw
        (
          find-insert k x (sort_by_name name xs) (All-sort (λ y. name y ≢ name x) xs u.0),
          find-sort k xs u.1,
        )
        (unfold find in refl)

  insert-IsSorted :
      (x : A) (xs : List A)
      → IsNew name (name x) xs
      → IsSorted name xs
      → IsSorted name (insert_by_name name x xs)
  unfolding insert_by_name
  insert-IsSorted x [] n h = (tt, tt)
  insert-IsSorted x (y ∷ xs) n h = elim (Bool-cases (str_lt (name y) (name x))) [
    | inl e ↦
        rw e (
          All-insert (λ z. str_lt (name y) (name z) ≡ true) x xs e h.0,
          insert-IsSorted x xs n.1 h.1,
        )
    | inr e ↦ rw e (above e, h)
  ]
    where
      above : str_lt (name y) (name x) ≡ false → All (λ z. str_lt (name x) (name z) ≡ true) (y ∷ xs)
      above e =
          let lt = str_lt_total (name y) (name x) n.0 e in
          (
            lt,
            All_mono (λ z. str_lt (name y) (name z) ≡ true) (λ z. str_lt (name x) (name z) ≡ true)
                (λ z p. str_lt_trans (name x) (name y) (name z) lt p) xs h.0,
          )

  -- Distinct names come out in strictly ascending order.
  pub sort-IsSorted : (xs : List A) → IsUnique name xs → IsSorted name (sort_by_name name xs)
  unfolding sort_by_name
  sort-IsSorted [] u = tt
  sort-IsSorted (x ∷ xs) u =
      insert-IsSorted x (sort_by_name name xs) (All-sort (λ y. name y ≢ name x) xs u.0)
        (sort-IsSorted xs u.1)

  pub IsSorted-IsUnique : (xs : List A) → IsSorted name xs → IsUnique name xs
  IsSorted-IsUnique [] h = tt
  IsSorted-IsUnique (x ∷ xs) h = (
    All_mono (λ y. str_lt (name x) (name y) ≡ true) (λ y. name y ≢ name x)
        (λ y lt e. ne_of_str_lt (name x) (name y) lt (flip e)) xs h.0,
    IsSorted-IsUnique xs h.1,
  )
    where
      flip : {a b : Str} → a ≡ b → b ≡ a
      flip e = cc
