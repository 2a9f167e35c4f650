-- ===== src/Keyed/Mapping.antt =====
-- Changing every element under its name; positions against lookups.
use localapp.Base.{
  ◌≡◌, ◌≢◌, refl, true, none, some, List, [], ◌∷◌, map, arith, All, get_elem?, ◌>>=◌,
}
use localapp.Text.{Str, str_lt}
use localapp.Text.Order.{str_lt_asymm}
use localapp.Keyed.{find, index_of, insert_by_name, sort_by_name, IsSorted}

pub All-map {ℓ κ μ} :
    {A : Type ℓ} {B : Type κ} (P : A → Type μ) (Q : B → Type μ) (f : A → B)
    → ((a : A) → P a → Q (f a))
    → (xs : List A) → All P xs
    → All Q (map f xs)
All-map P Q f keep [] h = tt
All-map P Q f keep (x ∷ xs) h = (keep x h.0, All-map P Q f keep xs h.1)

module _ {ℓ} {A : Type ℓ} (name : A → Str) where
  pub get_elem?-index_of :
      (k : Str) (xs : List A)
      → (elim (index_of name k xs) [ none ↦ none | some i ↦ get_elem? xs i ]) ≡ find name k xs
  unfolding index_of find
  get_elem?-index_of k [] = refl
  get_elem?-index_of k (x ∷ xs) = ground (arith, get_elem?-index_of k xs)

  pub find_of_index : (k : Str) (xs : List A) → index_of name k xs ≡ none → find name k xs ≡ none
  unfolding index_of find
  find_of_index k [] h = refl
  find_of_index k (x ∷ xs) h = ground (arith, find_of_index k xs)

  pub find-map :
      (f : A → A)
      → ((a : A) → name (f a) ≡ name a)
      → (k : Str) (xs : List A) → find name k (map f xs) ≡ (find name k xs >>= λ a. some (f a))
  unfolding find
  find-map f keep k [] = refl
  find-map f keep k (x ∷ xs) = rw (keep x) (ground (arith, find-map f keep k xs))

  pub IsSorted-map :
      (f : A → A)
      → ((a : A) → name (f a) ≡ name a)
      → (xs : List A) → IsSorted name xs
      → IsSorted name (map f xs)
  IsSorted-map f keep [] h = tt
  IsSorted-map f keep (x ∷ xs) h = (
    All-map (λ y. str_lt (name x) (name y) ≡ true) (λ y. str_lt (name (f x)) (name y) ≡ true) f
        (λ y lt. rw (keep x, keep y) lt) xs h.0,
    IsSorted-map f keep xs h.1,
  )

  insert-ne-nil : (x : A) (xs : List A) → insert_by_name name x xs ≢ []
  unfolding insert_by_name
  insert-ne-nil x [] h = cc
  insert-ne-nil x (y ∷ ys) h = ground arith

  pub sort-ne-nil : (xs : List A) → xs ≢ [] → sort_by_name name xs ≢ []
  unfolding sort_by_name
  sort-ne-nil [] n = n
  sort-ne-nil (x ∷ xs) n = insert-ne-nil x (sort_by_name name xs)

  -- What ascends already is left as it is.
  pub sort_of_IsSorted : (xs : List A) → IsSorted name xs → sort_by_name name xs ≡ xs
  unfolding sort_by_name
  sort_of_IsSorted [] h = refl
  sort_of_IsSorted (x ∷ xs) h = rw (sort_of_IsSorted xs h.1) (insert_of_least x xs h.0)
    where
      insert_of_least :
          (x : A) (xs : List A)
          → All (λ y. str_lt (name x) (name y) ≡ true) xs
          → insert_by_name name x xs ≡ x ∷ xs
      insert_of_least x [] k = unfold insert_by_name in refl
      insert_of_least x (y ∷ ys) k =
          unfold insert_by_name in rw (str_lt_asymm (name x) (name y) k.0)
