-- ===== src/Keyed.antt =====
-- Slices of named records, as the registry keeps its apps and the services of an app: the loops
-- that look a name up, and the slice operations that change one place. `name` reads the name.
pub mod Laws
pub mod Sorting
pub mod Mapping
use localapp.Base.{
  ℕ, zero, suc, ◌≡◌, ◌≢◌, true, Option, none, some, List, [], ◌∷◌, if◌then◌else◌, All,
}
use localapp.Text.{Str, str_eq, str_lt}

module _ {ℓ} {A : Type ℓ} where
  -- s[i] = f(s[i]); out of range nothing changes.
  unfoldable pub modify_at : (A → A) → ℕ → List A → List A
  modify_at f i [] = []
  modify_at f zero (x ∷ xs) = f x ∷ xs
  modify_at f (suc i) (x ∷ xs) = x ∷ modify_at f i xs

  -- append(s[:i], s[i+1:]...)
  unfoldable pub remove_at : ℕ → List A → List A
  remove_at i [] = []
  remove_at zero (x ∷ xs) = xs
  remove_at (suc i) (x ∷ xs) = x ∷ remove_at i xs

module _ {ℓ} {A : Type ℓ} (name : A → Str) where
  -- The first element of that name.
  unfoldable pub find : Str → List A → Option A
  find k [] = none
  find k (x ∷ xs) = if str_eq (name x) k then some x else find k xs

  -- Its position; `none` is -1.
  unfoldable pub index_of : Str → List A → Option ℕ
  index_of k [] = none
  index_of k (x ∷ xs) =
      if str_eq (name x) k
      then some 0
      else elim (index_of k xs) [ none ↦ none | some i ↦ some (suc i) ]

  -- sort.Slice by name, as an insertion sort. Where names differ, every sort gives this result.
  unfoldable pub insert_by_name : A → List A → List A
  insert_by_name x [] = x ∷ []
  insert_by_name x (y ∷ ys) =
      if str_lt (name y) (name x) then y ∷ insert_by_name x ys else x ∷ y ∷ ys

  unfoldable pub sort_by_name : List A → List A
  unfolding insert_by_name
  sort_by_name [] = []
  sort_by_name (x ∷ xs) = insert_by_name x (sort_by_name xs)

  -- No element has the name `k`.
  abbrev pub IsNew : Str → List A → Type 0
  IsNew k xs = All (λ x. name x ≢ k) xs

  abbrev pub IsUnique : List A → Type 0
  IsUnique [] = Unit
  IsUnique (x ∷ xs) = IsNew (name x) xs × IsUnique xs

  -- Strictly ascending names.
  abbrev pub IsSorted : List A → Type 0
  IsSorted [] = Unit
  IsSorted (x ∷ xs) = All (λ y. str_lt (name x) (name y) ≡ true) xs × IsSorted xs
