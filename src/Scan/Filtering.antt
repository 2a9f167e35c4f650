-- ===== src/Scan/Filtering.antt =====
-- Which candidates Filter leaves.
use localapp.Base.{
  ℕ, ◌<◌, ◌≡◌, ◌≢◌, refl, ◌∙◌, false, Bool, ◌||◌, Option, none, some, List, [], ◌∷◌, ltb, ◌==◌,
  if◌then◌else◌, All, All_mono, Bool-cases, inl, inr, arith,
}
use localapp.Scan.{Listener, has_port, keep_new, insert_by_port, sort_by_port, filter}

-- The first listener on a port.
unfoldable pub find_port : ℕ → List Listener → Option Listener
find_port port [] = none
find_port port (l ∷ list) = if l.port == port then some l else find_port port list

-- Strictly ascending ports.
abbrev pub IsAscending : List Listener → Type 0
IsAscending [] = Unit
IsAscending (l ∷ list) = All (λ x. l.port < x.port) list × IsAscending list

find-keep_new :
    (exclude : ℕ → Bool) (port : ℕ) (seen : List ℕ) (list : List Listener)
    → find_port port (keep_new exclude seen list)
      ≡ (if exclude port || has_port port seen then none else find_port port list)
unfolding find_port keep_new has_port
find-keep_new exclude port seen [] = ground arith
find-keep_new exclude port seen (l ∷ list) = elim (Bool-cases (l.port == port)) [
  | inl e ↦
      let q : l.port ≡ port = ground arith in
      rw q (elim (Bool-cases (exclude port || has_port port seen)) [
        | inl b ↦ rw b (find-keep_new exclude port seen list ∙ rw b refl)
        | inr b ↦ rw b (ground arith)
      ])
  | inr e ↦ elim (Bool-cases (exclude l.port || has_port l.port seen)) [
    | inl b ↦ rw (b, e) (find-keep_new exclude port seen list)
    | inr b ↦ rw (b, e) (find-keep_new exclude port (l.port ∷ seen) list ∙ rw e refl)
  ]
]

find-insert :
    (port : ℕ) (l : Listener) (list : List Listener)
    → find_port port (insert_by_port l list)
      ≡ (if l.port == port then some l else find_port port list)
unfolding find_port insert_by_port
find-insert port l [] = refl
find-insert port l (x ∷ xs) = elim (Bool-cases (ltb x.port l.port)) [
  | inr e ↦ rw e refl
  | inl e ↦ rw e (elim (Bool-cases (x.port == port)) [
    | inl f ↦ let n : (l.port == port) ≡ false = ground arith in rw (f, n) refl
    | inr f ↦ rw f (find-insert port l xs)
  ])
]

find-sort :
    (port : ℕ) (list : List Listener) → find_port port (sort_by_port list) ≡ find_port port list
unfolding sort_by_port find_port
find-sort port [] = refl
find-sort port (l ∷ list) = find-insert port l (sort_by_port list) ∙ rw (find-sort port list) refl

module _ {κ} (P : Listener → Type κ) where
  insert-All :
      (l : Listener) (list : List Listener) → P l → All P list → All P (insert_by_port l list)
  unfolding insert_by_port
  insert-All l [] p h = (p, tt)
  insert-All l (x ∷ xs) p h = elim (Bool-cases (ltb x.port l.port)) [
    | inl e ↦ rw e (h.0, insert-All l xs p h.1)
    | inr e ↦ rw e (p, h)
  ]

  sort-All : (list : List Listener) → All P list → All P (sort_by_port list)
  unfolding sort_by_port
  sort-All [] h = tt
  sort-All (l ∷ list) h = insert-All l (sort_by_port list) h.0 (sort-All list h.1)

  keep_new-All :
      (exclude : ℕ → Bool) (seen : List ℕ) (list : List Listener)
      → ((l : Listener) → exclude l.port ≡ false → has_port l.port seen ≡ false → P l)
      → All P (keep_new exclude seen list)
  unfolding keep_new has_port
  keep_new-All exclude seen [] h = tt
  keep_new-All exclude seen (l ∷ list) h =
      elim (Bool-cases (exclude l.port || has_port l.port seen)) [
        | inl e ↦ rw e (keep_new-All exclude seen list h)
        | inr e ↦ rw e (
          h l (ground arith) (ground arith),
          keep_new-All exclude (l.port ∷ seen) list (λ x a b. h x a (ground arith)),
        )
      ]

abbrev IsDistinct : List Listener → Type 0
IsDistinct [] = Unit
IsDistinct (l ∷ list) = All (λ x. x.port ≢ l.port) list × IsDistinct list

keep_new-IsDistinct :
    (exclude : ℕ → Bool) (seen : List ℕ) (list : List Listener)
    → IsDistinct (keep_new exclude seen list)
unfolding keep_new
keep_new-IsDistinct exclude seen [] = tt
keep_new-IsDistinct exclude seen (l ∷ list) =
    elim (Bool-cases (exclude l.port || has_port l.port seen)) [
      | inl e ↦ rw e (keep_new-IsDistinct exclude seen list)
      | inr e ↦ rw e (
        keep_new-All (λ x. x.port ≢ l.port) exclude (l.port ∷ seen) list (λ x a b. differs x b),
        keep_new-IsDistinct exclude (l.port ∷ seen) list,
      )
    ]
  where
    differs : (x : Listener) → has_port x.port (l.port ∷ seen) ≡ false → x.port ≢ l.port
    differs x h e = unfold has_port in (ground arith)

insert-IsAscending :
    (l : Listener) (list : List Listener)
    → All (λ x. x.port ≢ l.port) list
    → IsAscending list
    → IsAscending (insert_by_port l list)
unfolding insert_by_port
insert-IsAscending l [] n h = (tt, tt)
insert-IsAscending l (x ∷ xs) n h = elim (Bool-cases (ltb x.port l.port)) [
  | inl e ↦
      rw e
        (insert-All (λ y. x.port < y.port) l xs (ground arith) h.0, insert-IsAscending l xs n.1 h.1)
  | inr e ↦
      let first : l.port < x.port = ground (arith, n.0) in
      rw e (
        (
          first,
          All_mono (λ y. x.port < y.port) (λ y. l.port < y.port) (λ y k. omega (arith, first, k)) xs
              h.0,
        ),
        h,
      )
]

sort-IsAscending : (list : List Listener) → IsDistinct list → IsAscending (sort_by_port list)
unfolding sort_by_port
sort-IsAscending [] h = tt
sort-IsAscending (l ∷ list) h =
    insert-IsAscending l (sort_by_port list) (sort-All (λ x. x.port ≢ l.port) list h.0)
      (sort-IsAscending list h.1)

-- Filter lists, in strictly ascending order of ports, the first listener on each port that is not
-- excluded, and nothing else.
pub filter_lem :
    (list : List Listener) (exclude : ℕ → Bool)
    → IsAscending (filter list exclude)
      × ((port : ℕ)
          → find_port port (filter list exclude)
            ≡ (if exclude port then none else find_port port list))
unfolding filter
filter_lem list exclude = (
  sort-IsAscending (keep_new exclude [] list) (keep_new-IsDistinct exclude [] list),
  λ port.
      find-sort port (keep_new exclude [] list) ∙ find-keep_new exclude port [] list ∙ unseen port,
)
  where
    unseen :
        (port : ℕ)
        → (if exclude port || has_port port [] then none else find_port port list)
          ≡ (if exclude port then none else find_port port list)
    unseen port = elim (Bool-cases (exclude port)) [
      | inl e ↦ rw e refl
      | inr e ↦ rw e (unfold has_port in refl)
    ]
