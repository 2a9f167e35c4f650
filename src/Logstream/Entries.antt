-- ===== src/Logstream/Entries.antt =====
-- The entries of all services, and what an append does to each of them.
use localapp.Base.{
  ℕ, ◌-◌, ◌^◌, ◌≤◌, ◌≡◌, ◌≢◌, ◌⊎◌, refl, ap, sym, ◌∙◌, true, false, Option, none, some, List, [],
  ◌∷◌, ◌++◌, arith, length, leb, ◌==◌, if◌then◌else◌, Bool-cases, Option-cases, inl, inr, All, map,
}
use localapp.Text.{Str, str_eq}
use localapp.Text.Order.{str_eq→eq, str_eq_refl, str_eq-eq-false}
use localapp.Keyed.{find}
use localapp.Logstream.{
  Entry, entry_key, max_lines, max_bytes, max_services, cut_for, trim, append_entry, new_entry,
  add64, Store, Subscriber, key_of, oldest_from, delete_entry, evict, update_entry, append, signal,
}

trim-key : (e : Entry) → (trim e).key ≡ e.key
unfolding trim
trim-key e = elim (Bool-cases (cut_for max_lines max_bytes e.buf == 0)) [
  | inl t ↦ rw t refl
  | inr t ↦ rw t refl
]

append_entry-key : (text : Str) (clock : ℕ) (e : Entry) → (append_entry text clock e).key ≡ e.key
unfolding append_entry
append_entry-key text clock e = trim-key (record e { buf = e.buf ++ text })

abbrev lookup : Str → List Entry → Option Entry
lookup k es = find entry_key k es

find-update_entry :
    (k : Str) (f : Entry → Entry) (es : List Entry) (e : Entry)
    → ((x : Entry) → (f x).key ≡ x.key)
    → lookup k es ≡ some e
    → lookup k (update_entry k f es) ≡ some (f e)
unfolding find update_entry
find-update_entry k f [] e keep h = cc
find-update_entry k f (x ∷ xs) e keep h = elim (Bool-cases (str_eq x.key k)) [
  | inl t ↦
      let same : x ≡ e = ground arith in
      let hit : str_eq (f x).key k ≡ true = ap (λ z. str_eq z k) (keep x) ∙ t in
      rw (t, hit) (ap (λ y. some (f y)) same)
  | inr t ↦ rw (t, t) (find-update_entry k f xs e keep (rw t at h))
]

find-update_entry_other :
    (j k : Str) (f : Entry → Entry) (es : List Entry)
    → ((x : Entry) → (f x).key ≡ x.key)
    → j ≢ k
    → lookup j (update_entry k f es) ≡ lookup j es
unfolding find update_entry
find-update_entry_other j k f [] keep n = refl
find-update_entry_other j k f (x ∷ xs) keep n = elim (Bool-cases (str_eq x.key k)) [
  | inl t ↦
      let other : str_eq x.key j ≡ false =
        str_eq-eq-false x.key j (λ e. n (sym e ∙ str_eq→eq x.key k t)) in
      let miss : str_eq (f x).key j ≡ false = ap (λ z. str_eq z j) (keep x) ∙ other in
      rw (t, miss, other) refl
  | inr t ↦ rw t (rw (find-update_entry_other j k f xs keep n) refl)
]

find-delete_entry :
    (j k : Str) (es : List Entry)
    → lookup j (delete_entry k es) ≡ (if str_eq k j then none else lookup j es)
unfolding find delete_entry
find-delete_entry j k [] = ground arith
find-delete_entry j k (x ∷ xs) = elim (Bool-cases (str_eq x.key k)) [
  | inl t ↦
      let e : x.key ≡ k = str_eq→eq x.key k t in
      rw t (find-delete_entry j k xs ∙ rw e (ground arith))
  | inr t ↦ rw t (elim (Bool-cases (str_eq x.key j)) [
    | inl q ↦ let n : str_eq k j ≡ false = str_eq-eq-false k j (λ e. cc) in rw (q, n) refl
    | inr q ↦ rw q (find-delete_entry j k xs)
  ])
]

-- One service's entry after an append to another: as it was, or evicted to make room for a new one.
pub data IsSpared (j k : Str) (es : List Entry) (found : Option Entry) : Type 0 where
  is_kept : found ≡ find entry_key j es → IsSpared j k es found
  is_evicted :
      found ≡ none → find entry_key k es ≡ none → max_services ≤ length es → IsSpared j k es found

abbrev pub or_new : Str → Option Entry → Entry
or_new k none = new_entry k
or_new k (some e) = e

find-evict :
    (j : Str) (es : List Entry)
    → (lookup j (evict es) ≡ lookup j es)
      ⊎ ((lookup j (evict es) ≡ none) × (max_services ≤ length es))
unfolding evict
find-evict j es = elim (Bool-cases (leb max_services (length es))) [
  | inr f ↦ rw f (inl refl)
  | inl t ↦
      let oldest = oldest_from [] (2 ^ 64 - 1) es in
      rw (t, find-delete_entry j oldest es)
        (elim (Bool-cases (str_eq oldest j)) [
          | inl q ↦ rw q (inr (refl, ground arith))
          | inr q ↦ rw q (inl refl)
        ])
]

module _ (app service text : Str) (s : Store) where
  abbrev key : Str
  key = key_of app service

  abbrev clock : ℕ
  clock = add64 s.clock 1

  found_key :
      find entry_key key (append app service text s).entries
      ≡ some (append_entry text clock (or_new key (find entry_key key s.entries)))
  unfolding append
  found_key = elim (Option-cases (find entry_key key s.entries)) [
    | inl e ↦
        rw (e, append)
          (unfold find in
            (rw
              (ap (λ z. str_eq z key) (append_entry-key text clock (new_entry key))
                ∙ str_eq_refl key)
              refl))
    | inr (x, e) ↦
        rw (e, append)
          (find-update_entry key (append_entry text clock) s.entries x (append_entry-key text clock)
            e)
  ]

  IsSpared-new :
      (j : Str)
      → j ≢ key
      → find entry_key key s.entries ≡ none
      → IsSpared j key s.entries
          (find entry_key j (append_entry text clock (new_entry key) ∷ evict s.entries))
  unfolding find
  IsSpared-new j n e =
      let miss : str_eq (append_entry text clock (new_entry key)).key j ≡ false =
        ap (λ z. str_eq z j) (append_entry-key text clock (new_entry key))
        ∙ str_eq-eq-false key j (λ q. n (sym q)) in
      rw miss (elim (find-evict j s.entries) [
        | inl q ↦ is_kept q
        | inr (gone, full) ↦ is_evicted gone e full
      ])

  found_other :
      (j : Str)
      → j ≢ key
      → IsSpared j key s.entries (find entry_key j (append app service text s).entries)
  unfolding append
  found_other j n = elim (Option-cases (find entry_key key s.entries)) [
    | inl e ↦ rw (e, append) (IsSpared-new j n e)
    | inr (x, e) ↦
        rw (e, append)
          (is_kept (
            find-update_entry_other j key (append_entry text clock) s.entries
              (append_entry-key text clock) n))
  ]

  signalled :
      (subs : List Subscriber) → All (λ x. x.key ≡ key → x.pending ≡ true) (map (signal key) subs)
  signalled [] = tt
  signalled (x ∷ xs) = (
    elim (Bool-cases (str_eq x.key key)) [
      | inl t ↦ rw (t, signal) (λ _. refl)
      | inr t ↦ rw (t, signal) (λ e. absurd (cc (rw e at t, str_eq_refl key)))
    ],
    signalled xs,
  )

  -- Append adds the text to the entry of its service, a new one if there is none, and signals
  -- every subscriber of that service; the entry of any other service is as it was, or was evicted
  -- because the service is new and 64 entries were there.
  append_effect :
      (find entry_key (key_of app service) (append app service text s).entries
        ≡ some (append_entry text clock (or_new key (find entry_key key s.entries))))
      × ((j : Str)
          → j ≢ key
          → IsSpared j key s.entries (find entry_key j (append app service text s).entries))
      × All (λ x. x.key ≡ key → x.pending ≡ true) (append app service text s).subs
  append_effect = (found_key, found_other, unfold append in signalled s.subs)
