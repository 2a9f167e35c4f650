-- ===== src/Logstream/Room.antt =====
-- The number of entries, the search for the one to evict, and the keys of services.
use localapp.Base.{
  ℕ, suc, ◌+◌, ◌-◌, ◌^◌, ◌≤◌, ◌<◌, ◌≡◌, ◌≢◌, ◌⊎◌, refl, ap, sym, ◌∙◌, true, false, none, List, [],
  ◌∷◌, arith, length, leb, ltb, Bool-cases, Option-cases, inl, inr, All, All_mono,
}
use localapp.Text.{Str, str_eq, contains, split}
use localapp.Text.Order.{str_eq_refl}
use localapp.Text.Split.{split-append, join, join-split}
use localapp.Keyed.{find}
use localapp.Logstream.{
  Entry, entry_key, max_services, append_entry, new_entry, add64, Store, key_of, oldest_from,
  delete_entry, evict, update_entry, append,
}

-- A key, or the key of an entry.
abbrev IsOf : Str → List Entry → Str → Type 0
IsOf o es k = (k ≡ o) ⊎ (find entry_key k es ≢ none)

IsOf-later : (o : Str) (e : Entry) (es : List Entry) (k : Str) → IsOf o es k → IsOf o (e ∷ es) k
unfolding find
IsOf-later o e es k (inl q) = inl q
IsOf-later o e es k (inr q) = elim (Bool-cases (str_eq e.key k)) [
  | inl t ↦ inr (rw t (λ n. cc))
  | inr t ↦ inr (rw t q)
]

IsOf-here :
    (o : Str) (e : Entry) (es : List Entry) (k : Str)
    → IsOf e.key es k
    → find entry_key k (e ∷ es) ≢ none
unfolding find
IsOf-here o e es k (inl q) = rw (q, str_eq_refl e.key) (λ n. cc)
IsOf-here o e es k (inr q) = elim (Bool-cases (str_eq e.key k)) [
  | inl t ↦ rw t (λ n. cc)
  | inr t ↦ rw t q
]

-- The search for the oldest entry ends at its start value, or at the key of an entry; and at the
-- latter if the first entry is older than the start.
oldest_from-IsOf : (o : Str) (age : ℕ) (es : List Entry) → IsOf o es (oldest_from o age es)
unfolding oldest_from
oldest_from-IsOf o age [] = inl refl
oldest_from-IsOf o age (e ∷ es) = elim (Bool-cases (ltb e.used age)) [
  | inl t ↦ rw t (inr (IsOf-here o e es _ (oldest_from-IsOf e.key e.used es)))
  | inr t ↦ rw t (IsOf-later o e es _ (oldest_from-IsOf o age es))
]

oldest_from-find :
    (o : Str) (age : ℕ) (e : Entry) (es : List Entry)
    → e.used < age
    → find entry_key (oldest_from o age (e ∷ es)) (e ∷ es) ≢ none
unfolding oldest_from
oldest_from-find o age e es h =
    let t : ltb e.used age ≡ true = ground arith in
    rw t (IsOf-here o e es _ (oldest_from-IsOf e.key e.used es))

length-delete_le : (k : Str) (es : List Entry) → length (delete_entry k es) ≤ length es
unfolding delete_entry
length-delete_le k [] = omega arith
length-delete_le k (e ∷ es) = elim (Bool-cases (str_eq e.key k)) [
  | inl t ↦ rw t (omega (arith, length-delete_le k es))
  | inr t ↦ rw t (omega (arith, length-delete_le k es))
]

length-delete_lt :
    (k : Str) (es : List Entry)
    → find entry_key k es ≢ none
    → length (delete_entry k es) < length es
unfolding delete_entry find
length-delete_lt k [] h = absurd (h refl)
length-delete_lt k (e ∷ es) h = elim (Bool-cases (str_eq e.key k)) [
  | inl t ↦ rw t (omega (arith, length-delete_le k es))
  | inr t ↦ rw t (omega (arith, length-delete_lt k es (rw t at h)))
]

length-update_entry :
    (k : Str) (f : Entry → Entry) (es : List Entry) → length (update_entry k f es) ≡ length es
unfolding update_entry
length-update_entry k f [] = refl
length-update_entry k f (e ∷ es) = elim (Bool-cases (str_eq e.key k)) [
  | inl t ↦ rw t refl
  | inr t ↦ rw t (ap suc (length-update_entry k f es))
]

-- The entries as the daemon keeps them: at most 64, last used at a past tick of the clock.
pub record IsRoomy (s : Store) : Type 0 where
  pub few : length s.entries ≤ max_services
  pub past : All (λ e. e.used ≤ s.clock) s.entries

length-evict :
    (es : List Entry) (clock : ℕ)
    → clock < 2 ^ 64 - 1
    → length es ≤ max_services
    → All (λ e. e.used ≤ clock) es
    → length (evict es) < max_services
unfolding evict
length-evict [] clock c few past = omega arith
length-evict (e ∷ es) clock c few past = elim (Bool-cases (leb max_services (length (e ∷ es)))) [
  | inl t ↦ rw t (
      omega (
        arith,
        few,
        length-delete_lt (oldest_from [] (2 ^ 64 - 1) (e ∷ es)) (e ∷ es)
            (oldest_from-find [] (2 ^ 64 - 1) e es (omega (arith, past.0, c))),
      ))
  | inr t ↦ rw t (ground arith)
]

delete_entry-All :
    (P : Entry → Type 0) (k : Str) (es : List Entry) → All P es → All P (delete_entry k es)
unfolding delete_entry
delete_entry-All P k [] h = tt
delete_entry-All P k (e ∷ es) h = elim (Bool-cases (str_eq e.key k)) [
  | inl t ↦ rw t (delete_entry-All P k es h.1)
  | inr t ↦ rw t (h.0, delete_entry-All P k es h.1)
]

evict-All : (P : Entry → Type 0) (es : List Entry) → All P es → All P (evict es)
unfolding evict
evict-All P es h = elim (Bool-cases (leb max_services (length es))) [
  | inl t ↦ rw t (delete_entry-All P (oldest_from [] (2 ^ 64 - 1) es) es h)
  | inr t ↦ rw t h
]

update_entry-All :
    (P : Entry → Type 0) (k : Str) (f : Entry → Entry) (es : List Entry)
    → ((e : Entry) → P (f e))
    → All P es
    → All P (update_entry k f es)
unfolding update_entry
update_entry-All P k f [] p h = tt
update_entry-All P k f (e ∷ es) p h = elim (Bool-cases (str_eq e.key k)) [
  | inl t ↦ rw t (p e, h.1)
  | inr t ↦ rw t (h.0, update_entry-All P k f es p h.1)
]

append_entry-used : (text : Str) (clock : ℕ) (e : Entry) → (append_entry text clock e).used ≡ clock
unfolding append_entry
append_entry-used text clock e = refl

-- As long as the clock is below 2^64 - 2 and there are at most 64 entries, last used at past
-- ticks, there are again at most 64 after an append: a new entry first makes room.
pub append-IsRoomy :
    (app service text : Str) (s : Store)
    → s.clock < 2 ^ 64 - 2
    → IsRoomy s
    → IsRoomy (append app service text s)
unfolding append
append-IsRoomy app service text s c h =
    let k = key_of app service in
    let next = add64 s.clock 1 in
    let tick : next ≡ s.clock + 1 = omega (arith, c) in
    let past : All (λ e. e.used ≤ next) s.entries =
      All_mono (λ e. e.used ≤ s.clock) (λ e. e.used ≤ next) (λ e p. omega (arith, tick, p))
        s.entries h.past in
    let fresh : (e : Entry) → (append_entry text next e).used ≤ next =
      λ e. omega (arith, append_entry-used text next e) in
    elim (Option-cases (find entry_key k s.entries)) [
      | inl e ↦
          rw (e, append)
            (record {
              few = omega (arith, length-evict s.entries s.clock (omega (arith, c)) h.few h.past);
              past = (fresh (new_entry k), evict-All (λ e. e.used ≤ next) s.entries past);
            })
      | inr (x, e) ↦
          rw (e, append)
            (record {
              few = omega (arith, length-update_entry k (append_entry text next) s.entries, h.few);
              past =
                  update_entry-All (λ e. e.used ≤ next) k (append_entry text next) s.entries fresh
                    past;
            })
    ]

-- Two services of apps whose names hold no slash have the same key only if app and service are the
-- same.
key_of-injective :
    (a b s t : Str)
    → contains b'/' a ≡ false
    → contains b'/' b ≡ false
    → key_of a s ≡ key_of b t
    → (a ≡ b) × (s ≡ t)
unfolding key_of
key_of-injective a b s t ha hb e =
    let parts : a ∷ split b'/' s ≡ b ∷ split b'/' t =
      sym (split-append b'/' a s ha) ∙ ap (split b'/') e ∙ split-append b'/' b t hb in
    (cc, sym (join-split b'/' s) ∙ ap (join b'/') (rest parts) ∙ join-split b'/' t)
  where
    rest : a ∷ split b'/' s ≡ b ∷ split b'/' t → split b'/' s ≡ split b'/' t
    rest q = cc
