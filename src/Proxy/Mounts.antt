-- ===== src/Proxy/Mounts.antt =====
-- matchPath of internal/proxy/route.go, and the mounts that a path lies under.
use localapp.Base.{
  ℕ, ◌≡◌, ◌≢◌, ◌≤◌, ◌⊎◌, refl, ap, sym, ◌∙◌, true, false, Bool, not, ◌||◌, none, some, List, [],
  ◌∷◌, ◌++◌, arith, All, length, ltb, drop, if◌then◌else◌, Bool-cases, Option-cases, inl, inr,
  append_assoc,
}
use mathlib.Core.List.{Memᴰ}
use localapp.Text.{Str, str_eq, has_prefix}
use localapp.Text.Order.{str_eq_iff, str_eq→eq}
use localapp.Text.Affix.{eq_of_has_prefix, has_prefix-append}
use localapp.Registry.{Service, App, normalize_path}
use localapp.Proxy.{path_has_prefix, Match, longer, match_from, match_path}

-- The path is the mount, or goes on below it at a slash.
abbrev pub IsBelow : Str → Str → Type 0
IsBelow path mount = (path ≡ mount) ⊎ ((rest : Str) × (path ≡ mount ++ b'/' ∷ rest))

below : (path mount : Str) → path_has_prefix path mount ≡ true → IsBelow path mount
unfolding path_has_prefix
below path mount h = elim (Bool-cases (str_eq path mount)) [
  | inl e ↦ inl (str_eq→eq path mount e)
  | inr e ↦ inr (
    drop (length (mount ++ b'/' ∷ [])) path,
    eq_of_has_prefix path (mount ++ b'/' ∷ []) (ground arith)
        ∙ append_assoc mount (b'/' ∷ []) (drop (length (mount ++ b'/' ∷ [])) path),
  )
]

has_prefix_of_below : (path mount : Str) → IsBelow path mount → path_has_prefix path mount ≡ true
unfolding path_has_prefix
has_prefix_of_below path mount (inl e) = ground (arith, str_eq_iff path mount)
has_prefix_of_below path mount (inr (rest, e)) =
    let pre : has_prefix path (mount ++ b'/' ∷ []) ≡ true =
      ap (λ p. has_prefix p (mount ++ b'/' ∷ [])) (e ∙ sym (append_assoc mount (b'/' ∷ []) rest))
      ∙ has_prefix-append (mount ++ b'/' ∷ []) rest in
    ground (arith, pre)

-- A service whose mount is not empty, and has the path at or below it.
pub record IsMounted (path : Str) (svc : Service) : Type 0 where
  pub mount : normalize_path svc.path ≢ []
  pub below : IsBelow path (normalize_path svc.path)

abbrev skipped : Str → Service → Bool
skipped path svc =
    str_eq (normalize_path svc.path) [] || not (path_has_prefix path (normalize_path svc.path))

skipped_not_IsMounted : (path : Str) (svc : Service) → IsMounted path svc → skipped path svc ≡ false
skipped_not_IsMounted path svc h = ground (
  arith,
  str_eq_iff (normalize_path svc.path) [],
  h.mount,
  has_prefix_of_below path (normalize_path svc.path) h.below,
)

IsMounted-skipped : (path : Str) (svc : Service) → skipped path svc ≡ false → IsMounted path svc
IsMounted-skipped path svc h = record {
  mount = λ e. ground (arith, str_eq_iff (normalize_path svc.path) []);
  below = below path (normalize_path svc.path) (ground arith);
}

-- The length of the best mount so far.
abbrev mount_length : Match → ℕ
mount_length none = 0
mount_length (some (svc, mount)) = length mount

-- One round: the best match after a service was looked at.
abbrev round : Str → Match → Service → Match
round path best svc = if skipped path svc then best else longer svc (normalize_path svc.path) best

round_grows :
    (path : Str) (best : Match) (svc : Service)
    → mount_length best ≤ mount_length (round path best svc)
round_grows path none svc = omega arith
round_grows path (some (s, m)) svc = elim (Bool-cases (skipped path svc)) [
  | inl e ↦ rw e (omega arith)
  | inr e ↦ rw e (ground arith)
]

round_reaches :
    (path : Str) (best : Match) (svc : Service)
    → IsMounted path svc
    → length (normalize_path svc.path) ≤ mount_length (round path best svc)
round_reaches path none svc h = rw (skipped_not_IsMounted path svc h) (omega arith)
round_reaches path (some (s, m)) svc h = rw (skipped_not_IsMounted path svc h) (ground arith)

match_from_grows :
    (path : Str) (best : Match) (ss : List Service)
    → mount_length best ≤ mount_length (match_from path best ss)
unfolding match_from
match_from_grows path best [] = omega arith
match_from_grows path best (svc ∷ ss) =
    omega (arith, round_grows path best svc, match_from_grows path (round path best svc) ss)

match_from_longest :
    (path : Str) (best : Match) (ss : List Service)
    → All
        (λ svc.
          IsMounted path svc
          → length (normalize_path svc.path) ≤ mount_length (match_from path best ss))
        ss
unfolding match_from
match_from_longest path best [] = tt
match_from_longest path best (svc ∷ ss) = (
  λ h. omega (arith, round_reaches path best svc h, match_from_grows path (round path best svc) ss),
  match_from_longest path (round path best svc) ss,
)

-- Where a match comes from: the best so far, or a mounted service of the list.
abbrev Source : Str → Match → List Service → Service → Str → Type 0
Source path best ss svc mount =
    (best ≡ some (svc, mount))
    ⊎ (Memᴰ svc ss × IsMounted path svc × (mount ≡ normalize_path svc.path))

round_source :
    (path : Str) (best : Match) (s svc : Service) (mount : Str)
    → round path best s ≡ some (svc, mount)
    → (best ≡ some (svc, mount)) ⊎ ((s ≡ svc) × IsMounted path s × (mount ≡ normalize_path s.path))
round_source path none s svc mount h = elim (Bool-cases (skipped path s)) [
  | inl e ↦ inl (rw e at h)
  | inr e ↦ inr (ground arith, IsMounted-skipped path s e, ground arith)
]
round_source path (some (t, m)) s svc mount h = elim (Bool-cases (skipped path s)) [
  | inl e ↦ inl (rw e at h)
  | inr e ↦ elim (Bool-cases (ltb (length m) (length (normalize_path s.path)))) [
    | inl l ↦ inr (ground arith, IsMounted-skipped path s e, ground arith)
    | inr l ↦ inl (ground arith)
  ]
]

match_from-Source :
    (path : Str) (best : Match) (ss : List Service) (svc : Service) (mount : Str)
    → match_from path best ss ≡ some (svc, mount)
    → Source path best ss svc mount
unfolding match_from
match_from-Source path best [] svc mount h = inl h
match_from-Source path best (s ∷ ss) svc mount h =
    elim (match_from-Source path (round path best s) ss svc mount h) [
      | inr (m, is, e) ↦ inr (Memᴰ.tail m, is, e)
      | inl r ↦ elim (round_source path best s svc mount r) [
        | inl b ↦ inl b
        | inr (same, is, e) ↦ inr (Memᴰ.head (sym same), rw (← same) is, rw (← same) e)
      ]
    ]

-- A match is a service of the app whose mount has the path at or below it, and no service with
-- that property has a longer mount.
pub record IsLongest (app : App) (path : Str) (svc : Service) (mount : Str) : Type 0 where
  pub listed : Memᴰ svc app.services
  pub mounted : IsMounted path svc
  pub own_mount : mount ≡ normalize_path svc.path
  pub longest :
      All (λ s. IsMounted path s → length (normalize_path s.path) ≤ length mount) app.services

unmounted :
    (path : Str) (ss : List Service)
    → All (λ s. IsMounted path s → length (normalize_path s.path) ≤ 0) ss
    → All (λ s. ¬ IsMounted path s) ss
unmounted path [] h = tt
unmounted path (s ∷ ss) h = (λ m. m.mount (nil_of (h.0 m)), unmounted path ss h.1)
  where
    nil_of : length (normalize_path s.path) ≤ 0 → normalize_path s.path ≡ []
    nil_of k = empty (normalize_path s.path) k
      where
        empty : (t : Str) → length t ≤ 0 → t ≡ []
        empty [] l = refl
        empty (c ∷ t) l = absurd (omega arith)

-- matchPath finds nothing exactly if no service of the app is mounted at or above the path;
-- otherwise it returns a service of the app with the longest such mount, and that mount.
pub match_path_lem :
    (app : App) (path : Str)
    → ((match_path app path ≡ none) × All (λ s. ¬ IsMounted path s) app.services)
      ⊎ ((svc : Service) × (mount : Str) × (match_path app path ≡ some (svc, mount))
          × IsLongest app path svc mount)
unfolding match_path
match_path_lem app path = elim (Option-cases (match_from path none app.services)) [
  | inl e ↦
      inl (e, unmounted path app.services (rw e at (match_from_longest path none app.services)))
  | inr ((svc, mount), e) ↦ inr (
    svc,
    mount,
    e,
    elim (match_from-Source path none app.services svc mount e) [
      | inl n ↦ cc
      | inr (m, is, own) ↦ record {
        listed = m;
        mounted = is;
        own_mount = own;
        longest = rw e at (match_from_longest path none app.services);
      }
    ],
  )
]
