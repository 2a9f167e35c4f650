-- ===== src/Registry/Store/Saved.antt =====
-- What the registry file keeps of a store: all of it, but for what is not UTF-8 in a path.
use localapp.Base.{
  ◌<◌, ◌≡◌, refl, true, Option, none, some, List, [], ◌∷◌, map, arith, All, All_mono, ◌>>=◌,
}
use localapp.Text.{Str, text}
use localapp.Text.Utf8.{to_valid_utf8, to_valid_utf8_of_ascii}
use localapp.Keyed.{find, IsSorted}
use localapp.Keyed.Mapping.{All-map, IsSorted-map, find-map, sort_of_IsSorted}
use localapp.Registry.{Service, App, app_name, service_name, is_name_byte, validate_name, validate}
use localapp.Registry.Names.{validate-IsName}
use localapp.Registry.File.{coerced_service, coerced_app}
use localapp.Registry.Store.{Store, sort_services, sort_apps}
use localapp.Registry.Store.Invariant.{IsGood, IsProper, IsWellFormed}
use localapp.Registry.Store.Views.{view}

abbrev pub saved_service : Service → Service
saved_service s = record s { path = to_valid_utf8 s.path }

abbrev pub saved_app : App → App
saved_app a = record a { services = map saved_service a.services }

abbrev pub saved_store : Store → Store
saved_store st = record st { apps = map saved_app st.apps }

name_byte-lt : (c : _) → is_name_byte c ≡ true → c < 128
unfolding is_name_byte
name_byte-lt c h = ground arith

-- A valid name is ASCII.
to_valid_utf8_of_name : (kind s : Str) → validate_name kind s ≡ none → to_valid_utf8 s ≡ s
to_valid_utf8_of_name kind s h = to_valid_utf8_of_ascii s (
    All_mono (λ c. is_name_byte c ≡ true) (λ c. c < 128) name_byte-lt s
      (validate-IsName kind s h).bytes)

validate-name : (s : Service) → validate s ≡ none → validate_name (text "service") s.name ≡ none
unfolding validate
validate-name s h = ground arith

coerced_services :
    (ss : List Service) → All IsGood ss → map coerced_service ss ≡ map saved_service ss
coerced_services [] h = refl
coerced_services (s ∷ ss) h = rw (
  to_valid_utf8_of_name (text "service") s.name (validate-name s h.0.valid),
  coerced_services ss h.1,
)

coerced_apps : (apps : List App) → All IsProper apps → map coerced_app apps ≡ map saved_app apps
coerced_apps [] h = refl
coerced_apps (a ∷ apps) h = rw (
  to_valid_utf8_of_name (text "app") a.name h.0.named,
  coerced_services a.services h.0.good,
  coerced_apps apps h.1,
)

-- Of valid names the encoder keeps every byte.
pub coerced_of_IsWellFormed :
    (apps : List App) → IsWellFormed apps → map coerced_app apps ≡ map saved_app apps
coerced_of_IsWellFormed apps h = coerced_apps apps h.proper

map-sort_services :
    (apps : List App)
    → All (λ a. IsSorted service_name a.services) apps
    → map sort_services apps ≡ apps
map-sort_services [] h = refl
map-sort_services (a ∷ apps) h =
    rw (sort_of_IsSorted service_name a.services h.0, map-sort_services apps h.1)

-- Sorting what was saved changes nothing.
pub sort_apps-saved :
    (apps : List App) → IsWellFormed apps → sort_apps (map saved_app apps) ≡ map saved_app apps
unfolding sort_apps
sort_apps-saved apps h =
    rw
      (sort_of_IsSorted app_name (map saved_app apps)
        (IsSorted-map app_name saved_app (λ a. refl) apps h.sorted))
      (map-sort_services (map saved_app apps) (
        All-map (λ a. IsSorted service_name a.services) (λ a. IsSorted service_name a.services)
          saved_app (λ a s. IsSorted-map service_name saved_service (λ x. refl) a.services s) apps
          h.services))

-- A lookup finds the same service, as it was saved.
pub view-saved :
    (apps : List App) (a s : Str)
    → view (map saved_app apps) a s ≡ (view apps a s >>= λ svc. some (saved_service svc))
unfolding view
view-saved apps a s =
    rw (find-map app_name saved_app (λ x. refl) a apps) (by_app (find app_name a apps))
  where
    by_app :
        (o : Option App)
        → ((o >>= λ x. some (saved_app x)) >>= λ x. find service_name s x.services)
          ≡ ((o >>= λ x. find service_name s x.services) >>= λ svc. some (saved_service svc))
    by_app none = refl
    by_app (some x) = find-map service_name saved_service (λ y. refl) s x.services
