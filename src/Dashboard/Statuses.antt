-- ===== src/Dashboard/Statuses.antt =====
-- The listing page's statuses, which it looks up by position, and its two counters, against each
-- service by itself.
use localapp.Base.{
  ◌≡◌, refl, ap, ◌∙◌, ℕ, suc, ◌+◌, ◌<◌, ◌≤◌, Option, some, List, [], ◌∷◌, ◌++◌, map, ◌==◌, ==_refl,
  false, if◌then◌else◌, length, arith,
}
use localapp.Text.{Str}
use localapp.Registry.{Service, App, Status, service_status}
use localapp.Dashboard.Contents.{
  Handler, ServiceView, AppView, Ref, app_refs, refs, status_of, is_up, service_view, service_views,
  app_views, count_up, count_views, listing,
}

own_view : Handler → Str → Service → ServiceView
own_view h app svc = service_view h app svc (some (service_status h.os svc h.probe_to))

pub own_app_view : Handler → App → AppView
own_app_view h a = record { name = a.name; services = map (own_view h a.name) a.services }

-- An app's own references say nothing of the apps behind it.
status_of-later :
    (h : Handler) (i j k l : ℕ) (services : List Service) (rest : List (Ref × Service))
    → i < k
    → status_of h (app_refs i j services ++ rest) (k, l) ≡ status_of h rest (k, l)
unfolding status_of app_refs
status_of-later h i j k l [] rest lt = refl
status_of-later h i j k l (svc ∷ services) rest lt =
    let e : (i == k) ≡ false = ground arith in
    rw e (status_of-later h i (suc j) k l services rest lt)

service_views_lem :
    (h : Handler) (statuses : Ref → Option Status) (app : Str) (i j : ℕ) (services : List Service)
    (rest : List (Ref × Service))
    → ((l : ℕ) → j ≤ l → statuses (i, l) ≡ status_of h (app_refs i j services ++ rest) (i, l))
    → service_views h statuses app i j services ≡ map (own_view h app) services
unfolding status_of app_refs own_view
service_views_lem h statuses app i j [] rest agree = refl
service_views_lem h statuses app i j (svc ∷ services) rest agree =
    let here : statuses (i, j) ≡ some (service_status h.os svc h.probe_to) =
      agree j (omega arith) ∙ rw (==_refl i, ==_refl j) refl in
    let later : (l : ℕ)
        → suc j ≤ l
        → statuses (i, l) ≡ status_of h (app_refs i (suc j) services ++ rest) (i, l) =
      λ l le.
        agree l (omega arith)
        ∙ (let e : (j == l) ≡ false = ground arith in rw (==_refl i, e) refl) in
    rw (here, service_views_lem h statuses app i (suc j) services rest later) refl

app_views_lem :
    (h : Handler) (statuses : Ref → Option Status) (i : ℕ) (apps : List App)
    → ((k l : ℕ) → i ≤ k → statuses (k, l) ≡ status_of h (refs i apps) (k, l))
    → app_views h statuses i apps ≡ map (own_app_view h) apps
unfolding refs app_views own_app_view
app_views_lem h statuses i [] agree = refl
app_views_lem h statuses i (a ∷ apps) agree =
    let here =
      service_views_lem h statuses a.name i 0 a.services (refs (suc i) apps)
        (λ l le. agree i l (omega arith)) in
    let later : (k l : ℕ) → suc i ≤ k → statuses (k, l) ≡ status_of h (refs (suc i) apps) (k, l) =
      λ k l le.
        agree k l (omega arith) ∙ (status_of-later h i 0 k l a.services (refs (suc i) apps) le) in
    rw (here, app_views_lem h statuses (suc i) apps later) refl

-- The services of all apps that are up.
ups_in : Handler → List Service → ℕ
ups_in h [] = 0
ups_in h (svc ∷ services) =
    (if is_up (some (service_status h.os svc h.probe_to)) then 1 else 0) + ups_in h services

pub all_ups : Handler → List App → ℕ
all_ups h [] = 0
all_ups h (a ∷ apps) = ups_in h a.services + all_ups h apps

pub all_services : List App → ℕ
all_services [] = 0
all_services (a ∷ apps) = length a.services + all_services apps

length-own_view :
    (h : Handler) (app : Str) (services : List Service)
    → length (map (own_view h app) services) ≡ length services
length-own_view h app [] = refl
length-own_view h app (svc ∷ services) = rw (length-own_view h app services) refl

count_up-own_view :
    (h : Handler) (app : Str) (services : List Service)
    → count_up (map (own_view h app) services) ≡ ups_in h services
unfolding count_up own_view service_view ups_in
count_up-own_view h app [] = refl
count_up-own_view h app (svc ∷ services) = rw (count_up-own_view h app services) refl

count_views-own :
    (h : Handler) (apps : List App)
    → count_views (map (own_app_view h) apps) ≡ (all_services apps, all_ups h apps)
unfolding count_views own_app_view all_services all_ups
count_views-own h [] = refl
count_views-own h (a ∷ apps) =
    rw
      (
        count_views-own h apps,
        length-own_view h a.name a.services,
        count_up-own_view h a.name a.services,
      )
      refl

-- On the listing page every service has the view that its own port and process id give it,
-- although the code looks its status up by position; and the two counters are the number of
-- services and of those that are up.
pub listing_lem :
    (h : Handler) (apps : List App)
    → ((listing h apps).apps ≡ map (own_app_view h) apps)
      × ((listing h apps).services ≡ all_services apps)
      × ((listing h apps).up ≡ all_ups h apps)
unfolding listing
listing_lem h apps =
    let views = app_views_lem h (status_of h (refs 0 apps)) 0 apps (λ k l le. refl) in
    let counts = ap count_views views ∙ count_views-own h apps in
    (views, ap (λ c. c.0) counts, ap (λ c. c.1) counts)
