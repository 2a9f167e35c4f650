-- ===== src/Registry/File.antt =====
-- The contents of registry.json: the JSON encoding of `file`, `App` and `Service` by their struct
-- tags, and decoding. Members are matched by their exact names. The encoder writes U+FFFD for what is
-- not UTF-8 in a string.
use localapp.Base.{
  zero, suc, ◌≡◌, refl, true, false, Bool, Option, some, List, [], ◌∷◌, map, ◌>>=◌, ℤ, pos, negsuc,
}
use localapp.Text.{Str, text}
use localapp.Text.Utf8.{to_valid_utf8, to_valid_utf8-nil}
use localapp.Json.{
  Json, bool, num, str, arr, obj, Items, nil, cons, Members, end, member, get, to_str, to_int,
  to_bool, to_items, to_members,
}
use localapp.Registry.{Service, App}

-- omitempty
abbrev path_member : Str → Members → Members
path_member [] ms = ms
path_member (c ∷ p) ms = member (text "path") (str (to_valid_utf8 (c ∷ p))) ms

abbrev strip_member : Bool → Members → Members
strip_member false ms = ms
strip_member true ms = member (text "strip_path") (bool true) ms

abbrev pid_member : ℤ → Members → Members
pid_member (pos zero) ms = ms
pid_member pid ms = member (text "pid") (num pid) ms

unfoldable encode_service : Service → Json
unfolding text
encode_service s = obj (
    member (text "name") (str (to_valid_utf8 s.name)) (
      member (text "port") (num s.port)
        (path_member s.path (strip_member s.strip_path (pid_member s.pid end)))))

unfoldable encode_services : List Service → Items
unfolding encode_service
encode_services [] = nil
encode_services (s ∷ ss) = cons (encode_service s) (encode_services ss)

unfoldable encode_app : App → Json
unfolding encode_services text
encode_app a = obj (
    member (text "name") (str (to_valid_utf8 a.name))
      (member (text "services") (arr (encode_services a.services)) end))

unfoldable encode_apps : List App → Items
unfolding encode_app
encode_apps [] = nil
encode_apps (a ∷ as') = cons (encode_app a) (encode_apps as')

-- json.MarshalIndent(file{Apps: apps})
unfoldable pub encode_file : List App → Json
unfolding encode_apps text
encode_file apps = obj (member (text "apps") (arr (encode_apps apps)) end)

unfoldable decode_service : Json → Option Service
unfolding get to_str to_int to_bool to_members text
decode_service j = do
  ms ← to_members j
  name ← to_str (get (text "name") ms)
  port ← to_int (get (text "port") ms)
  path ← to_str (get (text "path") ms)
  strip ← to_bool (get (text "strip_path") ms)
  pid ← to_int (get (text "pid") ms)
  some (record { name = name; port = port; path = path; strip_path = strip; pid = pid })

unfoldable decode_services : Items → Option (List Service)
unfolding decode_service
decode_services nil = some []
decode_services (cons j js) = do s ← decode_service j; ss ← decode_services js; some (s ∷ ss)

unfoldable decode_app : Json → Option App
unfolding decode_services get to_str to_items to_members text
decode_app j = do
  ms ← to_members j
  name ← to_str (get (text "name") ms)
  items ← to_items (get (text "services") ms)
  ss ← decode_services items
  some (record { name = name; services = ss })

unfoldable decode_apps : Items → Option (List App)
unfolding decode_app
decode_apps nil = some []
decode_apps (cons j js) = do a ← decode_app j; rest ← decode_apps js; some (a ∷ rest)

-- json.Unmarshal(data, &f); f.Apps
unfoldable pub decode_file : Json → Option (List App)
unfolding decode_apps get to_items to_members text
decode_file j = do ms ← to_members j; items ← to_items (get (text "apps") ms); decode_apps items

-- What the encoder makes of the strings.
abbrev pub coerced_service : Service → Service
coerced_service s = record s { name = to_valid_utf8 s.name; path = to_valid_utf8 s.path }

abbrev pub coerced_app : App → App
coerced_app a = record a { name = to_valid_utf8 a.name; services = map coerced_service a.services }

decode-encode_fields :
    (name : Str) (port : ℤ) (path : Str) (strip : Bool) (pid : ℤ)
    → decode_service (
        encode_service
          (record { name = name; port = port; path = path; strip_path = strip; pid = pid }))
      ≡ some (
          coerced_service
            (record { name = name; port = port; path = path; strip_path = strip; pid = pid }))
unfolding decode_service encode_service
decode-encode_fields name port [] false (pos zero) = rw to_valid_utf8-nil
decode-encode_fields name port [] false (pos (suc n)) = rw to_valid_utf8-nil
decode-encode_fields name port [] false (negsuc n) = rw to_valid_utf8-nil
decode-encode_fields name port [] true (pos zero) = rw to_valid_utf8-nil
decode-encode_fields name port [] true (pos (suc n)) = rw to_valid_utf8-nil
decode-encode_fields name port [] true (negsuc n) = rw to_valid_utf8-nil
decode-encode_fields name port (c ∷ p) false (pos zero) = refl
decode-encode_fields name port (c ∷ p) false (pos (suc n)) = refl
decode-encode_fields name port (c ∷ p) false (negsuc n) = refl
decode-encode_fields name port (c ∷ p) true (pos zero) = refl
decode-encode_fields name port (c ∷ p) true (pos (suc n)) = refl
decode-encode_fields name port (c ∷ p) true (negsuc n) = refl

decode-encode_service : (s : Service) → decode_service (encode_service s) ≡ some (coerced_service s)
decode-encode_service s = decode-encode_fields s.name s.port s.path s.strip_path s.pid

decode-encode_services :
    (ss : List Service) → decode_services (encode_services ss) ≡ some (map coerced_service ss)
unfolding decode_services encode_services
decode-encode_services [] = refl
decode-encode_services (s ∷ ss) = rw (decode-encode_service s, decode-encode_services ss)

decode-encode_app : (a : App) → decode_app (encode_app a) ≡ some (coerced_app a)
unfolding decode_app encode_app
decode-encode_app a = rw (decode-encode_services a.services)

decode-encode_apps :
    (apps : List App) → decode_apps (encode_apps apps) ≡ some (map coerced_app apps)
unfolding decode_apps encode_apps
decode-encode_apps [] = refl
decode-encode_apps (a ∷ rest) = rw (decode-encode_app a, decode-encode_apps rest)

-- Decoding the registry file that was encoded from any list of apps gives those apps back, with
-- every field, omitted ones included, but for what is not UTF-8 in a string.
pub decode-encode_file :
    (apps : List App) → decode_file (encode_file apps) ≡ some (map coerced_app apps)
unfolding decode_file encode_file
decode-encode_file apps = decode-encode_apps apps
