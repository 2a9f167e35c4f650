-- ===== src/Cmd/Args.antt =====
-- cmd/localapp/main.go, logcat.go and open.go: the arguments that name an app or a service.
pub mod Names
use localapp.Base.{
  ℕ, true, false, Bool, ◌&&◌, ◌||◌, not, Option, none, some, List, [], ◌∷◌, ◌++◌, ltb, length,
  if◌then◌else◌,
}
use localapp.Text.{Str, str_eq, contains}
use localapp.Text.Cut.{cut}
use localapp.Registry.{default_service, normalize_name}
use localapp.Control.{AppView, ServiceView}

-- An app, and the part behind the slash if there is a slash.
abbrev checked : Str → Option Str → Option (Str × Option Str)
checked app none = if str_eq app [] then none else some (app, none)
checked app (some service) =
    if str_eq app [] || str_eq service [] || contains b'/' service
    then none
    else some (app, some service)

-- The argument of cmdRm; `none`: an invalid argument.
unfoldable pub target : Str → Option (Str × Option Str)
unfolding str_eq contains
target arg = let (app, service) = cut b'/' arg in checked app service

abbrev with_default : Option (Str × Option Str) → Option (Str × Str)
with_default none = none
with_default (some (app, none)) = some (app, default_service)
with_default (some (app, some service)) = some (app, service)

-- splitAppService
unfoldable pub split_app_service : Str → Option (Str × Str)
unfolding target
split_app_service arg = with_default (target arg)

-- defaultAppName, of filepath.Base of the working directory. `unicode` as in NormalizeName.
unfoldable pub default_app_name : (Str → Str) → Str → Option Str
default_app_name unicode base =
    let name = normalize_name unicode base in if str_eq name [] then none else some name

-- primaryURL
abbrev first_url : List Str → Option Str
first_url [] = none
first_url (u ∷ urls) = some u

abbrev or_else : Option Str → Option Str → Option Str
or_else (some u) rest = some u
or_else none rest = rest

unfoldable pub default_url : List ServiceView → Option Str
default_url [] = none
default_url (s ∷ services) =
    or_else (if str_eq s.service default_service then first_url s.urls else none)
      (default_url services)

unfoldable pub any_url : List ServiceView → Option Str
any_url [] = none
any_url (s ∷ services) = or_else (first_url s.urls) (any_url services)

unfoldable pub primary_url : AppView → Option Str
unfolding default_url any_url
primary_url view = or_else (default_url view.services) (any_url view.services)
