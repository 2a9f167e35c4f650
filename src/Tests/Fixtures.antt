-- ===== src/Tests/Fixtures.antt =====
-- A small registry that the runs share: two services of one app.
use localapp.Base.{true, false, [], ◌∷◌, pos}
use localapp.Text.{Str}
use localapp.Registry.{Service, App, Os, delivered}
use localapp.Registry.Store.{World, Faults}
use localapp.Registry.Store.Runs.{fresh_world}

abbrev pub same : Str → Str
same s = s

abbrev pub no_faults : Faults
no_faults step = false

abbrev pub shop : Str
shop = b's' ∷ b'h' ∷ b'o' ∷ b'p' ∷ []

abbrev pub web : Str
web = b'w' ∷ b'e' ∷ b'b' ∷ []

abbrev pub api : Str
api = b'a' ∷ b'p' ∷ b'i' ∷ []

abbrev pub domain : Str
domain = b'l' ∷ b'o' ∷ b'c' ∷ b'a' ∷ b'l' ∷ b'a' ∷ b'p' ∷ b'p' ∷ []

abbrev pub api_mount : Str
api_mount = b'/' ∷ api

abbrev pub web_service : Service
web_service = record { name = web; port = pos 3000; path = []; strip_path = false; pid = pos 0 }

abbrev pub api_service : Service
api_service = record {
  name = api;
  port = pos 8080;
  path = api_mount;
  strip_path = true;
  pid = pos 0;
}

abbrev pub shop_app : App
shop_app = record { name = shop; services = api_service ∷ web_service ∷ [] }

abbrev pub registry_path : Str
registry_path = b'r' ∷ []

abbrev pub start : World
start = fresh_world registry_path

abbrev pub os : Os
os = record { find_process = λ pid. true; signal = λ pid. delivered; dial = λ port timeout. true }
