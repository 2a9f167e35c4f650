-- ===== src/Tests/CaRuns.antt =====
-- The root CA and a leaf certificate, over the toy cryptography: made, stored, and read again.
use localapp.Base.{ℕ, ◌≡◌, ◌≢◌, refl, true, false, none, some, [], ◌∷◌, ◌++◌}
use localapp.Text.{Str, text, str_eq}
use localapp.Text.Order.{str_eq_refl}
use localapp.Ca.{validate_host}
use localapp.Ca.Disk.{Disk}
use localapp.Ca.Root.{
  ok, Result, Faults, Draw, Root, Place, cert_path, key_path, load_or_create, create_root,
  root_template,
}
use localapp.Ca.Root.Restart.{load_or_create-again}
use localapp.Ca.Root.Kept.{load_or_create-keeps}
use localapp.Ca.Leaf.{Ca, Pair, usable, remember, issue_leaf, certificate_for}
use localapp.Ca.Leaf.Usable.{IsRemembered, certificate_for-IsUsable}
use localapp.Ca.Leaf.Again.{certificate_for-restart}
use localapp.Tests.Fixtures.{domain}
use localapp.Tests.NameRuns.{shop_host}
use localapp.Tests.ToyCrypto.{toy, toy-IsLawful}

abbrev in_dir : Str → Str → Str
in_dir dir name = dir ++ b'/' ∷ name

abbrev all_well : Faults
all_well = record {
  unreadable_at = λ path. false;
  mkdir_fails = λ path. false;
  write_fails = λ path. none;
}

abbrev place : Place
place = record { domain = domain; ca_dir = b'a' ∷ []; certs_dir = b'c' ∷ [] }

abbrev empty : Disk
empty = record { files = λ path. none; temp = none }

abbrev draw : Draw toy
draw = record { new_key = some 7; number = some 41 }

abbrev now : ℕ
now = 1000000000

abbrev month_later : ℕ
month_later = 1002592000

apart : (a b : Str) → str_eq a b ≡ false → a ≢ b
apart a b h e = cc (rw e at h, str_eq_refl b)

abbrev created : Result (Root toy) × Disk
created = load_or_create toy in_dir all_well place now draw empty

abbrev the_root : Root toy
the_root = record { cert = 0 ∷ 1 ∷ 999996400 ∷ 1315360000 ∷ 1 ∷ 7 ∷ 7 ∷ domain; key = 7 }

created-ok : created ≡ (ok the_root, created.1)
unfolding load_or_create localapp.Ca.validate_domain localapp.Domain.validate
    localapp.Domain.check_labels localapp.Domain.check_label localapp.Text.split
    localapp.Text.all_bytes localapp.Registry.is_name_byte str_eq localapp.Ca.Root.no_directories
    localapp.Ca.Root.load_root localapp.Ca.Root.read_file create_root localapp.Ca.Root.make_root
    root_template localapp.Ca.Root.new_serial localapp.Ca.Root.encode_key localapp.Ca.Root.save_pair
    localapp.Ca.Disk.write_file
created-ok = refl

paths-apart : key_path toy in_dir place.ca_dir ≢ cert_path toy in_dir place.ca_dir
paths-apart =
    apart (key_path toy in_dir place.ca_dir) (cert_path toy in_dir place.ca_dir)
      (unfold key_path in unfold cert_path in unfold text in unfold str_eq in refl)

load_or_create-again_example :
    load_or_create toy in_dir all_well place month_later draw created.1 ≡ (ok the_root, created.1)
load_or_create-again_example =
    load_or_create-again toy in_dir all_well all_well place now month_later draw draw empty
      created.1 the_root toy-IsLawful refl paths-apart created-ok
      (record { ca_dir = refl; certs_dir = refl; readable = record { cert = refl; key = refl } })

-- Two files that hold no root.
abbrev broken : Disk
broken = record { files = λ path. some (0 ∷ []); temp = none }

load_or_create-keeps_example : (load_or_create toy in_dir all_well place now draw broken).1 ≡ broken
load_or_create-keeps_example =
    load_or_create-keeps toy in_dir all_well place now draw broken (0 ∷ []) (0 ∷ []) refl refl

abbrev ca : Ca toy
ca = record { place = place; root = the_root; cache = λ host. none }

abbrev leaf_draw : Draw toy
leaf_draw = record { new_key = some 8; number = some 42 }

abbrev shop_leaf : Str
shop_leaf = 1 ∷ 0 ∷ 999996400 ∷ 1007776000 ∷ 0 ∷ 8 ∷ 7 ∷ shop_host

abbrev shop_pair : Pair toy
shop_pair = record { chain = shop_leaf ∷ the_root.cert ∷ []; key = 8; leaf = some shop_leaf }

abbrev issued : Result (Pair toy) × Disk
issued = issue_leaf toy in_dir all_well ca shop_host now leaf_draw empty

issued-ok : issued ≡ (ok shop_pair, issued.1)
unfolding issue_leaf localapp.Ca.Leaf.issue validate_host localapp.Ca.validate_label
    localapp.Text.trim_suffix localapp.Text.cut_suffix localapp.Text.has_suffix str_eq
    localapp.Text.split localapp.Text.all_bytes localapp.Registry.is_name_byte
    localapp.Ca.Leaf.leaf_template localapp.Ca.Root.new_serial localapp.Ca.Root.encode_key
    localapp.Ca.Leaf.leaf_paths localapp.Ca.Root.save_pair localapp.Ca.Disk.write_file
issued-ok = refl

abbrev after_first : Ca toy
after_first = record ca { cache = remember toy shop_host shop_pair ca.cache }

first-ok :
    certificate_for toy in_dir all_well ca shop_host now leaf_draw empty
    ≡ (ok shop_pair, after_first, issued.1)
unfolding certificate_for localapp.Ca.Leaf.load_leaf localapp.Ca.Root.read_file
    localapp.Ca.Leaf.leaf_paths issue_leaf localapp.Ca.Leaf.issue validate_host
    localapp.Ca.validate_label localapp.Text.trim_suffix localapp.Text.cut_suffix
    localapp.Text.has_suffix str_eq localapp.Text.split localapp.Text.all_bytes
    localapp.Registry.is_name_byte localapp.Ca.Leaf.leaf_template localapp.Ca.Root.new_serial
    localapp.Ca.Root.encode_key localapp.Ca.Root.save_pair localapp.Ca.Disk.write_file
first-ok = refl

certificate_for-IsUsable_example :
    (validate_host shop_host domain ≡ none)
    × (usable toy the_root.cert (some shop_leaf) shop_host now ≡ true)
    × IsRemembered toy in_dir ca after_first shop_host shop_pair
certificate_for-IsUsable_example =
    certificate_for-IsUsable toy in_dir all_well ca after_first shop_host now leaf_draw empty
      issued.1 shop_pair toy-IsLawful (record { matched = refl; authority = refl; signing = refl })
      refl first-ok

leaf_paths-apart :
    in_dir place.certs_dir (shop_host ++ text ".key")
    ≢ in_dir place.certs_dir (shop_host ++ text ".crt")
leaf_paths-apart =
    apart (in_dir place.certs_dir (shop_host ++ text ".key"))
      (in_dir place.certs_dir (shop_host ++ text ".crt")) (unfold text in unfold str_eq in refl)

month_later-usable : usable toy the_root.cert (some shop_leaf) shop_host month_later ≡ true
unfolding usable localapp.Ca.Leaf.usable_leaf str_eq
month_later-usable = refl

certificate_for-restart_example :
    certificate_for toy in_dir all_well ca shop_host month_later draw issued.1
    ≡ (ok shop_pair, after_first, issued.1)
certificate_for-restart_example =
    certificate_for-restart toy in_dir all_well all_well ca ca shop_host now month_later leaf_draw
      draw empty issued.1 shop_pair toy-IsLawful refl issued-ok refl refl refl
      (record { apart = leaf_paths-apart; cert = refl; key = refl }) month_later-usable
