-- ===== src/Tests/NameRuns.antt =====
-- Names, domains and the hosts that the CA issues for.
use localapp.Base.{◌≡◌, ◌++◌, refl, none, [], ◌∷◌}
use localapp.Text.{Str, text}
use localapp.Registry.{validate_name, normalize_name}
use localapp.Registry.Names.{IsNormal, normalize_name-IsNormal}
use localapp.Domain.{validate}
use localapp.Domain.Laws.{IsDomain, validate-IsDomain}
use localapp.Ca.{validate_host}
use localapp.Tests.Fixtures.{same, domain, shop}

-- "My_App!" becomes "my-app".
abbrev raw_name : Str
raw_name = b'M' ∷ b'y' ∷ b'_' ∷ b'A' ∷ b'p' ∷ b'p' ∷ b'!' ∷ []

raw_name-normal : normalize_name same raw_name ≡ b'm' ∷ b'y' ∷ b'-' ∷ b'a' ∷ b'p' ∷ b'p' ∷ []
unfolding normalize_name localapp.Registry.truncate localapp.Text.to_lower localapp.Text.trim
raw_name-normal = refl

normalize_name-IsNormal_example : IsNormal (normalize_name same raw_name)
normalize_name-IsNormal_example = normalize_name-IsNormal same raw_name

domain-valid : validate domain ≡ none
unfolding validate localapp.Domain.check_labels localapp.Domain.check_label localapp.Text.split
    localapp.Text.all_bytes localapp.Registry.is_name_byte
domain-valid = refl

pub domain-IsDomain : IsDomain domain
domain-IsDomain = validate-IsDomain domain domain-valid

pub shop-valid : validate_name (text "app") shop ≡ none
unfolding validate_name localapp.Registry.name_re localapp.Text.all_bytes
    localapp.Registry.is_name_byte
shop-valid = refl

abbrev pub shop_host : Str
shop_host = shop ++ b'.' ∷ domain

shop_host-valid : validate_host shop_host domain ≡ none
unfolding validate_host localapp.Ca.validate_label localapp.Text.trim_suffix
    localapp.Text.cut_suffix localapp.Text.has_suffix localapp.Text.str_eq localapp.Text.split
    localapp.Text.all_bytes localapp.Registry.is_name_byte
shop_host-valid = refl
