-- ===== src/Ca.antt =====
-- internal/ca/name.go: the host names that the local CA issues certificates for.
pub mod Hosts
pub mod Disk
pub mod Crypto
pub mod Root
pub mod Leaf
use localapp.Base.{
  ℕ, true, false, Bool, not, ◌||◌, Option, none, some, List, [], ◌∷◌, ◌++◌, length, ltb,
  if◌then◌else◌,
}
use localapp.Text.{Str, str_eq, has_suffix, trim_suffix, split, all_bytes}
use localapp.Registry.{is_name_byte}
use localapp.Domain

abbrev max_host_len : ℕ
max_host_len = 253

abbrev max_label_len : ℕ
max_label_len = 63

pub data LabelError : Type 0 where
  empty_label label_too_long unusable_character : LabelError

-- The errors that wrap ErrInvalidHost.
pub data HostError : Type 0 where
  bad_domain : Domain.DomainError → HostError
  empty_sni host_too_long not_under_domain : HostError
  bad_label : LabelError → HostError

unfoldable pub validate_domain : Str → Option HostError
validate_domain name = elim (Domain.validate name) [ none ↦ none | some e ↦ some (bad_domain e) ]

unfoldable pub validate_label : Str → Option LabelError
unfolding str_eq all_bytes is_name_byte
validate_label label =
    if str_eq label []
    then some empty_label
    else if ltb max_label_len (length label)
    then some label_too_long
    else if not (all_bytes is_name_byte label)
    then some unusable_character
    else none

validate_labels : List Str → Option HostError
validate_labels [] = none
validate_labels (label ∷ labels) = elim (validate_label label) [
  | none ↦ validate_labels labels
  | some e ↦ some (bad_label e)
]

unfoldable pub validate_host : Str → Str → Option HostError
unfolding validate_labels
validate_host host domain =
    if str_eq host []
    then some empty_sni
    else if ltb max_host_len (length host)
    then some host_too_long
    else if str_eq host domain
    then none
    else let suffix = b'.' ∷ domain in
      if not (has_suffix host suffix)
      then some not_under_domain
      else validate_labels (split b'.' (trim_suffix host suffix))
