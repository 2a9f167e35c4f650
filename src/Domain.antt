-- ===== src/Domain.antt =====
-- internal/domain/domain.go: the format of the configured domain.
pub mod Labels
pub mod Laws
use localapp.Base.{
  ℕ, ◌-◌, true, false, Bool, not, ◌&&◌, ◌||◌, Option, none, some, List, [], ◌∷◌, length, get_elem?,
  ltb, leb, ◌==◌, if◌then◌else◌,
}
use localapp.Text.{Str, split, all_bytes}
use localapp.Registry.{is_name_byte}

pub data DomainError : Type 0 where
  bad_length bad_label_length bad_hyphen bad_byte : DomainError

-- label[i] == '-'
abbrev is_hyphen : Option ℕ → Bool
is_hyphen none = false
is_hyphen (some c) = c == b'-'

-- One round of the loop over the labels.
unfoldable pub check_label : Str → Option DomainError
unfolding all_bytes is_name_byte
check_label label =
    if length label == 0 || ltb 63 (length label)
    then some bad_label_length
    else if is_hyphen (get_elem? label 0) || is_hyphen (get_elem? label (length label - 1))
    then some bad_hyphen
    else if not (all_bytes is_name_byte label)
    then some bad_byte
    else none

unfoldable pub check_labels : List Str → Option DomainError
unfolding check_label
check_labels [] = none
check_labels (label ∷ labels) = elim (check_label label) [
  | none ↦ check_labels labels
  | some e ↦ some e
]

unfoldable pub validate : Str → Option DomainError
unfolding check_labels split
validate name =
    if length name == 0 || ltb 253 (length name)
    then some bad_length
    else check_labels (split b'.' name)
