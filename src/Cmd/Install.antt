-- ===== src/Cmd/Install.antt =====
-- cmd/localapp/install.go: what is recorded in the state directory, and the order of the steps of
-- install and uninstall. `unicode` is strings.TrimSpace on a text that is not ASCII.
pub mod Records
pub mod Tracking
pub mod Trust
pub mod Retry
use localapp.Base.{
  ℕ, true, false, Bool, not, ◌||◌, ◌&&◌, Option, none, some, List, [], ◌∷◌, ◌++◌, ltb,
  if◌then◌else◌, ℤ, pos, ltb_ℤ,
}
use localapp.Text.{Str, text, str_eq, has_suffix, all_bytes}
use localapp.Text.Cut.{cut}
use localapp.Text.Number.{atoi, itoa}
use localapp.Net.{trim_space}
use localapp.Domain.{validate}

-- reservedDomain
unfoldable pub reserved_domain : Str → Bool
unfolding str_eq has_suffix
reserved_domain domain =
    str_eq domain (text "local")
    || has_suffix domain (text ".local")
    || str_eq domain (text "localhost")
    || has_suffix domain (text ".localhost")

unfoldable pub trim_text : (Str → Str) → Str → Str
unfolding all_bytes trim_space
trim_text unicode s = if all_bytes (λ c. ltb c 128) s then trim_space s else unicode s

-- writeDomainRecord: the content.
unfoldable pub domain_record : Str → Str
domain_record domain = domain ++ 10 ∷ []

-- readDomainRecord, of the file's content if it could be read.
abbrev valid_domain : Str → Option Str
valid_domain domain = elim (validate domain) [ none ↦ some domain | some e ↦ none ]

unfoldable pub read_domain : (Str → Str) → Option Str → Option Str
unfolding trim_text
read_domain unicode none = none
read_domain unicode (some bytes) = valid_domain (trim_text unicode bytes)

-- writeOwner: the content.
unfoldable pub owner_record : ℕ → ℕ → Str
owner_record uid gid = itoa uid ++ b':' ∷ itoa gid ++ 10 ∷ []

abbrev both_ids : Option ℤ → Option ℤ → Option (ℤ × ℤ)
both_ids none gid = none
both_ids (some uid) none = none
both_ids (some uid) (some gid) =
    if not (ltb_ℤ (pos 0) uid) || ltb_ℤ gid (pos 0) then none else some (uid, gid)

abbrev owner_parts : Str × Option Str → Option (ℤ × ℤ)
owner_parts (uid, none) = none
owner_parts (uid, some gid) = both_ids (atoi uid) (atoi gid)

-- readOwner
unfoldable pub read_owner : (Str → Str) → Option Str → Option (ℤ × ℤ)
unfolding trim_text
read_owner unicode none = none
read_owner unicode (some bytes) = owner_parts (cut b':' (trim_text unicode bytes))

-- sudoUser
unfoldable pub sudo_user : (Str → Str) → Option (ℤ × ℤ)
sudo_user getenv = both_ids (atoi (getenv (text "SUDO_UID"))) (atoi (getenv (text "SUDO_GID")))

-- What install and uninstall do to the machine.
pub data Action : Type 0 where
  find_executable make_state_dir chmod_state_dir : Action
  write_owner : ℤ × ℤ → Action
  load_ca write_domain install_trust install_resolver : Str → Action
  install_service uninstall_service : Action
  uninstall_resolver : Str → Action
  uninstall_trust remove_state_dir : Action

-- The actions that were tried, in order, and those that failed.
pub record Report : Type 0 where
  pub tried : List Action
  pub failed : List Action

abbrev ahead : Action → Report → Report
ahead a r = record { tried = a ∷ r.tried; failed = r.failed }

-- Actions with a return on the first error.
unfoldable pub in_order : (Action → Bool) → List Action → Report
in_order fails [] = record { tried = []; failed = [] }
in_order fails (a ∷ rest) =
    let on = ahead a (in_order fails rest) in
    if fails a then record { tried = a ∷ []; failed = a ∷ [] } else on

abbrev owner_action : Option (ℤ × ℤ) → List Action → List Action
owner_action none rest = rest
owner_action (some owner) rest = write_owner owner ∷ rest

unfoldable pub install_actions : Option (ℤ × ℤ) → Str → List Action
install_actions owner domain =
    find_executable
    ∷ make_state_dir
    ∷ chmod_state_dir
    ∷ owner_action owner (
        load_ca domain
        ∷ write_domain domain
        ∷ install_trust domain
        ∷ install_resolver domain
        ∷ install_service
        ∷ [])

pub data Refusal : Type 0 where
  not_root invalid_domain reserved : Refusal

pub data Installed : Type 0 where
  refused : Refusal → Installed
  ran : Report → Installed

-- cmdInstall behind the arguments; `domain` is that of the flag in lower case, or the configured one.
unfoldable pub install : Bool → (Action → Bool) → Option (ℤ × ℤ) → Str → Installed
install root fails owner domain = if not root then refused not_root else elim (validate domain) [
  | some e ↦ refused invalid_domain
  | none ↦
      if reserved_domain domain
      then refused reserved
      else ran (in_order fails (install_actions owner domain))
]

abbrev if_failed : (Action → Bool) → Action → List Action → List Action
if_failed fails a rest = if fails a then a ∷ rest else rest

abbrev domain_or : Str → Option Str → Str
domain_or configured none = configured
domain_or configured (some domain) = domain

abbrev finish : (Action → Bool) → Str → List Action → Report
finish fails domain [] = record {
  tried = uninstall_service ∷ uninstall_resolver domain ∷ uninstall_trust ∷ remove_state_dir ∷ [];
  failed = if_failed fails remove_state_dir [];
}
finish fails domain (a ∷ failed) = record {
  tried = uninstall_service ∷ uninstall_resolver domain ∷ uninstall_trust ∷ [];
  failed = a ∷ failed;
}

-- uninstall, for the configured domain and the content of the file that records one.
unfoldable pub uninstall : (Str → Str) → (Action → Bool) → Str → Option Str → Report
unfolding read_domain
uninstall unicode fails configured recorded =
    let domain = domain_or configured (read_domain unicode recorded) in
    if fails uninstall_service
    then record { tried = uninstall_service ∷ []; failed = uninstall_service ∷ [] }
    else finish fails domain
        (if_failed fails (uninstall_resolver domain) (if_failed fails uninstall_trust []))

-- What the actions leave on the machine. The files that record the domain and hold the root
-- certificate lie in the state directory. Without that certificate the platform takes its trust
-- for removed, and leaves it.
pub record Machine : Type 0 where
  pub service : Bool
  pub resolver : Str → Bool
  pub trust : Bool
  pub state_dir : Bool
  pub root_cert : Bool
  pub recorded : Option Str

abbrev set_resolver : Str → Bool → (Str → Bool) → Str → Bool
set_resolver domain b resolver d = if str_eq d domain then b else resolver d

unfoldable pub act : Action → Machine → Machine
unfolding str_eq domain_record
act find_executable m = m
act make_state_dir m = record m { state_dir = true }
act chmod_state_dir m = m
act (write_owner owner) m = m
act (load_ca domain) m = record m { root_cert = true }
act (write_domain domain) m = record m { recorded = some (domain_record domain) }
act (install_trust domain) m = record m { trust = true }
act (install_resolver domain) m = record m { resolver = set_resolver domain true m.resolver }
act install_service m = record m { service = true }
act uninstall_service m = record m { service = false }
act (uninstall_resolver domain) m = record m { resolver = set_resolver domain false m.resolver }
act uninstall_trust m = record m { trust = m.trust && not m.root_cert }
act remove_state_dir m = record m { state_dir = false; root_cert = false; recorded = none }

-- The tried actions take effect; one that fails may have done so all the same. A file that
-- is written, or a directory that is removed, in part is not modelled.
unfoldable pub perform : (Action → Bool) → List Action → Machine → Machine
perform happens [] m = m
perform happens (a ∷ rest) m = perform happens rest (if happens a then act a m else m)
