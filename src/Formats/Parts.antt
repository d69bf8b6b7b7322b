-- ===== src/Formats/Parts.antt =====
-- The formatters of states, lists, sizes and names (src/accounts.hpp, src/drive.hpp, src/memory.hpp,
-- src/network_adapter.hpp, src/pid_control.hpp, src/psu.hpp and src/server.hpp).
use obmc_yadro_webapp.Prelude.{
  ℕ, ◌/◌, ◌^◌, Bool, true, false, Option, none, some, List, [], ◌∷◌, ◌==◌, nat_eq, text_eq,
  if◌then◌else◌,
}
use obmc_yadro_webapp.Prelude.Int.{ℤ, pos, negsuc}
use obmc_yadro_webapp.Prelude.Text.{Text, text, is_empty}
use obmc_yadro_webapp.Utils.{get_name_from_last_segment_object_path}
use obmc_yadro_webapp.Entity.{
  FieldType, associations, strings, ints, string, uint64, int32, uint32, field_value_not_available,
  as_int,
}
use obmc_yadro_webapp.Formats.Base.{format_value_from_dict, raw_string}
use obmc_yadro_webapp.Formats.PidControl.{format_pid_profile_profile}

-- `Accounts::AccountType`.
pub data AccountType : Type 0 where
  redfish snpm host_console manager_console ipmi kvmip virtual_media webui unknown : AccountType

unfoldable pub account_type_to_int : AccountType → ℕ
account_type_to_int AccountType.redfish = 0
account_type_to_int AccountType.snpm = 1
account_type_to_int AccountType.host_console = 2
account_type_to_int AccountType.manager_console = 3
account_type_to_int AccountType.ipmi = 4
account_type_to_int AccountType.kvmip = 5
account_type_to_int AccountType.virtual_media = 6
account_type_to_int AccountType.webui = 7
account_type_to_int AccountType.unknown = 8

unfoldable pub account_type_dict : List (Text × AccountType)
account_type_dict =
    (text "redfish", AccountType.redfish)
    ∷ (text "ipmi", AccountType.ipmi)
    ∷ (text "ssh", AccountType.manager_console)
    ∷ (text "web", AccountType.webui)
    ∷ (text "kvm", AccountType.kvmip)
    ∷ []

unfoldable pub is_int : ℕ → ℤ → Bool
is_int m (pos n) = n == m
is_int m (negsuc n) = false

-- An integer in front of a list, where both are there.
unfoldable pub emplace_int : Option ℤ → Option (List ℤ) → Option (List ℤ)
emplace_int none rest = none
emplace_int (some n) none = none
emplace_int (some n) (some ns) = some (n ∷ ns)

unfoldable pub int_of : Option FieldType → Option ℤ
unfolding as_int
int_of none = none
int_of (some value) = as_int value

-- The loop of `Accounts::Query::FormatType`; `none` is the exception of `formatValueFromDict` or of
-- `std::get`.
unfoldable pub account_types : List Text → Option (List ℤ)
unfolding format_value_from_dict account_type_dict account_type_to_int int_of is_int emplace_int
account_types [] = some []
account_types (group ∷ groups) =
    let rest = account_types groups in
    elim (int_of (
      format_value_from_dict raw_string account_type_to_int account_type_dict AccountType.unknown
        (string group))) [
          | none ↦ none
          | some n ↦
              if is_int (account_type_to_int AccountType.unknown) n
              then rest
              else emplace_int (some n) rest
        ]

unfoldable pub ints_of : Option (List ℤ) → Option FieldType
ints_of none = none
ints_of (some ns) = some (ints ns)

unfoldable pub format_account_types : FieldType → Option FieldType
unfolding account_types ints_of
format_account_types (strings groups) = ints_of (account_types groups)
format_account_types value = some (ints [])

-- `PIDProfile::Query::FormatSupportedProfiles`.
unfoldable pub supported_profiles : List Text → Option (List ℤ)
unfolding format_pid_profile_profile int_of emplace_int
supported_profiles [] = some []
supported_profiles (profile ∷ profiles) =
    emplace_int (int_of (format_pid_profile_profile (string profile))) (supported_profiles profiles)

unfoldable pub format_supported_profiles : FieldType → Option FieldType
unfolding supported_profiles ints_of
format_supported_profiles (strings profiles) = ints_of (supported_profiles profiles)
format_supported_profiles value = some (ints [])

-- `DomainAccounts::State`, and its formatter.
pub data DomainAccountsState : Type 0 where
  enabled standby_offline : DomainAccountsState

unfoldable pub domain_accounts_state_to_int : DomainAccountsState → ℕ
domain_accounts_state_to_int DomainAccountsState.enabled = 0
domain_accounts_state_to_int DomainAccountsState.standby_offline = 1

unfoldable pub format_domain_accounts_state : FieldType → FieldType
unfolding domain_accounts_state_to_int
format_domain_accounts_state (FieldType.boolean true) =
    int32 (pos (domain_accounts_state_to_int DomainAccountsState.enabled))
format_domain_accounts_state value =
    int32 (pos (domain_accounts_state_to_int DomainAccountsState.standby_offline))

-- `DomainAccounts::Query::FormatList`.
unfoldable pub format_list : FieldType → FieldType
format_list (string item) = strings (if is_empty item then [] else item ∷ [])
format_list value = strings []

-- `State` of a drive and of a network adapter, with the formatter that both have.
pub data PresenceState : Type 0 where
  enabled absent : PresenceState

unfoldable pub presence_state_to_int : PresenceState → ℕ
presence_state_to_int PresenceState.enabled = 0
presence_state_to_int PresenceState.absent = 1

unfoldable pub format_drive_state : FieldType → FieldType
unfolding presence_state_to_int
format_drive_state (FieldType.boolean true) =
    int32 (pos (presence_state_to_int PresenceState.enabled))
format_drive_state value = int32 (pos (presence_state_to_int PresenceState.absent))

unfoldable pub format_network_adapter_state : FieldType → FieldType
unfolding presence_state_to_int
format_network_adapter_state (FieldType.boolean true) =
    int32 (pos (presence_state_to_int PresenceState.enabled))
format_network_adapter_state value = int32 (pos (presence_state_to_int PresenceState.absent))

-- `BootSettingsProvider::RetryConfig`, and its formatter.
pub data RetryConfig : Type 0 where
  retry_attempts disabled : RetryConfig

unfoldable pub retry_config_to_int : RetryConfig → ℕ
retry_config_to_int RetryConfig.retry_attempts = 0
retry_config_to_int RetryConfig.disabled = 1

unfoldable pub format_retry_config : FieldType → FieldType
unfolding retry_config_to_int
format_retry_config (FieldType.boolean true) =
    int32 (pos (retry_config_to_int RetryConfig.retry_attempts))
format_retry_config value = int32 (pos (retry_config_to_int RetryConfig.disabled))

-- A shift to the right by 10 bits.
unfoldable pub format_kib_to_mib : FieldType → FieldType
format_kib_to_mib (uint64 n) = uint64 (n / 2 ^ 10)
format_kib_to_mib (uint32 n) = uint32 (n / 2 ^ 10)
format_kib_to_mib value = int32 (pos 0)

-- The loop of the formatter of a power supply's id, over its associations.
unfoldable pub id_of_associations : List (Text × Text × Text) → Text
unfolding get_name_from_last_segment_object_path field_value_not_available
id_of_associations [] = field_value_not_available
id_of_associations ((forward, purpose, psu_object) ∷ others) =
    let rest = id_of_associations others in
    if purpose == text "status"
    then get_name_from_last_segment_object_path psu_object false
    else rest

unfoldable pub format_id : FieldType → FieldType
unfolding id_of_associations field_value_not_available
format_id (associations list) = string (id_of_associations list)
format_id value = string field_value_not_available
