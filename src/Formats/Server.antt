-- ===== src/Formats/Server.antt =====
-- How the D-Bus values of src/server.hpp become enumerators.
use obmc_yadro_webapp.Prelude.{ℕ, Option, List, [], ◌∷◌, ◌++◌, nat_eq, text_eq}
use obmc_yadro_webapp.Prelude.Text.{Text, text}
use obmc_yadro_webapp.Entity.{FieldType}
use obmc_yadro_webapp.Formats.Base.{format_value_from_dict, raw_string, bool_eq}

pub data HostWatchdogProviderWatchdogAction : Type 0 where
  none reset_system power_down power_cycle : HostWatchdogProviderWatchdogAction

unfoldable pub host_watchdog_provider_watchdog_action_to_int :
    HostWatchdogProviderWatchdogAction → ℕ
host_watchdog_provider_watchdog_action_to_int HostWatchdogProviderWatchdogAction.none = 0
host_watchdog_provider_watchdog_action_to_int HostWatchdogProviderWatchdogAction.reset_system = 1
host_watchdog_provider_watchdog_action_to_int HostWatchdogProviderWatchdogAction.power_down = 2
host_watchdog_provider_watchdog_action_to_int HostWatchdogProviderWatchdogAction.power_cycle = 3

abbrev host_watchdog_provider_watchdog_action_name : Text → Text
host_watchdog_provider_watchdog_action_name val =
    text "xyz.openbmc_project.State.Watchdog.Action." ++ val

unfoldable pub host_watchdog_provider_watchdog_action_dict :
    List (Text × HostWatchdogProviderWatchdogAction)
host_watchdog_provider_watchdog_action_dict =
    (
      host_watchdog_provider_watchdog_action_name (text "None"),
      HostWatchdogProviderWatchdogAction.none,
    )
    ∷ (
      host_watchdog_provider_watchdog_action_name (text "HardReset"),
      HostWatchdogProviderWatchdogAction.reset_system,
    )
    ∷ (
      host_watchdog_provider_watchdog_action_name (text "PowerOff"),
      HostWatchdogProviderWatchdogAction.power_down,
    )
    ∷ (
      host_watchdog_provider_watchdog_action_name (text "PowerCycle"),
      HostWatchdogProviderWatchdogAction.power_cycle,
    )
    ∷ []

unfoldable pub format_host_watchdog_provider_watchdog_action : FieldType → Option FieldType
unfolding format_value_from_dict host_watchdog_provider_watchdog_action_dict
    host_watchdog_provider_watchdog_action_to_int
format_host_watchdog_provider_watchdog_action value =
    format_value_from_dict raw_string host_watchdog_provider_watchdog_action_to_int
      host_watchdog_provider_watchdog_action_dict HostWatchdogProviderWatchdogAction.none value

pub data PowerRestorePolicyProviderRestorePolicy : Type 0 where
  always_on always_off last_state : PowerRestorePolicyProviderRestorePolicy

unfoldable pub power_restore_policy_provider_restore_policy_to_int :
    PowerRestorePolicyProviderRestorePolicy → ℕ
power_restore_policy_provider_restore_policy_to_int
      PowerRestorePolicyProviderRestorePolicy.always_on =
    0
power_restore_policy_provider_restore_policy_to_int
      PowerRestorePolicyProviderRestorePolicy.always_off =
    1
power_restore_policy_provider_restore_policy_to_int
      PowerRestorePolicyProviderRestorePolicy.last_state =
    2

abbrev power_restore_policy_provider_restore_policy_name : Text → Text
power_restore_policy_provider_restore_policy_name val =
    text "xyz.openbmc_project.Control.Power.RestorePolicy.Policy." ++ val

unfoldable pub power_restore_policy_provider_restore_policy_dict :
    List (Text × PowerRestorePolicyProviderRestorePolicy)
power_restore_policy_provider_restore_policy_dict =
    (
      power_restore_policy_provider_restore_policy_name (text "AlwaysOn"),
      PowerRestorePolicyProviderRestorePolicy.always_on,
    )
    ∷ (
      power_restore_policy_provider_restore_policy_name (text "AlwaysOff"),
      PowerRestorePolicyProviderRestorePolicy.always_off,
    )
    ∷ (
      power_restore_policy_provider_restore_policy_name (text "Restore"),
      PowerRestorePolicyProviderRestorePolicy.last_state,
    )
    ∷ []

unfoldable pub format_power_restore_policy_provider_restore_policy : FieldType → Option FieldType
unfolding format_value_from_dict power_restore_policy_provider_restore_policy_dict
    power_restore_policy_provider_restore_policy_to_int
format_power_restore_policy_provider_restore_policy value =
    format_value_from_dict raw_string power_restore_policy_provider_restore_policy_to_int
      power_restore_policy_provider_restore_policy_dict
      PowerRestorePolicyProviderRestorePolicy.last_state value

pub data HostBootProviderMode : Type 0 where
  diags bios_setup hdd cd pxe usb none : HostBootProviderMode

unfoldable pub host_boot_provider_mode_to_int : HostBootProviderMode → ℕ
host_boot_provider_mode_to_int HostBootProviderMode.diags = 0
host_boot_provider_mode_to_int HostBootProviderMode.bios_setup = 1
host_boot_provider_mode_to_int HostBootProviderMode.hdd = 2
host_boot_provider_mode_to_int HostBootProviderMode.cd = 3
host_boot_provider_mode_to_int HostBootProviderMode.pxe = 4
host_boot_provider_mode_to_int HostBootProviderMode.usb = 5
host_boot_provider_mode_to_int HostBootProviderMode.none = 6

abbrev host_boot_provider_mode_name : Text → Text
host_boot_provider_mode_name val = text "xyz.openbmc_project.Control.Boot.Mode.Modes." ++ val

unfoldable pub host_boot_provider_mode_dict : List (Text × HostBootProviderMode)
host_boot_provider_mode_dict =
    (host_boot_provider_mode_name (text "Safe"), HostBootProviderMode.diags)
    ∷ (host_boot_provider_mode_name (text "Setup"), HostBootProviderMode.bios_setup)
    ∷ (host_boot_provider_mode_name (text "Regular"), HostBootProviderMode.none)
    ∷ []

unfoldable pub format_host_boot_provider_mode : FieldType → Option FieldType
unfolding format_value_from_dict host_boot_provider_mode_dict host_boot_provider_mode_to_int
format_host_boot_provider_mode value =
    format_value_from_dict raw_string host_boot_provider_mode_to_int host_boot_provider_mode_dict
      HostBootProviderMode.none value

pub data HostBootProviderType : Type 0 where
  legacy uefi : HostBootProviderType

unfoldable pub host_boot_provider_type_to_int : HostBootProviderType → ℕ
host_boot_provider_type_to_int HostBootProviderType.legacy = 0
host_boot_provider_type_to_int HostBootProviderType.uefi = 1

abbrev host_boot_provider_type_name : Text → Text
host_boot_provider_type_name val = text "xyz.openbmc_project.Control.Boot.Type.Types." ++ val

unfoldable pub host_boot_provider_type_dict : List (Text × HostBootProviderType)
host_boot_provider_type_dict =
    (host_boot_provider_type_name (text "Legacy"), HostBootProviderType.legacy)
    ∷ (host_boot_provider_type_name (text "EFI"), HostBootProviderType.uefi)
    ∷ []

unfoldable pub format_host_boot_provider_type : FieldType → Option FieldType
unfolding format_value_from_dict host_boot_provider_type_dict host_boot_provider_type_to_int
format_host_boot_provider_type value =
    format_value_from_dict raw_string host_boot_provider_type_to_int host_boot_provider_type_dict
      HostBootProviderType.legacy value
