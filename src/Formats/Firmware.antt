-- ===== src/Formats/Firmware.antt =====
-- How the D-Bus values of src/firmware.hpp become enumerators.
use obmc_yadro_webapp.Prelude.{ℕ, Option, List, [], ◌∷◌, ◌++◌, nat_eq, text_eq}
use obmc_yadro_webapp.Prelude.Text.{Text, text}
use obmc_yadro_webapp.Entity.{FieldType}
use obmc_yadro_webapp.Formats.Base.{format_value_from_dict, raw_string, bool_eq}

pub data FirmwareProviderPurpose : Type 0 where
  bmc bios unknown : FirmwareProviderPurpose

unfoldable pub firmware_provider_purpose_to_int : FirmwareProviderPurpose → ℕ
firmware_provider_purpose_to_int FirmwareProviderPurpose.bmc = 0
firmware_provider_purpose_to_int FirmwareProviderPurpose.bios = 1
firmware_provider_purpose_to_int FirmwareProviderPurpose.unknown = 2

abbrev firmware_provider_purpose_name : Text → Text
firmware_provider_purpose_name val =
    text "xyz.openbmc_project.Software.Version.VersionPurpose." ++ val

unfoldable pub firmware_provider_purpose_dict : List (Text × FirmwareProviderPurpose)
firmware_provider_purpose_dict =
    (firmware_provider_purpose_name (text "BMC"), FirmwareProviderPurpose.bmc)
    ∷ (firmware_provider_purpose_name (text "Host"), FirmwareProviderPurpose.bios)
    ∷ []

unfoldable pub format_firmware_provider_purpose : FieldType → Option FieldType
unfolding format_value_from_dict firmware_provider_purpose_dict firmware_provider_purpose_to_int
format_firmware_provider_purpose value =
    format_value_from_dict raw_string firmware_provider_purpose_to_int
      firmware_provider_purpose_dict FirmwareProviderPurpose.unknown value

pub data FirmwareProviderActivations : Type 0 where
  not_ready invalid ready activating activating_as_standby_spare active failed standby_spare staged
        staging :
      FirmwareProviderActivations

unfoldable pub firmware_provider_activations_to_int : FirmwareProviderActivations → ℕ
firmware_provider_activations_to_int FirmwareProviderActivations.not_ready = 0
firmware_provider_activations_to_int FirmwareProviderActivations.invalid = 1
firmware_provider_activations_to_int FirmwareProviderActivations.ready = 2
firmware_provider_activations_to_int FirmwareProviderActivations.activating = 3
firmware_provider_activations_to_int FirmwareProviderActivations.activating_as_standby_spare = 4
firmware_provider_activations_to_int FirmwareProviderActivations.active = 5
firmware_provider_activations_to_int FirmwareProviderActivations.failed = 6
firmware_provider_activations_to_int FirmwareProviderActivations.standby_spare = 7
firmware_provider_activations_to_int FirmwareProviderActivations.staged = 8
firmware_provider_activations_to_int FirmwareProviderActivations.staging = 9

abbrev firmware_provider_activations_name : Text → Text
firmware_provider_activations_name val =
    text "xyz.openbmc_project.Software.Activation.Activations." ++ val

unfoldable pub firmware_provider_activations_dict : List (Text × FirmwareProviderActivations)
firmware_provider_activations_dict =
    (firmware_provider_activations_name (text "NotReady"), FirmwareProviderActivations.not_ready)
    ∷ (firmware_provider_activations_name (text "Invalid"), FirmwareProviderActivations.invalid)
    ∷ (firmware_provider_activations_name (text "Ready"), FirmwareProviderActivations.ready)
    ∷ (
      firmware_provider_activations_name (text "Activating"),
      FirmwareProviderActivations.activating,
    )
    ∷ (
      firmware_provider_activations_name (text "ActivatingAsStandbySpare"),
      FirmwareProviderActivations.activating_as_standby_spare,
    )
    ∷ (firmware_provider_activations_name (text "Active"), FirmwareProviderActivations.active)
    ∷ (firmware_provider_activations_name (text "Failed"), FirmwareProviderActivations.failed)
    ∷ (
      firmware_provider_activations_name (text "StandbySpare"),
      FirmwareProviderActivations.standby_spare,
    )
    ∷ (firmware_provider_activations_name (text "Staged"), FirmwareProviderActivations.staged)
    ∷ (firmware_provider_activations_name (text "Staging"), FirmwareProviderActivations.staging)
    ∷ []

unfoldable pub format_firmware_provider_activations : FieldType → Option FieldType
unfolding format_value_from_dict firmware_provider_activations_dict
    firmware_provider_activations_to_int
format_firmware_provider_activations value =
    format_value_from_dict raw_string firmware_provider_activations_to_int
      firmware_provider_activations_dict FirmwareProviderActivations.not_ready value

pub data FirmwareManagmentApplyTime : Type 0 where
  on_reset immediate unknown : FirmwareManagmentApplyTime

unfoldable pub firmware_managment_apply_time_to_int : FirmwareManagmentApplyTime → ℕ
firmware_managment_apply_time_to_int FirmwareManagmentApplyTime.on_reset = 0
firmware_managment_apply_time_to_int FirmwareManagmentApplyTime.immediate = 1
firmware_managment_apply_time_to_int FirmwareManagmentApplyTime.unknown = 2

abbrev firmware_managment_apply_time_name : Text → Text
firmware_managment_apply_time_name val =
    text "xyz.openbmc_project.Software.ApplyTime.RequestedApplyTimes." ++ val

unfoldable pub firmware_managment_apply_time_dict : List (Text × FirmwareManagmentApplyTime)
firmware_managment_apply_time_dict =
    (firmware_managment_apply_time_name (text "OnReset"), FirmwareManagmentApplyTime.on_reset)
    ∷ (firmware_managment_apply_time_name (text "Immediate"), FirmwareManagmentApplyTime.immediate)
    ∷ []

unfoldable pub format_firmware_managment_apply_time : FieldType → Option FieldType
unfolding format_value_from_dict firmware_managment_apply_time_dict
    firmware_managment_apply_time_to_int
format_firmware_managment_apply_time value =
    format_value_from_dict raw_string firmware_managment_apply_time_to_int
      firmware_managment_apply_time_dict FirmwareManagmentApplyTime.unknown value
