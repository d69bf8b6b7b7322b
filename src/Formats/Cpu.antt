-- ===== src/Formats/Cpu.antt =====
-- How the D-Bus values of src/cpu.hpp become enumerators.
use obmc_yadro_webapp.Prelude.{ℕ, Bool, true, false, Option, List, [], ◌∷◌, nat_eq, text_eq}
use obmc_yadro_webapp.Prelude.Text.{Text, text}
use obmc_yadro_webapp.Entity.{FieldType}
use obmc_yadro_webapp.Formats.Base.{format_value_from_dict, raw_string, raw_bool, bool_eq}

pub data CpuSmbiosProviderProcessorType : Type 0 where
  cpu unknown : CpuSmbiosProviderProcessorType

unfoldable pub cpu_smbios_provider_processor_type_to_int : CpuSmbiosProviderProcessorType → ℕ
cpu_smbios_provider_processor_type_to_int CpuSmbiosProviderProcessorType.cpu = 0
cpu_smbios_provider_processor_type_to_int CpuSmbiosProviderProcessorType.unknown = 1

unfoldable pub cpu_smbios_provider_processor_type_dict :
    List (Text × CpuSmbiosProviderProcessorType)
cpu_smbios_provider_processor_type_dict =
    (text "Central Processor", CpuSmbiosProviderProcessorType.cpu) ∷ []

unfoldable pub format_cpu_smbios_provider_processor_type : FieldType → Option FieldType
unfolding format_value_from_dict cpu_smbios_provider_processor_type_dict
    cpu_smbios_provider_processor_type_to_int
format_cpu_smbios_provider_processor_type value =
    format_value_from_dict raw_string cpu_smbios_provider_processor_type_to_int
      cpu_smbios_provider_processor_type_dict CpuSmbiosProviderProcessorType.unknown value

pub data ProcessorState : Type 0 where
  enabled absent : ProcessorState

unfoldable pub processor_state_to_int : ProcessorState → ℕ
processor_state_to_int ProcessorState.enabled = 0
processor_state_to_int ProcessorState.absent = 1

unfoldable pub processor_state_dict : List (Bool × ProcessorState)
processor_state_dict = (false, ProcessorState.absent) ∷ (true, ProcessorState.enabled) ∷ []

unfoldable pub format_processor_state : FieldType → Option FieldType
unfolding format_value_from_dict processor_state_dict processor_state_to_int
format_processor_state value =
    format_value_from_dict raw_bool processor_state_to_int processor_state_dict
      ProcessorState.absent value
