-- ===== src/Formats/Pcie.antt =====
-- How the D-Bus values of src/pcie.hpp become enumerators.
pub mod Functions
pub mod Follow
pub mod Classes
use obmc_yadro_webapp.Prelude.{ℕ, Option, List, [], ◌∷◌, nat_eq, text_eq}
use obmc_yadro_webapp.Prelude.Text.{Text, text}
use obmc_yadro_webapp.Entity.{FieldType}
use obmc_yadro_webapp.Formats.Base.{format_value_from_dict, raw_string, raw_byte, bool_eq}

pub data PcieProviderDeviceType : Type 0 where
  single_function multi_function unkown : PcieProviderDeviceType

unfoldable pub pcie_provider_device_type_to_int : PcieProviderDeviceType → ℕ
pcie_provider_device_type_to_int PcieProviderDeviceType.single_function = 0
pcie_provider_device_type_to_int PcieProviderDeviceType.multi_function = 1
pcie_provider_device_type_to_int PcieProviderDeviceType.unkown = 2

unfoldable pub pcie_provider_device_type_dict : List (Text × PcieProviderDeviceType)
pcie_provider_device_type_dict =
    (text "SingleFunction", PcieProviderDeviceType.single_function)
    ∷ (text "MultiFunction", PcieProviderDeviceType.multi_function)
    ∷ []

unfoldable pub format_pcie_provider_device_type : FieldType → Option FieldType
unfolding format_value_from_dict pcie_provider_device_type_dict pcie_provider_device_type_to_int
format_pcie_provider_device_type value =
    format_value_from_dict raw_string pcie_provider_device_type_to_int
      pcie_provider_device_type_dict PcieProviderDeviceType.unkown value

pub data PcieProviderDeviceClass : Type 0 where
  unclassified_device mass_storage_controller network_controller display_controller
        multimedia_controller memory_controller bridge communication_controller
        generic_system_peripheral input_device_controller docking_station processor
        serial_bus_controller wireless_controller intelligent_controller
        satellite_communications_controller encryption_controller signal_processing_controller
        processing_accelerators non_essential_instrumentation coprocessor unassigned_class other :
      PcieProviderDeviceClass

unfoldable pub pcie_provider_device_class_to_int : PcieProviderDeviceClass → ℕ
pcie_provider_device_class_to_int PcieProviderDeviceClass.unclassified_device = 0
pcie_provider_device_class_to_int PcieProviderDeviceClass.mass_storage_controller = 1
pcie_provider_device_class_to_int PcieProviderDeviceClass.network_controller = 2
pcie_provider_device_class_to_int PcieProviderDeviceClass.display_controller = 3
pcie_provider_device_class_to_int PcieProviderDeviceClass.multimedia_controller = 4
pcie_provider_device_class_to_int PcieProviderDeviceClass.memory_controller = 5
pcie_provider_device_class_to_int PcieProviderDeviceClass.bridge = 6
pcie_provider_device_class_to_int PcieProviderDeviceClass.communication_controller = 7
pcie_provider_device_class_to_int PcieProviderDeviceClass.generic_system_peripheral = 8
pcie_provider_device_class_to_int PcieProviderDeviceClass.input_device_controller = 9
pcie_provider_device_class_to_int PcieProviderDeviceClass.docking_station = 10
pcie_provider_device_class_to_int PcieProviderDeviceClass.processor = 11
pcie_provider_device_class_to_int PcieProviderDeviceClass.serial_bus_controller = 12
pcie_provider_device_class_to_int PcieProviderDeviceClass.wireless_controller = 13
pcie_provider_device_class_to_int PcieProviderDeviceClass.intelligent_controller = 14
pcie_provider_device_class_to_int PcieProviderDeviceClass.satellite_communications_controller = 15
pcie_provider_device_class_to_int PcieProviderDeviceClass.encryption_controller = 16
pcie_provider_device_class_to_int PcieProviderDeviceClass.signal_processing_controller = 17
pcie_provider_device_class_to_int PcieProviderDeviceClass.processing_accelerators = 18
pcie_provider_device_class_to_int PcieProviderDeviceClass.non_essential_instrumentation = 19
pcie_provider_device_class_to_int PcieProviderDeviceClass.coprocessor = 20
pcie_provider_device_class_to_int PcieProviderDeviceClass.unassigned_class = 21
pcie_provider_device_class_to_int PcieProviderDeviceClass.other = 22

unfoldable pub pcie_provider_device_class_dict : List (ℕ × PcieProviderDeviceClass)
pcie_provider_device_class_dict =
    (0, PcieProviderDeviceClass.unclassified_device)
    ∷ (1, PcieProviderDeviceClass.mass_storage_controller)
    ∷ (2, PcieProviderDeviceClass.network_controller)
    ∷ (3, PcieProviderDeviceClass.display_controller)
    ∷ (4, PcieProviderDeviceClass.multimedia_controller)
    ∷ (5, PcieProviderDeviceClass.memory_controller)
    ∷ (6, PcieProviderDeviceClass.bridge)
    ∷ (7, PcieProviderDeviceClass.communication_controller)
    ∷ (8, PcieProviderDeviceClass.generic_system_peripheral)
    ∷ (9, PcieProviderDeviceClass.input_device_controller)
    ∷ (10, PcieProviderDeviceClass.docking_station)
    ∷ (11, PcieProviderDeviceClass.processor)
    ∷ (12, PcieProviderDeviceClass.serial_bus_controller)
    ∷ (13, PcieProviderDeviceClass.wireless_controller)
    ∷ (14, PcieProviderDeviceClass.intelligent_controller)
    ∷ (15, PcieProviderDeviceClass.satellite_communications_controller)
    ∷ (16, PcieProviderDeviceClass.encryption_controller)
    ∷ (17, PcieProviderDeviceClass.signal_processing_controller)
    ∷ (18, PcieProviderDeviceClass.processing_accelerators)
    ∷ (19, PcieProviderDeviceClass.non_essential_instrumentation)
    ∷ (64, PcieProviderDeviceClass.coprocessor)
    ∷ (255, PcieProviderDeviceClass.unassigned_class)
    ∷ []

unfoldable pub format_pcie_provider_device_class : FieldType → Option FieldType
unfolding format_value_from_dict pcie_provider_device_class_dict pcie_provider_device_class_to_int
format_pcie_provider_device_class value =
    format_value_from_dict raw_byte pcie_provider_device_class_to_int
      pcie_provider_device_class_dict PcieProviderDeviceClass.other value

pub data PcieProviderFunctionType : Type 0 where
  physical_function virtual_function unkown_function : PcieProviderFunctionType

unfoldable pub pcie_provider_function_type_to_int : PcieProviderFunctionType → ℕ
pcie_provider_function_type_to_int PcieProviderFunctionType.physical_function = 0
pcie_provider_function_type_to_int PcieProviderFunctionType.virtual_function = 1
pcie_provider_function_type_to_int PcieProviderFunctionType.unkown_function = 2

unfoldable pub pcie_provider_function_type_dict : List (Text × PcieProviderFunctionType)
pcie_provider_function_type_dict =
    (text "Physical", PcieProviderFunctionType.physical_function)
    ∷ (text "Virtual", PcieProviderFunctionType.virtual_function)
    ∷ []

unfoldable pub format_pcie_provider_function_type : FieldType → Option FieldType
unfolding format_value_from_dict pcie_provider_function_type_dict pcie_provider_function_type_to_int
format_pcie_provider_function_type value =
    format_value_from_dict raw_string pcie_provider_function_type_to_int
      pcie_provider_function_type_dict PcieProviderFunctionType.unkown_function value
