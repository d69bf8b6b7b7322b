-- ===== src/Formats/Memory.antt =====
-- How the D-Bus values of src/memory.hpp become enumerators.
use obmc_yadro_webapp.Prelude.{ℕ, Option, List, [], ◌∷◌, ◌++◌, nat_eq, text_eq}
use obmc_yadro_webapp.Prelude.Text.{Text, text}
use obmc_yadro_webapp.Entity.{FieldType}
use obmc_yadro_webapp.Formats.Base.{format_value_from_dict, raw_string, bool_eq}

pub data DimmSmbiosProviderEcc : Type 0 where
  no_ecc single_bit_ecc multi_bit_ecc address_parity : DimmSmbiosProviderEcc

unfoldable pub dimm_smbios_provider_ecc_to_int : DimmSmbiosProviderEcc → ℕ
dimm_smbios_provider_ecc_to_int DimmSmbiosProviderEcc.no_ecc = 0
dimm_smbios_provider_ecc_to_int DimmSmbiosProviderEcc.single_bit_ecc = 1
dimm_smbios_provider_ecc_to_int DimmSmbiosProviderEcc.multi_bit_ecc = 2
dimm_smbios_provider_ecc_to_int DimmSmbiosProviderEcc.address_parity = 3

abbrev dimm_smbios_provider_ecc_name : Text → Text
dimm_smbios_provider_ecc_name val = text "xyz.openbmc_project.Inventory.Item.Dimm.Ecc." ++ val

unfoldable pub dimm_smbios_provider_ecc_dict : List (Text × DimmSmbiosProviderEcc)
dimm_smbios_provider_ecc_dict =
    (dimm_smbios_provider_ecc_name (text "NoECC"), DimmSmbiosProviderEcc.no_ecc)
    ∷ (dimm_smbios_provider_ecc_name (text "SingleBitECC"), DimmSmbiosProviderEcc.single_bit_ecc)
    ∷ (dimm_smbios_provider_ecc_name (text "MultiBitECC"), DimmSmbiosProviderEcc.multi_bit_ecc)
    ∷ (dimm_smbios_provider_ecc_name (text "AddressParity"), DimmSmbiosProviderEcc.address_parity)
    ∷ []

unfoldable pub format_dimm_smbios_provider_ecc : FieldType → Option FieldType
unfolding format_value_from_dict dimm_smbios_provider_ecc_dict dimm_smbios_provider_ecc_to_int
format_dimm_smbios_provider_ecc value =
    format_value_from_dict raw_string dimm_smbios_provider_ecc_to_int dimm_smbios_provider_ecc_dict
      DimmSmbiosProviderEcc.no_ecc value

pub data DimmSmbiosProviderFormFactor : Type 0 where
  rdimm udimm so_dimm lrdimm mini_rdimm mini_udimm so_rdimm_72b so_udimm_72b so_dimm_16b so_dimm_32b
        die unknown :
      DimmSmbiosProviderFormFactor

unfoldable pub dimm_smbios_provider_form_factor_to_int : DimmSmbiosProviderFormFactor → ℕ
dimm_smbios_provider_form_factor_to_int DimmSmbiosProviderFormFactor.rdimm = 0
dimm_smbios_provider_form_factor_to_int DimmSmbiosProviderFormFactor.udimm = 1
dimm_smbios_provider_form_factor_to_int DimmSmbiosProviderFormFactor.so_dimm = 2
dimm_smbios_provider_form_factor_to_int DimmSmbiosProviderFormFactor.lrdimm = 3
dimm_smbios_provider_form_factor_to_int DimmSmbiosProviderFormFactor.mini_rdimm = 4
dimm_smbios_provider_form_factor_to_int DimmSmbiosProviderFormFactor.mini_udimm = 5
dimm_smbios_provider_form_factor_to_int DimmSmbiosProviderFormFactor.so_rdimm_72b = 6
dimm_smbios_provider_form_factor_to_int DimmSmbiosProviderFormFactor.so_udimm_72b = 7
dimm_smbios_provider_form_factor_to_int DimmSmbiosProviderFormFactor.so_dimm_16b = 8
dimm_smbios_provider_form_factor_to_int DimmSmbiosProviderFormFactor.so_dimm_32b = 9
dimm_smbios_provider_form_factor_to_int DimmSmbiosProviderFormFactor.die = 10
dimm_smbios_provider_form_factor_to_int DimmSmbiosProviderFormFactor.unknown = 11

abbrev dimm_smbios_provider_form_factor_name : Text → Text
dimm_smbios_provider_form_factor_name val =
    text "xyz.openbmc_project.Inventory.Item.Dimm.FormFactor." ++ val

unfoldable pub dimm_smbios_provider_form_factor_dict : List (Text × DimmSmbiosProviderFormFactor)
dimm_smbios_provider_form_factor_dict =
    (dimm_smbios_provider_form_factor_name (text "RDIMM"), DimmSmbiosProviderFormFactor.rdimm)
    ∷ (dimm_smbios_provider_form_factor_name (text "UDIMM"), DimmSmbiosProviderFormFactor.udimm)
    ∷ (dimm_smbios_provider_form_factor_name (text "SO_DIMM"), DimmSmbiosProviderFormFactor.so_dimm)
    ∷ (dimm_smbios_provider_form_factor_name (text "LRDIMM"), DimmSmbiosProviderFormFactor.lrdimm)
    ∷ (
      dimm_smbios_provider_form_factor_name (text "Mini_RDIMM"),
      DimmSmbiosProviderFormFactor.mini_rdimm,
    )
    ∷ (
      dimm_smbios_provider_form_factor_name (text "Mini_UDIMM"),
      DimmSmbiosProviderFormFactor.mini_udimm,
    )
    ∷ (
      dimm_smbios_provider_form_factor_name (text "SO_RDIMM_72b"),
      DimmSmbiosProviderFormFactor.so_rdimm_72b,
    )
    ∷ (
      dimm_smbios_provider_form_factor_name (text "SO_UDIMM_72b"),
      DimmSmbiosProviderFormFactor.so_udimm_72b,
    )
    ∷ (
      dimm_smbios_provider_form_factor_name (text "SO_DIMM_16b"),
      DimmSmbiosProviderFormFactor.so_dimm_16b,
    )
    ∷ (
      dimm_smbios_provider_form_factor_name (text "SO_DIMM_32b"),
      DimmSmbiosProviderFormFactor.so_dimm_32b,
    )
    ∷ (dimm_smbios_provider_form_factor_name (text "Die"), DimmSmbiosProviderFormFactor.die)
    ∷ []

unfoldable pub format_dimm_smbios_provider_form_factor : FieldType → Option FieldType
unfolding format_value_from_dict dimm_smbios_provider_form_factor_dict
    dimm_smbios_provider_form_factor_to_int
format_dimm_smbios_provider_form_factor value =
    format_value_from_dict raw_string dimm_smbios_provider_form_factor_to_int
      dimm_smbios_provider_form_factor_dict DimmSmbiosProviderFormFactor.unknown value

pub data DimmSmbiosProviderMemoryDeviceType : Type 0 where
  ddr ddr2 ddr3 ddr4 ddr4_e_sdram lpddr4_sdram lpddr3_sdram ddr2_sdram_fb_dimm
        ddr2_sdram_fb_dimm_probe ddr_sgram rom sdram edo fast_page_mode pipelined_nibble logical hbm
        hbm2 unknown :
      DimmSmbiosProviderMemoryDeviceType

unfoldable pub dimm_smbios_provider_memory_device_type_to_int :
    DimmSmbiosProviderMemoryDeviceType → ℕ
dimm_smbios_provider_memory_device_type_to_int DimmSmbiosProviderMemoryDeviceType.ddr = 0
dimm_smbios_provider_memory_device_type_to_int DimmSmbiosProviderMemoryDeviceType.ddr2 = 1
dimm_smbios_provider_memory_device_type_to_int DimmSmbiosProviderMemoryDeviceType.ddr3 = 2
dimm_smbios_provider_memory_device_type_to_int DimmSmbiosProviderMemoryDeviceType.ddr4 = 3
dimm_smbios_provider_memory_device_type_to_int DimmSmbiosProviderMemoryDeviceType.ddr4_e_sdram = 4
dimm_smbios_provider_memory_device_type_to_int DimmSmbiosProviderMemoryDeviceType.lpddr4_sdram = 5
dimm_smbios_provider_memory_device_type_to_int DimmSmbiosProviderMemoryDeviceType.lpddr3_sdram = 6
dimm_smbios_provider_memory_device_type_to_int
      DimmSmbiosProviderMemoryDeviceType.ddr2_sdram_fb_dimm =
    7
dimm_smbios_provider_memory_device_type_to_int
      DimmSmbiosProviderMemoryDeviceType.ddr2_sdram_fb_dimm_probe =
    8
dimm_smbios_provider_memory_device_type_to_int DimmSmbiosProviderMemoryDeviceType.ddr_sgram = 9
dimm_smbios_provider_memory_device_type_to_int DimmSmbiosProviderMemoryDeviceType.rom = 10
dimm_smbios_provider_memory_device_type_to_int DimmSmbiosProviderMemoryDeviceType.sdram = 11
dimm_smbios_provider_memory_device_type_to_int DimmSmbiosProviderMemoryDeviceType.edo = 12
dimm_smbios_provider_memory_device_type_to_int DimmSmbiosProviderMemoryDeviceType.fast_page_mode =
    13
dimm_smbios_provider_memory_device_type_to_int DimmSmbiosProviderMemoryDeviceType.pipelined_nibble =
    14
dimm_smbios_provider_memory_device_type_to_int DimmSmbiosProviderMemoryDeviceType.logical = 15
dimm_smbios_provider_memory_device_type_to_int DimmSmbiosProviderMemoryDeviceType.hbm = 16
dimm_smbios_provider_memory_device_type_to_int DimmSmbiosProviderMemoryDeviceType.hbm2 = 17
dimm_smbios_provider_memory_device_type_to_int DimmSmbiosProviderMemoryDeviceType.unknown = 18

abbrev dimm_smbios_provider_memory_device_type_name : Text → Text
dimm_smbios_provider_memory_device_type_name val =
    text "xyz.openbmc_project.Inventory.Item.Dimm.DeviceType." ++ val

unfoldable pub dimm_smbios_provider_memory_device_type_dict :
    List (Text × DimmSmbiosProviderMemoryDeviceType)
dimm_smbios_provider_memory_device_type_dict =
    (
      dimm_smbios_provider_memory_device_type_name (text "DDR"),
      DimmSmbiosProviderMemoryDeviceType.ddr,
    )
    ∷ (
      dimm_smbios_provider_memory_device_type_name (text "DDR2"),
      DimmSmbiosProviderMemoryDeviceType.ddr2,
    )
    ∷ (
      dimm_smbios_provider_memory_device_type_name (text "DDR3"),
      DimmSmbiosProviderMemoryDeviceType.ddr3,
    )
    ∷ (
      dimm_smbios_provider_memory_device_type_name (text "DDR4"),
      DimmSmbiosProviderMemoryDeviceType.ddr4,
    )
    ∷ (
      dimm_smbios_provider_memory_device_type_name (text "DDR4E_SDRAM"),
      DimmSmbiosProviderMemoryDeviceType.ddr4_e_sdram,
    )
    ∷ (
      dimm_smbios_provider_memory_device_type_name (text "LPDDR4_SDRAM"),
      DimmSmbiosProviderMemoryDeviceType.lpddr4_sdram,
    )
    ∷ (
      dimm_smbios_provider_memory_device_type_name (text "LPDDR3_SDRAM"),
      DimmSmbiosProviderMemoryDeviceType.lpddr3_sdram,
    )
    ∷ (
      dimm_smbios_provider_memory_device_type_name (text "DDR2_SDRAM_FB_DIMM"),
      DimmSmbiosProviderMemoryDeviceType.ddr2_sdram_fb_dimm,
    )
    ∷ (
      dimm_smbios_provider_memory_device_type_name (text "DDR2_SDRAM_FB_DIMM_PROBE"),
      DimmSmbiosProviderMemoryDeviceType.ddr2_sdram_fb_dimm_probe,
    )
    ∷ (
      dimm_smbios_provider_memory_device_type_name (text "DDR_SGRAM"),
      DimmSmbiosProviderMemoryDeviceType.ddr_sgram,
    )
    ∷ (
      dimm_smbios_provider_memory_device_type_name (text "ROM"),
      DimmSmbiosProviderMemoryDeviceType.rom,
    )
    ∷ (
      dimm_smbios_provider_memory_device_type_name (text "SDRAM"),
      DimmSmbiosProviderMemoryDeviceType.sdram,
    )
    ∷ (
      dimm_smbios_provider_memory_device_type_name (text "EDO"),
      DimmSmbiosProviderMemoryDeviceType.edo,
    )
    ∷ (
      dimm_smbios_provider_memory_device_type_name (text "FastPageMode"),
      DimmSmbiosProviderMemoryDeviceType.fast_page_mode,
    )
    ∷ (
      dimm_smbios_provider_memory_device_type_name (text "PipelinedNibble"),
      DimmSmbiosProviderMemoryDeviceType.pipelined_nibble,
    )
    ∷ (
      dimm_smbios_provider_memory_device_type_name (text "Logical"),
      DimmSmbiosProviderMemoryDeviceType.logical,
    )
    ∷ (
      dimm_smbios_provider_memory_device_type_name (text "HBM"),
      DimmSmbiosProviderMemoryDeviceType.hbm,
    )
    ∷ (
      dimm_smbios_provider_memory_device_type_name (text "HBM2"),
      DimmSmbiosProviderMemoryDeviceType.hbm2,
    )
    ∷ []

unfoldable pub format_dimm_smbios_provider_memory_device_type : FieldType → Option FieldType
unfolding format_value_from_dict dimm_smbios_provider_memory_device_type_dict
    dimm_smbios_provider_memory_device_type_to_int
format_dimm_smbios_provider_memory_device_type value =
    format_value_from_dict raw_string dimm_smbios_provider_memory_device_type_to_int
      dimm_smbios_provider_memory_device_type_dict DimmSmbiosProviderMemoryDeviceType.unknown value
