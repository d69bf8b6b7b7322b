-- ===== src/Formats/Drive.antt =====
-- How the D-Bus values of src/drive.hpp become enumerators.
use obmc_yadro_webapp.Prelude.{ℕ, Option, List, [], ◌∷◌, ◌++◌, nat_eq, text_eq}
use obmc_yadro_webapp.Prelude.Text.{Text, text}
use obmc_yadro_webapp.Entity.{FieldType}
use obmc_yadro_webapp.Formats.Base.{format_value_from_dict, raw_string, bool_eq}

pub data DriveProtocol : Type 0 where
  sas sata nvme fc unknown : DriveProtocol

unfoldable pub drive_protocol_to_int : DriveProtocol → ℕ
drive_protocol_to_int DriveProtocol.sas = 0
drive_protocol_to_int DriveProtocol.sata = 1
drive_protocol_to_int DriveProtocol.nvme = 2
drive_protocol_to_int DriveProtocol.fc = 3
drive_protocol_to_int DriveProtocol.unknown = 4

abbrev drive_protocol_name : Text → Text
drive_protocol_name val = text "xyz.openbmc_project.Inventory.Item.Drive.DriveProtocol." ++ val

unfoldable pub drive_protocol_dict : List (Text × DriveProtocol)
drive_protocol_dict =
    (drive_protocol_name (text "SAS"), DriveProtocol.sas)
    ∷ (drive_protocol_name (text "SATA"), DriveProtocol.sata)
    ∷ (drive_protocol_name (text "NVMe"), DriveProtocol.nvme)
    ∷ (drive_protocol_name (text "FC"), DriveProtocol.fc)
    ∷ []

unfoldable pub format_drive_protocol : FieldType → Option FieldType
unfolding format_value_from_dict drive_protocol_dict drive_protocol_to_int
format_drive_protocol value =
    format_value_from_dict raw_string drive_protocol_to_int drive_protocol_dict
      DriveProtocol.unknown value

pub data DriveMediaType : Type 0 where
  hdd ssd unknown : DriveMediaType

unfoldable pub drive_media_type_to_int : DriveMediaType → ℕ
drive_media_type_to_int DriveMediaType.hdd = 0
drive_media_type_to_int DriveMediaType.ssd = 1
drive_media_type_to_int DriveMediaType.unknown = 2

abbrev drive_media_type_name : Text → Text
drive_media_type_name val = text "xyz.openbmc_project.Inventory.Item.Drive.DriveType." ++ val

unfoldable pub drive_media_type_dict : List (Text × DriveMediaType)
drive_media_type_dict =
    (drive_media_type_name (text "HDD"), DriveMediaType.hdd)
    ∷ (drive_media_type_name (text "SSD"), DriveMediaType.ssd)
    ∷ []

unfoldable pub format_drive_media_type : FieldType → Option FieldType
unfolding format_value_from_dict drive_media_type_dict drive_media_type_to_int
format_drive_media_type value =
    format_value_from_dict raw_string drive_media_type_to_int drive_media_type_dict
      DriveMediaType.unknown value
