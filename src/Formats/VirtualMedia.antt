-- ===== src/Formats/VirtualMedia.antt =====
-- How the D-Bus values of src/virtual_media.hpp become enumerators.
use obmc_yadro_webapp.Prelude.{ℕ, Bool, true, false, Option, List, [], ◌∷◌, nat_eq, text_eq}
use obmc_yadro_webapp.Entity.{FieldType}
use obmc_yadro_webapp.Formats.Base.{format_value_from_dict, raw_bool, raw_byte, bool_eq}

pub data InterfaceType : Type 0 where
  usb hdd cdrom : InterfaceType

unfoldable pub interface_type_to_int : InterfaceType → ℕ
interface_type_to_int InterfaceType.usb = 0
interface_type_to_int InterfaceType.hdd = 1
interface_type_to_int InterfaceType.cdrom = 2

unfoldable pub interface_type_dict : List (ℕ × InterfaceType)
interface_type_dict =
    (0, InterfaceType.usb) ∷ (1, InterfaceType.hdd) ∷ (2, InterfaceType.cdrom) ∷ []

unfoldable pub format_interface_type : FieldType → Option FieldType
unfolding format_value_from_dict interface_type_dict interface_type_to_int
format_interface_type value =
    format_value_from_dict raw_byte interface_type_to_int interface_type_dict InterfaceType.usb
      value

pub data VirtualMediaState : Type 0 where
  enabled disabled standby_offline : VirtualMediaState

unfoldable pub virtual_media_state_to_int : VirtualMediaState → ℕ
virtual_media_state_to_int VirtualMediaState.enabled = 0
virtual_media_state_to_int VirtualMediaState.disabled = 1
virtual_media_state_to_int VirtualMediaState.standby_offline = 2

unfoldable pub virtual_media_state_dict : List (Bool × VirtualMediaState)
virtual_media_state_dict =
    (false, VirtualMediaState.standby_offline) ∷ (true, VirtualMediaState.enabled) ∷ []

unfoldable pub format_virtual_media_state : FieldType → Option FieldType
unfolding format_value_from_dict virtual_media_state_dict virtual_media_state_to_int
format_virtual_media_state value =
    format_value_from_dict raw_bool virtual_media_state_to_int virtual_media_state_dict
      VirtualMediaState.disabled value
