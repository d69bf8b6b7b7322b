-- ===== src/Formats/SessionManager.antt =====
-- How the D-Bus values of src/session_manager.hpp become enumerators.
use obmc_yadro_webapp.Prelude.{ℕ, Option, List, [], ◌∷◌, ◌++◌, nat_eq, text_eq}
use obmc_yadro_webapp.Prelude.Text.{Text, text}
use obmc_yadro_webapp.Entity.{FieldType}
use obmc_yadro_webapp.Formats.Base.{format_value_from_dict, raw_string, bool_eq}

pub data SessionType : Type 0 where
  host_console ipmi kvmip manager_console redfish virtual_media webui nbd unknown : SessionType

unfoldable pub session_type_to_int : SessionType → ℕ
session_type_to_int SessionType.host_console = 0
session_type_to_int SessionType.ipmi = 1
session_type_to_int SessionType.kvmip = 2
session_type_to_int SessionType.manager_console = 3
session_type_to_int SessionType.redfish = 4
session_type_to_int SessionType.virtual_media = 5
session_type_to_int SessionType.webui = 6
session_type_to_int SessionType.nbd = 7
session_type_to_int SessionType.unknown = 8

abbrev session_type_name : Text → Text
session_type_name val = text "xyz.openbmc_project.Session.Item.Type." ++ val

unfoldable pub session_type_dict : List (Text × SessionType)
session_type_dict =
    (session_type_name (text "HostConsole"), SessionType.host_console)
    ∷ (session_type_name (text "IPMI"), SessionType.ipmi)
    ∷ (session_type_name (text "KVMIP"), SessionType.kvmip)
    ∷ (session_type_name (text "ManagerConsole"), SessionType.manager_console)
    ∷ (session_type_name (text "Redfish"), SessionType.redfish)
    ∷ (session_type_name (text "VirtualMedia"), SessionType.virtual_media)
    ∷ (session_type_name (text "WebUI"), SessionType.webui)
    ∷ (session_type_name (text "NBD"), SessionType.nbd)
    ∷ []

unfoldable pub format_session_type : FieldType → Option FieldType
unfolding format_value_from_dict session_type_dict session_type_to_int
format_session_type value =
    format_value_from_dict raw_string session_type_to_int session_type_dict SessionType.unknown
      value
