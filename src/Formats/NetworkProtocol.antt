-- ===== src/Formats/NetworkProtocol.antt =====
-- How the D-Bus values of src/network_protocol.hpp become enumerators.
use obmc_yadro_webapp.Prelude.{ℕ, Option, List, [], ◌∷◌, ◌++◌, nat_eq, text_eq}
use obmc_yadro_webapp.Prelude.Text.{Text, text}
use obmc_yadro_webapp.Entity.{FieldType}
use obmc_yadro_webapp.Formats.Base.{format_value_from_dict, raw_string, bool_eq}

pub data NtpProtocolTimeSyncMethod : Type 0 where
  ntp manual : NtpProtocolTimeSyncMethod

unfoldable pub ntp_protocol_time_sync_method_to_int : NtpProtocolTimeSyncMethod → ℕ
ntp_protocol_time_sync_method_to_int NtpProtocolTimeSyncMethod.ntp = 0
ntp_protocol_time_sync_method_to_int NtpProtocolTimeSyncMethod.manual = 1

abbrev ntp_protocol_time_sync_method_name : Text → Text
ntp_protocol_time_sync_method_name val =
    text "xyz.openbmc_project.Time.Synchronization.Method." ++ val

unfoldable pub ntp_protocol_time_sync_method_dict : List (Text × NtpProtocolTimeSyncMethod)
ntp_protocol_time_sync_method_dict =
    (ntp_protocol_time_sync_method_name (text "NTP"), NtpProtocolTimeSyncMethod.ntp)
    ∷ (ntp_protocol_time_sync_method_name (text "Manual"), NtpProtocolTimeSyncMethod.manual)
    ∷ []

unfoldable pub format_ntp_protocol_time_sync_method : FieldType → Option FieldType
unfolding format_value_from_dict ntp_protocol_time_sync_method_dict
    ntp_protocol_time_sync_method_to_int
format_ntp_protocol_time_sync_method value =
    format_value_from_dict raw_string ntp_protocol_time_sync_method_to_int
      ntp_protocol_time_sync_method_dict NtpProtocolTimeSyncMethod.manual value
