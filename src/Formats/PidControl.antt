-- ===== src/Formats/PidControl.antt =====
-- How the D-Bus values of src/pid_control.hpp become enumerators.
use obmc_yadro_webapp.Prelude.{ℕ, Option, List, [], ◌∷◌, nat_eq, text_eq}
use obmc_yadro_webapp.Prelude.Text.{Text, text}
use obmc_yadro_webapp.Entity.{FieldType}
use obmc_yadro_webapp.Formats.Base.{format_value_from_dict, raw_string, bool_eq}

pub data PidProfileProfile : Type 0 where
  acoustic performance : PidProfileProfile

unfoldable pub pid_profile_profile_to_int : PidProfileProfile → ℕ
pid_profile_profile_to_int PidProfileProfile.acoustic = 0
pid_profile_profile_to_int PidProfileProfile.performance = 1

unfoldable pub pid_profile_profile_dict : List (Text × PidProfileProfile)
pid_profile_profile_dict =
    (text "Acoustic", PidProfileProfile.acoustic)
    ∷ (text "Performance", PidProfileProfile.performance)
    ∷ []

unfoldable pub format_pid_profile_profile : FieldType → Option FieldType
unfolding format_value_from_dict pid_profile_profile_dict pid_profile_profile_to_int
format_pid_profile_profile value =
    format_value_from_dict raw_string pid_profile_profile_to_int pid_profile_profile_dict
      PidProfileProfile.acoustic value
