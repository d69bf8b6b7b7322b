-- ===== src/Formats/Manager.antt =====
-- How the D-Bus values of src/manager.hpp become enumerators.
use obmc_yadro_webapp.Prelude.{ℕ, Option, List, [], ◌∷◌, ◌++◌, nat_eq, text_eq}
use obmc_yadro_webapp.Prelude.Text.{Text, text}
use obmc_yadro_webapp.Entity.{FieldType}
use obmc_yadro_webapp.Formats.Base.{format_value_from_dict, raw_string, bool_eq}

pub data BmcManagerTransition : Type 0 where
  reboot none : BmcManagerTransition

unfoldable pub bmc_manager_transition_to_int : BmcManagerTransition → ℕ
bmc_manager_transition_to_int BmcManagerTransition.reboot = 0
bmc_manager_transition_to_int BmcManagerTransition.none = 1

abbrev bmc_manager_transition_name : Text → Text
bmc_manager_transition_name val = text "xyz.openbmc_project.State.BMC.Transition." ++ val

unfoldable pub bmc_manager_transition_dict : List (Text × BmcManagerTransition)
bmc_manager_transition_dict =
    (bmc_manager_transition_name (text "Ready"), BmcManagerTransition.reboot)
    ∷ (bmc_manager_transition_name (text "NotReady"), BmcManagerTransition.none)
    ∷ []

unfoldable pub format_bmc_manager_transition : FieldType → Option FieldType
unfolding format_value_from_dict bmc_manager_transition_dict bmc_manager_transition_to_int
format_bmc_manager_transition value =
    format_value_from_dict raw_string bmc_manager_transition_to_int bmc_manager_transition_dict
      BmcManagerTransition.none value

pub data BmcManagerBmcState : Type 0 where
  ready not_ready update_in_progress : BmcManagerBmcState

unfoldable pub bmc_manager_bmc_state_to_int : BmcManagerBmcState → ℕ
bmc_manager_bmc_state_to_int BmcManagerBmcState.ready = 0
bmc_manager_bmc_state_to_int BmcManagerBmcState.not_ready = 1
bmc_manager_bmc_state_to_int BmcManagerBmcState.update_in_progress = 2

abbrev bmc_manager_bmc_state_name : Text → Text
bmc_manager_bmc_state_name val = text "xyz.openbmc_project.State.BMC.BMCState." ++ val

unfoldable pub bmc_manager_bmc_state_dict : List (Text × BmcManagerBmcState)
bmc_manager_bmc_state_dict =
    (bmc_manager_bmc_state_name (text "Ready"), BmcManagerBmcState.ready)
    ∷ (bmc_manager_bmc_state_name (text "NotReady"), BmcManagerBmcState.not_ready)
    ∷ (bmc_manager_bmc_state_name (text "UpdateInProgress"), BmcManagerBmcState.update_in_progress)
    ∷ []

unfoldable pub format_bmc_manager_bmc_state : FieldType → Option FieldType
unfolding format_value_from_dict bmc_manager_bmc_state_dict bmc_manager_bmc_state_to_int
format_bmc_manager_bmc_state value =
    format_value_from_dict raw_string bmc_manager_bmc_state_to_int bmc_manager_bmc_state_dict
      BmcManagerBmcState.not_ready value
