-- ===== src/Formats/Tests.antt =====
-- The theorem on the computed fields of a PCIe device, at one with a network controller; and what some
-- formatters make of values.
use obmc_yadro_webapp.Prelude.{
  ◌≡◌, ◌∷◌, [], All, Option, some, none, ◌==◌, nat_eq, text_eq, if◌then◌else◌, ℕ,
}
use obmc_yadro_webapp.Prelude.Text.{Text, text}
use obmc_yadro_webapp.Prelude.{refl, text_beq}
use obmc_yadro_webapp.Prelude.Int.{pos}
use obmc_yadro_webapp.Entity.{Instance, string, int32, uint8}
use obmc_yadro_webapp.Formats.Base.{raw_string}
use obmc_yadro_webapp.Formats.PidControl.{format_pid_profile_profile}
use obmc_yadro_webapp.Formats.Pcie.Functions.{function_indexes, supplement_by_static_fields}
use obmc_yadro_webapp.Formats.Pcie.Follow.{ShowsClass}
use obmc_yadro_webapp.Formats.Pcie.Classes.{supplement_by_static_fields_lem}

-- Reads one class code.
abbrev stoul : Text → Option ℕ
stoul s = if s == text "0x020000" then some 0x020000 else none

abbrev device_path : Text
device_path = text "/xyz/openbmc_project/PCIe/S0B3D0"

abbrev device : Instance
device = record {
  hash = 5;
  member_instances =
      (text "Function0ClassCode", some (string (text "0x020000")))
      ∷ (text "Function0DeviceClass", some (string (text "Ethernet controller")))
      ∷ [];
}

supplement_by_static_fields_lem_example :
    (next : Instance) × (supplement_by_static_fields stoul device_path device ≡ some next)
    × All (ShowsClass stoul device next) function_indexes
supplement_by_static_fields_lem_example = supplement_by_static_fields_lem stoul device_path device

-- The name of a profile, a name without an entry, and a value of another type.
performance : format_pid_profile_profile (string (text "Performance")) ≡ some (int32 (pos 1))
unfolding format_pid_profile_profile raw_string text_beq
performance = refl

unknown_profile : format_pid_profile_profile (string (text "Silent")) ≡ some (int32 (pos 0))
unfolding format_pid_profile_profile raw_string text_beq
unknown_profile = refl

no_profile : format_pid_profile_profile (uint8 1) ≡ none
unfolding format_pid_profile_profile raw_string
no_profile = refl
