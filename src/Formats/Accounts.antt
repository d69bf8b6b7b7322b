-- ===== src/Formats/Accounts.antt =====
-- How the D-Bus values of src/accounts.hpp become enumerators.
use obmc_yadro_webapp.Prelude.{ℕ, Option, List, [], ◌∷◌, ◌++◌, nat_eq, text_eq}
use obmc_yadro_webapp.Prelude.Text.{Text, text}
use obmc_yadro_webapp.Entity.{FieldType}
use obmc_yadro_webapp.Formats.Base.{format_value_from_dict, raw_string, bool_eq}

pub data DomainAccountsType : Type 0 where
  active_directory open_ldap unknown : DomainAccountsType

unfoldable pub domain_accounts_type_to_int : DomainAccountsType → ℕ
domain_accounts_type_to_int DomainAccountsType.active_directory = 0
domain_accounts_type_to_int DomainAccountsType.open_ldap = 1
domain_accounts_type_to_int DomainAccountsType.unknown = 2

abbrev domain_accounts_type_name : Text → Text
domain_accounts_type_name val = text "xyz.openbmc_project.User.Ldap.Config.Type." ++ val

unfoldable pub domain_accounts_type_dict : List (Text × DomainAccountsType)
domain_accounts_type_dict =
    (domain_accounts_type_name (text "OpenLdap"), DomainAccountsType.open_ldap)
    ∷ (domain_accounts_type_name (text "ActiveDirectory"), DomainAccountsType.active_directory)
    ∷ []

unfoldable pub format_domain_accounts_type : FieldType → Option FieldType
unfolding format_value_from_dict domain_accounts_type_dict domain_accounts_type_to_int
format_domain_accounts_type value =
    format_value_from_dict raw_string domain_accounts_type_to_int domain_accounts_type_dict
      DomainAccountsType.unknown value
