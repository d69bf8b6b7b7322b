-- ===== src/Formats/Certificates.antt =====
-- How the D-Bus values of src/certificates.hpp become enumerators.
use obmc_yadro_webapp.Prelude.{ℕ, Option, List, [], ◌∷◌, nat_eq, text_eq}
use obmc_yadro_webapp.Prelude.Text.{Text, text}
use obmc_yadro_webapp.Entity.{FieldType}
use obmc_yadro_webapp.Formats.Base.{format_value_from_dict, raw_string, bool_eq}

pub data KeyUsage : Type 0 where
  digital_signature non_repudiation key_encipherment data_encipherment key_agreement key_cert_sign
        crl_signing encipher_only decipher_only server_authentication client_authentication
        code_signing email_protection timestamping ocsp_signing :
      KeyUsage

unfoldable pub key_usage_to_int : KeyUsage → ℕ
key_usage_to_int KeyUsage.digital_signature = 0
key_usage_to_int KeyUsage.non_repudiation = 1
key_usage_to_int KeyUsage.key_encipherment = 2
key_usage_to_int KeyUsage.data_encipherment = 3
key_usage_to_int KeyUsage.key_agreement = 4
key_usage_to_int KeyUsage.key_cert_sign = 5
key_usage_to_int KeyUsage.crl_signing = 6
key_usage_to_int KeyUsage.encipher_only = 7
key_usage_to_int KeyUsage.decipher_only = 8
key_usage_to_int KeyUsage.server_authentication = 9
key_usage_to_int KeyUsage.client_authentication = 10
key_usage_to_int KeyUsage.code_signing = 11
key_usage_to_int KeyUsage.email_protection = 12
key_usage_to_int KeyUsage.timestamping = 13
key_usage_to_int KeyUsage.ocsp_signing = 14

unfoldable pub key_usage_dict : List (Text × KeyUsage)
key_usage_dict =
    (text "DigitalSignature", KeyUsage.digital_signature)
    ∷ (text "NonRepudiation", KeyUsage.non_repudiation)
    ∷ (text "KeyEncipherment", KeyUsage.key_encipherment)
    ∷ (text "DataEncipherment", KeyUsage.data_encipherment)
    ∷ (text "KeyAgreement", KeyUsage.key_agreement)
    ∷ (text "KeyCertSign", KeyUsage.key_cert_sign)
    ∷ (text "CRLSigning", KeyUsage.crl_signing)
    ∷ (text "EncipherOnly", KeyUsage.encipher_only)
    ∷ (text "DecipherOnly", KeyUsage.decipher_only)
    ∷ (text "ServerAuthentication", KeyUsage.server_authentication)
    ∷ (text "ClientAuthentication", KeyUsage.client_authentication)
    ∷ (text "CodeSigning", KeyUsage.code_signing)
    ∷ (text "EmailProtection", KeyUsage.email_protection)
    ∷ (text "Timestamping", KeyUsage.timestamping)
    ∷ (text "CSPSigning", KeyUsage.ocsp_signing)
    ∷ []

unfoldable pub format_key_usage : FieldType → Option FieldType
unfolding format_value_from_dict key_usage_dict key_usage_to_int
format_key_usage value =
    format_value_from_dict raw_string key_usage_to_int key_usage_dict KeyUsage.client_authentication
      value
