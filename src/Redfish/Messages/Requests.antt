-- ===== src/Redfish/Messages/Requests.antt =====
-- The messages of the registry Base.1.8.1 as JSON, of requests and properties
-- (src/core/route/redfish/error_messages.cpp).
use obmc_yadro_webapp.Prelude.{[], ◌∷◌, ◌++◌}
use obmc_yadro_webapp.Prelude.Text.{Text, text}
use obmc_yadro_webapp.Json.{Json}
use obmc_yadro_webapp.Redfish.Messages.Base.{message_json}

unfoldable pub resource_in_use_message : Json
unfolding message_json
resource_in_use_message =
    message_json (text "ResourceInUse")
      (text "The change to the requested resource failed because the resource "
        ++ text "is in use or in transition.")
      ([]) (text "Warning")
      (text "Remove the condition and resubmit the request if the operation " ++ text "failed.")

unfoldable pub malformed_json_message : Json
unfolding message_json
malformed_json_message =
    message_json (text "MalformedJSON")
      (text "The request body submitted was malformed JSON and could not be "
        ++ text "parsed by the receiving service.")
      ([]) (text "Critical")
      (text "Ensure that the request body is valid JSON and resubmit the " ++ text "request.")

unfoldable pub resource_missing_at_uri_message : Text → Json
unfolding message_json
resource_missing_at_uri_message arg1 =
    message_json (text "ResourceMissingAtURI")
      (text "The resource at the URI " ++ arg1 ++ text " was not found.") (arg1 ∷ [])
      (text "Critical")
      (text "Place a valid resource at the URI or correct the URI and resubmit "
        ++ text "the request.")

unfoldable pub action_parameter_value_format_error_message : Text → Text → Text → Json
unfolding message_json
action_parameter_value_format_error_message arg1 arg2 arg3 =
    message_json (text "ActionParameterValueFormatError")
      (text "The value "
        ++ arg1
        ++ text " for the parameter "
        ++ arg2
        ++ text " in the action "
        ++ arg3
        ++ text " is of a different format than the parameter can accept.")
      (arg1 ∷ arg2 ∷ arg3 ∷ []) (text "Warning")
      (text "Correct the value for the parameter in the request body and "
        ++ text "resubmit the request if the operation failed.")

unfoldable pub method_not_allowed_message : Text → Json
unfolding message_json
method_not_allowed_message resource =
    message_json (text "MethodNotAllowed")
      (text "The requested method is not allowed for the resource '" ++ resource ++ text "'") ([])
      (text "Critical")
      (text "Resubmit the request.  If the problem persists, consider "
        ++ text "resetting the service.")

unfoldable pub internal_error_message : Json
unfolding message_json
internal_error_message =
    message_json (text "InternalError")
      (text "The request failed due to an internal service error.  The service "
        ++ text "is still operational.")
      ([]) (text "Critical")
      (text "Resubmit the request.  If the problem persists, consider "
        ++ text "resetting the service.")

unfoldable pub unrecognized_request_body_message : Json
unfolding message_json
unrecognized_request_body_message =
    message_json (text "UnrecognizedRequestBody")
      (text "The service detected a malformed request body that it was unable "
        ++ text "to interpret.")
      ([]) (text "Warning") (text "Correct the request body and resubmit the request if it failed.")

unfoldable pub resource_at_uri_unauthorized_message : Text → Text → Json
unfolding message_json
resource_at_uri_unauthorized_message arg1 arg2 =
    message_json (text "ResourceAtUriUnauthorized")
      (text "While accessing the resource at "
        ++ arg1
        ++ text ", the service received an authorization error "
        ++ arg2
        ++ text ".")
      (arg1 ∷ arg2 ∷ []) (text "Critical")
      (text "Ensure that the appropriate access is provided for the service in "
        ++ text "order for it to access the URI.")

unfoldable pub action_parameter_unknown_message : Text → Text → Json
unfolding message_json
action_parameter_unknown_message arg1 arg2 =
    message_json (text "ActionParameterUnknown")
      (text "The action "
        ++ arg1
        ++ text " was submitted with the invalid parameter "
        ++ arg2
        ++ text ".")
      (arg1 ∷ arg2 ∷ []) (text "Warning")
      (text "Correct the invalid parameter and resubmit the request if the "
        ++ text "operation failed.")

unfoldable pub resource_cannot_be_deleted_message : Json
unfolding message_json
resource_cannot_be_deleted_message =
    message_json (text "ResourceCannotBeDeleted")
      (text "The delete request failed because the resource requested cannot "
        ++ text "be deleted.")
      ([]) (text "Critical") (text "Do not attempt to delete a non-deletable resource.")

unfoldable pub property_duplicate_message : Text → Json
unfolding message_json
property_duplicate_message arg1 =
    message_json (text "PropertyDuplicate")
      (text "The property " ++ arg1 ++ text " was duplicated in the request.") (arg1 ∷ [])
      (text "Warning")
      (text "Remove the duplicate property from the request body and resubmit "
        ++ text "the request if the operation failed.")

unfoldable pub service_temporarily_unavailable_message : Text → Json
unfolding message_json
service_temporarily_unavailable_message arg1 =
    message_json (text "ServiceTemporarilyUnavailable")
      (text "The service is temporarily unavailable.  Retry in " ++ arg1 ++ text " seconds.")
      (arg1 ∷ []) (text "Critical")
      (text "Wait for the indicated retry duration and retry the operation.")
