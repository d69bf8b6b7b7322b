-- ===== src/Redfish/Messages/Resources.antt =====
-- The messages of the registry Base.1.8.1 as JSON, of resources and the service
-- (src/core/route/redfish/error_messages.cpp).
use obmc_yadro_webapp.Prelude.{[], ◌∷◌, ◌++◌}
use obmc_yadro_webapp.Prelude.Text.{Text, text}
use obmc_yadro_webapp.Json.{Json}
use obmc_yadro_webapp.Redfish.Messages.Base.{message_json}

unfoldable pub resource_already_exists_message : Text → Text → Text → Json
unfolding message_json
resource_already_exists_message arg1 arg2 arg3 =
    message_json (text "ResourceAlreadyExists")
      (text "The requested resource of type "
        ++ arg1
        ++ text " with the property "
        ++ arg2
        ++ text " with the value "
        ++ arg3
        ++ text " already exists.")
      (arg1 ∷ arg2 ∷ arg3 ∷ []) (text "Critical")
      (text "Do not repeat the create operation as the resource has already "
        ++ text "been created.")

unfoldable pub account_for_session_no_longer_exists_message : Json
unfolding message_json
account_for_session_no_longer_exists_message =
    message_json (text "AccountForSessionNoLongerExists")
      (text "The account for the current session has been removed, thus the "
        ++ text "current session has been removed as well.")
      ([]) (text "OK") (text "Attempt to connect with a valid account.")

unfoldable pub create_failed_missing_req_properties_message : Text → Json
unfolding message_json
create_failed_missing_req_properties_message arg1 =
    message_json (text "CreateFailedMissingReqProperties")
      (text "The create operation failed because the required property "
        ++ arg1
        ++ text " was missing from the request.")
      (arg1 ∷ []) (text "Critical")
      (text "Correct the body to include the required property with a valid "
        ++ text "value and resubmit the request if the operation failed.")

unfoldable pub property_value_format_error_message : Text → Text → Json
unfolding message_json
property_value_format_error_message arg1 arg2 =
    message_json (text "PropertyValueFormatError")
      (text "The value "
        ++ arg1
        ++ text " for the property "
        ++ arg2
        ++ text " is of a different format than the property can accept.")
      (arg1 ∷ arg2 ∷ []) (text "Warning")
      (text "Correct the value for the property in the request body and "
        ++ text "resubmit the request if the operation failed.")

unfoldable pub property_value_not_in_list_message : Text → Text → Json
unfolding message_json
property_value_not_in_list_message arg1 arg2 =
    message_json (text "PropertyValueNotInList")
      (text "The value "
        ++ arg1
        ++ text " for the property "
        ++ arg2
        ++ text " is not in the list of acceptable values.")
      (arg1 ∷ arg2 ∷ []) (text "Warning")
      (text "Choose a value from the enumeration list that the implementation "
        ++ text "can support and resubmit the request if the operation failed.")

unfoldable pub resource_at_uri_in_unknown_format_message : Text → Json
unfolding message_json
resource_at_uri_in_unknown_format_message arg1 =
    message_json (text "ResourceAtUriInUnknownFormat")
      (text "The resource at " ++ arg1 ++ text " is in a format not recognized by the service.")
      (arg1 ∷ []) (text "Critical")
      (text "Place an image or resource or file that is recognized by the "
        ++ text "service at the URI.")

unfoldable pub service_in_unknown_state_message : Json
unfolding message_json
service_in_unknown_state_message =
    message_json (text "ServiceInUnknownState")
      (text "The operation failed because the service is in an unknown state "
        ++ text "and can no longer take incoming requests.")
      ([]) (text "Critical")
      (text "Restart the service and resubmit the request if the operation " ++ text "failed.")

unfoldable pub event_subscription_limit_exceeded_message : Json
unfolding message_json
event_subscription_limit_exceeded_message =
    message_json (text "EventSubscriptionLimitExceeded")
      (text "The event subscription failed due to the number of simultaneous "
        ++ text "subscriptions exceeding the limit of the implementation.")
      ([]) (text "Critical")
      (text "Reduce the number of other subscriptions before trying to "
        ++ text "establish the event subscription or increase the limit of "
        ++ text "simultaneous subscriptions (if supported).")

unfoldable pub resource_not_found_message : Text → Text → Json
unfolding message_json
resource_not_found_message arg1 arg2 =
    message_json (text "ResourceNotFound")
      (text "The requested resource of type "
        ++ arg1
        ++ text " named "
        ++ arg2
        ++ text " was not found.")
      (arg1 ∷ arg2 ∷ []) (text "Critical")
      (text "Provide a valid resource identifier and resubmit the request.")

unfoldable pub uri_not_found_message : Text → Json
unfolding message_json
uri_not_found_message arg1 =
    message_json (text "ResourceNotFound")
      (text "The requested resource on the URL " ++ arg1 ++ text " was not found.") (arg1 ∷ [])
      (text "Critical") (text "Provide a valid resource URI and resubmit the request.")
