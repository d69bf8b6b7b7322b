-- ===== src/Redfish/Messages.antt =====
-- The errors that a handler can report: a status, and a message in the payload
-- (src/core/route/redfish/error_messages.cpp).
pub mod Base
pub mod Requests
pub mod Resources
pub mod Reported
use obmc_yadro_webapp.Prelude.Text.{Text, text}
use obmc_yadro_webapp.Http.{Code}
use obmc_yadro_webapp.Request.{get_uri_path}
use obmc_yadro_webapp.Redfish.Context.{
  RedfishContext, response_set_status, response_set_header, response_add_error,
  response_property_error,
}
use obmc_yadro_webapp.Redfish.Messages.Requests.{
  resource_in_use_message, malformed_json_message, resource_missing_at_uri_message,
  action_parameter_value_format_error_message, method_not_allowed_message, internal_error_message,
  unrecognized_request_body_message, resource_at_uri_unauthorized_message,
  action_parameter_unknown_message, resource_cannot_be_deleted_message, property_duplicate_message,
  service_temporarily_unavailable_message,
}
use obmc_yadro_webapp.Redfish.Messages.Resources.{
  resource_already_exists_message, account_for_session_no_longer_exists_message,
  create_failed_missing_req_properties_message, property_value_format_error_message,
  property_value_not_in_list_message, resource_at_uri_in_unknown_format_message,
  service_in_unknown_state_message, event_subscription_limit_exceeded_message,
  resource_not_found_message, uri_not_found_message,
}

unfoldable pub resource_in_use : RedfishContext → RedfishContext
unfolding response_set_status response_add_error response_property_error
resource_in_use ctx =
    response_add_error resource_in_use_message (response_set_status Code.service_unavailable ctx)

unfoldable pub malformed_json : RedfishContext → RedfishContext
unfolding response_set_status response_add_error response_property_error
malformed_json ctx =
    response_add_error malformed_json_message (response_set_status Code.bad_request ctx)

unfoldable pub resource_missing_at_uri : Text → RedfishContext → RedfishContext
unfolding response_set_status response_add_error response_property_error
resource_missing_at_uri arg1 ctx =
    response_add_error (resource_missing_at_uri_message arg1)
      (response_set_status Code.bad_request ctx)

unfoldable pub action_parameter_value_format_error :
    Text → Text → Text → RedfishContext → RedfishContext
unfolding response_set_status response_add_error response_property_error
action_parameter_value_format_error arg1 arg2 arg3 ctx =
    response_add_error (action_parameter_value_format_error_message arg1 arg2 arg3)
      (response_set_status Code.bad_request ctx)

unfoldable pub method_not_allowed : RedfishContext → RedfishContext
unfolding response_set_status response_add_error response_property_error
method_not_allowed ctx =
    response_add_error (method_not_allowed_message (get_uri_path ctx.request))
      (response_set_status Code.method_not_allowed ctx)

unfoldable pub internal_error : RedfishContext → RedfishContext
unfolding response_set_status response_add_error response_property_error
internal_error ctx =
    response_add_error internal_error_message (response_set_status Code.internal_server_error ctx)

unfoldable pub internal_error_of : Text → RedfishContext → RedfishContext
unfolding response_set_status response_add_error response_property_error
internal_error_of property ctx =
    response_property_error property internal_error_message
      (response_set_status Code.internal_server_error ctx)

unfoldable pub unrecognized_request_body : RedfishContext → RedfishContext
unfolding response_set_status response_add_error response_property_error
unrecognized_request_body ctx =
    response_add_error unrecognized_request_body_message (response_set_status Code.bad_request ctx)

unfoldable pub resource_at_uri_unauthorized : Text → Text → RedfishContext → RedfishContext
unfolding response_set_status response_add_error response_property_error
resource_at_uri_unauthorized arg1 arg2 ctx =
    response_add_error (resource_at_uri_unauthorized_message arg1 arg2)
      (response_set_status Code.unauthorized ctx)

unfoldable pub action_parameter_unknown : Text → Text → RedfishContext → RedfishContext
unfolding response_set_status response_add_error response_property_error
action_parameter_unknown arg1 arg2 ctx =
    response_add_error (action_parameter_unknown_message arg1 arg2)
      (response_set_status Code.bad_request ctx)

unfoldable pub resource_cannot_be_deleted : RedfishContext → RedfishContext
unfolding response_set_status response_add_error response_property_error
resource_cannot_be_deleted ctx =
    response_add_error resource_cannot_be_deleted_message (response_set_status Code.forbidden ctx)

unfoldable pub property_duplicate : Text → RedfishContext → RedfishContext
unfolding response_set_status response_add_error response_property_error
property_duplicate arg1 ctx =
    response_property_error arg1 (property_duplicate_message arg1)
      (response_set_status Code.bad_request ctx)

unfoldable pub service_temporarily_unavailable : Text → RedfishContext → RedfishContext
unfolding response_set_status response_add_error response_property_error
service_temporarily_unavailable arg1 ctx =
    response_add_error (service_temporarily_unavailable_message arg1) (
      response_set_status Code.service_unavailable
        (response_set_header (text "Retry-After") arg1 ctx))

unfoldable pub resource_already_exists : Text → Text → Text → RedfishContext → RedfishContext
unfolding response_set_status response_add_error response_property_error
resource_already_exists type property value ctx =
    response_property_error property (resource_already_exists_message type property value)
      (response_set_status Code.bad_request ctx)

unfoldable pub account_for_session_no_longer_exists : RedfishContext → RedfishContext
unfolding response_set_status response_add_error response_property_error
account_for_session_no_longer_exists ctx =
    response_add_error account_for_session_no_longer_exists_message
      (response_set_status Code.forbidden ctx)

unfoldable pub create_failed_missing_req_properties : Text → RedfishContext → RedfishContext
unfolding response_set_status response_add_error response_property_error
create_failed_missing_req_properties property ctx =
    response_property_error property (create_failed_missing_req_properties_message property)
      (response_set_status Code.bad_request ctx)

unfoldable pub property_value_format_error : Text → Text → RedfishContext → RedfishContext
unfolding response_set_status response_add_error response_property_error
property_value_format_error value property ctx =
    response_property_error property (property_value_format_error_message value property)
      (response_set_status Code.bad_request ctx)

unfoldable pub property_value_not_in_list : Text → Text → RedfishContext → RedfishContext
unfolding response_set_status response_add_error response_property_error
property_value_not_in_list value property ctx =
    response_property_error property (property_value_format_error_message value property)
      (response_set_status Code.bad_request ctx)

unfoldable pub resource_at_uri_in_unknown_format : Text → RedfishContext → RedfishContext
unfolding response_set_status response_add_error response_property_error
resource_at_uri_in_unknown_format uri ctx =
    response_add_error (resource_at_uri_in_unknown_format_message uri)
      (response_set_status Code.bad_request ctx)

unfoldable pub service_in_unknown_state : RedfishContext → RedfishContext
unfolding response_set_status response_add_error response_property_error
service_in_unknown_state ctx =
    response_add_error service_in_unknown_state_message
      (response_set_status Code.service_unavailable ctx)

unfoldable pub event_subscription_limit_exceeded : RedfishContext → RedfishContext
unfolding response_set_status response_add_error response_property_error
event_subscription_limit_exceeded ctx =
    response_add_error event_subscription_limit_exceeded_message
      (response_set_status Code.service_unavailable ctx)

unfoldable pub resource_not_found : Text → Text → RedfishContext → RedfishContext
unfolding response_set_status response_add_error response_property_error
resource_not_found arg1 arg2 ctx =
    response_add_error (resource_not_found_message arg1 arg2)
      (response_set_status Code.not_found ctx)

unfoldable pub uri_not_found : RedfishContext → RedfishContext
unfolding response_set_status response_add_error response_property_error
uri_not_found ctx =
    response_add_error (uri_not_found_message (get_uri_path ctx.request))
      (response_set_status Code.not_found ctx)
