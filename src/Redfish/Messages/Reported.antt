-- ===== src/Redfish/Messages/Reported.antt =====
-- What the reports of errors leave in an answer (src/core/route/redfish/error_messages.cpp).
use obmc_yadro_webapp.Prelude.{
  ◌≡◌, ◌∙◌, refl, true, none, some, [], ◌++◌, text_eq, text_beq, beq_refl, nat_eq,
}
use obmc_yadro_webapp.Prelude.Text.{Text, text}
use obmc_yadro_webapp.Json.{Json, Fields, str, arr, obj, nil, cons}
use obmc_yadro_webapp.Http.{Code, to_int, is_error}
use obmc_yadro_webapp.Request.{get_uri_path}
use obmc_yadro_webapp.Response.{set_status}
use obmc_yadro_webapp.Redfish.Payload.{
  find_member, members_of, subscript, push_back, message_annotation,
}
use obmc_yadro_webapp.Redfish.Payload.Errors.{add_errors_lem, subscript-put_member}
use obmc_yadro_webapp.Redfish.Context.{
  RedfishContext, response_set_status, response_set_header, response_add_error,
  response_property_error,
}
use obmc_yadro_webapp.Redfish.Messages.Base.{message_json}
use obmc_yadro_webapp.Redfish.Messages.Requests.{
  resource_in_use_message, malformed_json_message, resource_missing_at_uri_message,
  action_parameter_value_format_error_message, method_not_allowed_message, internal_error_message,
  unrecognized_request_body_message, resource_at_uri_unauthorized_message,
  action_parameter_unknown_message, resource_cannot_be_deleted_message,
  service_temporarily_unavailable_message, property_duplicate_message,
}
use obmc_yadro_webapp.Redfish.Messages.Resources.{
  account_for_session_no_longer_exists_message, resource_at_uri_in_unknown_format_message,
  service_in_unknown_state_message, event_subscription_limit_exceeded_message,
  resource_not_found_message, uri_not_found_message, resource_already_exists_message,
  create_failed_missing_req_properties_message, property_value_format_error_message,
}
use obmc_yadro_webapp.Redfish.Messages.{
  resource_in_use, malformed_json, resource_missing_at_uri, action_parameter_value_format_error,
  method_not_allowed, internal_error, unrecognized_request_body, resource_at_uri_unauthorized,
  action_parameter_unknown, resource_cannot_be_deleted, service_temporarily_unavailable,
  account_for_session_no_longer_exists, resource_at_uri_in_unknown_format, service_in_unknown_state,
  event_subscription_limit_exceeded, resource_not_found, uri_not_found, internal_error_of,
  property_duplicate, resource_already_exists, create_failed_missing_req_properties,
  property_value_format_error, property_value_not_in_list,
}

-- The answer lists one message as its error.
pub ListsError : Json → RedfishContext → Type 0
ListsError message ctx =
    (error : Fields) × (subscript (text "error") ctx.answer.payload ≡ obj error)
    × (subscript message_annotation error ≡ arr (cons message nil))

pub response_add_error-ListsError :
    (message code shown : Json) (ctx : RedfishContext)
    → find_member (text "error") ctx.answer.payload ≡ none
    → find_member (text "MessageId") (members_of message) ≡ some code
    → find_member (text "Message") (members_of message) ≡ some shown
    → ListsError message (response_add_error message ctx)
unfolding ListsError response_add_error text_beq
response_add_error-ListsError message code shown ctx fresh has_id has_text =
    let (listed, kept) =
      add_errors_lem ctx.answer.payload message [] code shown (text "") fresh has_id has_text
        refl in
    (listed.0, listed.1, listed.2)

-- The answer has the message with this identifier as its one error, under the identifier, and an
-- error's status.
pub Reports : Text → RedfishContext → Type 0
Reports id after =
    (message : Json) × (error : Fields) × (subscript (text "error") after.answer.payload
      ≡ obj error)
    × (subscript message_annotation error ≡ arr (cons message nil))
    × (find_member (text "MessageId") (members_of message) ≡ some (str (text "Base.1.8.1." ++ id)))
    × (subscript (text "code") error ≡ str (text "Base.1.8.1." ++ id))
    × (is_error (to_int after.answer.response.status) ≡ true)

response_add_error-Reports :
    (id : Text) (message shown : Json) (ctx : RedfishContext)
    → find_member (text "error") ctx.answer.payload ≡ none
    → find_member (text "MessageId") (members_of message) ≡ some (str (text "Base.1.8.1." ++ id))
    → find_member (text "Message") (members_of message) ≡ some shown
    → is_error (to_int ctx.answer.response.status) ≡ true
    → Reports id (response_add_error message ctx)
unfolding Reports response_add_error text_beq
response_add_error-Reports id message shown ctx fresh has_id has_text failed =
    let (listed, kept) =
      add_errors_lem ctx.answer.payload message [] (str (text "Base.1.8.1." ++ id)) shown (text "")
        fresh has_id has_text refl in
    (message, listed.0, listed.1, listed.2, has_id, listed.3, failed)

-- The answer has a further message with this identifier at the property, and an error's status.
pub ReportsAt : Text → Text → RedfishContext → RedfishContext → Type 0
ReportsAt property id ctx after =
    (message : Json) × (subscript (property ++ message_annotation) after.answer.payload
      ≡ push_back (subscript (property ++ message_annotation) ctx.answer.payload) message)
    × (find_member (text "MessageId") (members_of message) ≡ some (str (text "Base.1.8.1." ++ id)))
    × (is_error (to_int after.answer.response.status) ≡ true)

response_property_error-ReportsAt :
    (property id : Text) (message : Json) (code : Code) (ctx : RedfishContext)
    → find_member (text "MessageId") (members_of message) ≡ some (str (text "Base.1.8.1." ++ id))
    → is_error (to_int code) ≡ true
    → ReportsAt property id ctx
        (response_property_error property message (response_set_status code ctx))
unfolding ReportsAt response_property_error response_set_status
response_property_error-ReportsAt property id message code ctx has_id failed =
    let key : Text = property ++ message_annotation in
    (
      message,
      subscript-put_member key key (push_back (subscript key ctx.answer.payload) message)
            ctx.answer.payload
          ∙ rw (beq_refl key) refl,
      has_id,
      failed,
    )

-- Each report of an error, of an answer without one, sets an error's status and makes its message,
-- with its identifier, the answer's error; each report at a property sets an error's status and adds
-- its message to those at the property. That a value is not in a list is reported as that it has the
-- wrong format.
pub reports_lem :
    (a b c : Text) (ctx : RedfishContext)
    → find_member (text "error") ctx.answer.payload ≡ none
    → Reports (text "ResourceInUse") (resource_in_use ctx)
      × Reports (text "MalformedJSON") (malformed_json ctx)
      × Reports (text "ResourceMissingAtURI") (resource_missing_at_uri a ctx)
      × Reports
          (text "ActionParameterValueFormatError")
          (action_parameter_value_format_error a b c ctx)
      × Reports (text "MethodNotAllowed") (method_not_allowed ctx)
      × Reports (text "InternalError") (internal_error ctx)
      × Reports (text "UnrecognizedRequestBody") (unrecognized_request_body ctx)
      × Reports (text "ResourceAtUriUnauthorized") (resource_at_uri_unauthorized a b ctx)
      × Reports (text "ActionParameterUnknown") (action_parameter_unknown a b ctx)
      × Reports (text "ResourceCannotBeDeleted") (resource_cannot_be_deleted ctx)
      × Reports (text "ServiceTemporarilyUnavailable") (service_temporarily_unavailable a ctx)
      × Reports (text "AccountForSessionNoLongerExists") (account_for_session_no_longer_exists ctx)
      × Reports (text "ResourceAtUriInUnknownFormat") (resource_at_uri_in_unknown_format a ctx)
      × Reports (text "ServiceInUnknownState") (service_in_unknown_state ctx)
      × Reports (text "EventSubscriptionLimitExceeded") (event_subscription_limit_exceeded ctx)
      × Reports (text "ResourceNotFound") (resource_not_found a b ctx)
      × Reports (text "ResourceNotFound") (uri_not_found ctx)
      × ReportsAt a (text "InternalError") ctx (internal_error_of a ctx)
      × ReportsAt a (text "PropertyDuplicate") ctx (property_duplicate a ctx)
      × ReportsAt b (text "ResourceAlreadyExists") ctx (resource_already_exists a b c ctx)
      × ReportsAt a
          (text "CreateFailedMissingReqProperties")
          ctx
          (create_failed_missing_req_properties a ctx)
      × ReportsAt b (text "PropertyValueFormatError") ctx (property_value_format_error a b ctx)
      × ReportsAt b (text "PropertyValueFormatError") ctx (property_value_not_in_list a b ctx)
unfolding resource_in_use malformed_json resource_missing_at_uri action_parameter_value_format_error
    method_not_allowed internal_error unrecognized_request_body resource_at_uri_unauthorized
    action_parameter_unknown resource_cannot_be_deleted service_temporarily_unavailable
    account_for_session_no_longer_exists resource_at_uri_in_unknown_format service_in_unknown_state
    event_subscription_limit_exceeded resource_not_found uri_not_found internal_error_of
    property_duplicate resource_already_exists create_failed_missing_req_properties
    property_value_format_error property_value_not_in_list resource_in_use_message
    malformed_json_message resource_missing_at_uri_message
    action_parameter_value_format_error_message method_not_allowed_message internal_error_message
    unrecognized_request_body_message resource_at_uri_unauthorized_message
    action_parameter_unknown_message resource_cannot_be_deleted_message
    service_temporarily_unavailable_message account_for_session_no_longer_exists_message
    resource_at_uri_in_unknown_format_message service_in_unknown_state_message
    event_subscription_limit_exceeded_message resource_not_found_message uri_not_found_message
    property_duplicate_message resource_already_exists_message
    create_failed_missing_req_properties_message property_value_format_error_message message_json
    find_member members_of text_beq is_error to_int response_set_status response_set_header
    set_status
reports_lem a b c ctx fresh = (
  response_add_error-Reports (text "ResourceInUse") resource_in_use_message _
      (response_set_status Code.service_unavailable ctx) fresh refl refl refl,
  response_add_error-Reports (text "MalformedJSON") malformed_json_message _
      (response_set_status Code.bad_request ctx) fresh refl refl refl,
  response_add_error-Reports (text "ResourceMissingAtURI") (resource_missing_at_uri_message a) _
      (response_set_status Code.bad_request ctx) fresh refl refl refl,
  response_add_error-Reports (text "ActionParameterValueFormatError")
      (action_parameter_value_format_error_message a b c) _
      (response_set_status Code.bad_request ctx) fresh refl refl refl,
  response_add_error-Reports (text "MethodNotAllowed")
      (method_not_allowed_message (get_uri_path ctx.request)) _
      (response_set_status Code.method_not_allowed ctx) fresh refl refl refl,
  response_add_error-Reports (text "InternalError") internal_error_message _
      (response_set_status Code.internal_server_error ctx) fresh refl refl refl,
  response_add_error-Reports (text "UnrecognizedRequestBody") unrecognized_request_body_message _
      (response_set_status Code.bad_request ctx) fresh refl refl refl,
  response_add_error-Reports (text "ResourceAtUriUnauthorized")
      (resource_at_uri_unauthorized_message a b) _ (response_set_status Code.unauthorized ctx) fresh
      refl refl refl,
  response_add_error-Reports (text "ActionParameterUnknown") (action_parameter_unknown_message a b)
      _ (response_set_status Code.bad_request ctx) fresh refl refl refl,
  response_add_error-Reports (text "ResourceCannotBeDeleted") resource_cannot_be_deleted_message _
      (response_set_status Code.forbidden ctx) fresh refl refl refl,
  response_add_error-Reports (text "ServiceTemporarilyUnavailable")
      (service_temporarily_unavailable_message a) _
      (response_set_status Code.service_unavailable
        (response_set_header (text "Retry-After") a ctx))
      fresh refl refl refl,
  response_add_error-Reports (text "AccountForSessionNoLongerExists")
      account_for_session_no_longer_exists_message _ (response_set_status Code.forbidden ctx) fresh
      refl refl refl,
  response_add_error-Reports (text "ResourceAtUriInUnknownFormat")
      (resource_at_uri_in_unknown_format_message a) _ (response_set_status Code.bad_request ctx)
      fresh refl refl refl,
  response_add_error-Reports (text "ServiceInUnknownState") service_in_unknown_state_message _
      (response_set_status Code.service_unavailable ctx) fresh refl refl refl,
  response_add_error-Reports (text "EventSubscriptionLimitExceeded")
      event_subscription_limit_exceeded_message _ (response_set_status Code.service_unavailable ctx)
      fresh refl refl refl,
  response_add_error-Reports (text "ResourceNotFound") (resource_not_found_message a b) _
      (response_set_status Code.not_found ctx) fresh refl refl refl,
  response_add_error-Reports (text "ResourceNotFound")
      (uri_not_found_message (get_uri_path ctx.request)) _ (response_set_status Code.not_found ctx)
      fresh refl refl refl,
  response_property_error-ReportsAt a (text "InternalError") internal_error_message
      Code.internal_server_error ctx refl refl,
  response_property_error-ReportsAt a (text "PropertyDuplicate") (property_duplicate_message a)
      Code.bad_request ctx refl refl,
  response_property_error-ReportsAt b (text "ResourceAlreadyExists")
      (resource_already_exists_message a b c) Code.bad_request ctx refl refl,
  response_property_error-ReportsAt a (text "CreateFailedMissingReqProperties")
      (create_failed_missing_req_properties_message a) Code.bad_request ctx refl refl,
  response_property_error-ReportsAt b (text "PropertyValueFormatError")
      (property_value_format_error_message a b) Code.bad_request ctx refl refl,
  response_property_error-ReportsAt b (text "PropertyValueFormatError")
      (property_value_format_error_message a b) Code.bad_request ctx refl refl,
)
