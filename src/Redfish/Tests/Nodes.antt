-- ===== src/Redfish/Tests/Nodes.antt =====
-- The theorems on what a node answers, at a request for a fan with a link to it.
use obmc_yadro_webapp.Prelude.{
  ◌≡◌, ◌↔◌, refl, none, some, List, [], ◌∷◌, ◌++◌, All, text_eq, text_beq, lookup,
}
use obmc_yadro_webapp.Prelude.Ordered.{assign_ordered}
use obmc_yadro_webapp.Prelude.Text.{Text, text, starts_with, replace}
use obmc_yadro_webapp.Json.{Json, str}
use obmc_yadro_webapp.Request.{Request, RequestMethod}
use obmc_yadro_webapp.Entity.{Instance, string}
use obmc_yadro_webapp.Entity.Kinds.{static_kind}
use obmc_yadro_webapp.Entity.Relation.{members, no_provider}
use obmc_yadro_webapp.Redfish.Payload.{find_member}
use obmc_yadro_webapp.Redfish.Context.{
  RedfishContext, IEntity, new_context, context_instances, copy_context,
}
use obmc_yadro_webapp.Redfish.Context.Select.{Selects, context_instances_sound}
use obmc_yadro_webapp.Redfish.Context.Verified.{Verified, verify_parameter_lem}
use obmc_yadro_webapp.Redfish.Messages.{
  resource_in_use, malformed_json, resource_missing_at_uri, action_parameter_value_format_error,
  method_not_allowed, internal_error, unrecognized_request_body, resource_at_uri_unauthorized,
  action_parameter_unknown, resource_cannot_be_deleted, service_temporarily_unavailable,
  account_for_session_no_longer_exists, resource_at_uri_in_unknown_format, service_in_unknown_state,
  event_subscription_limit_exceeded, resource_not_found, uri_not_found, internal_error_of,
  property_duplicate, resource_already_exists, create_failed_missing_req_properties,
  property_value_format_error, property_value_not_in_list,
}
use obmc_yadro_webapp.Redfish.Messages.Reported.{Reports, ReportsAt, reports_lem}
use obmc_yadro_webapp.Redfish.Actions.{
  done, undefined, Childs, object_getter, collect, static_collection_getter,
}
use obmc_yadro_webapp.Redfish.Actions.Contained.{Keeps, parts_contained}
use obmc_yadro_webapp.Redfish.Actions.Collected.{Fill, collect_iff}
use obmc_yadro_webapp.Redfish.Actions.Links.{ParameterConditions, resolve_template, link}
use obmc_yadro_webapp.Redfish.Actions.Links.Formatted.{Formatted}
use obmc_yadro_webapp.Redfish.Actions.Links.Templates.{IsAscending, resolve_template_sound}

abbrev pub fan : Instance
fan = record { hash = 7; member_instances = (text "Name", some (string (text "Fan 1"))) ∷ [] }

abbrev pub fans : IEntity
fans = record {
  name = text "Fan";
  members = members (text "Name" ∷ []) no_provider;
  relations = [];
  kind = static_kind;
  providers = [];
  instances = (7, record { self = fan; complex_instances = [] }) ∷ [];
}

abbrev pub request : Request
request = record {
  env = record {
    request_method = RequestMethod.get;
    others = [];
    cookies = [];
    authorization = [];
    user_agent = [];
    content_type = [];
    accept_content_types = text "application/json";
    path_info = text "redfish" ∷ text "Fan_1" ∷ [];
    remote_address = [];
  };
  user_session = none;
}

abbrev pub fresh : RedfishContext
fresh = new_context request

abbrev link_params : List (Text × ParameterConditions)
link_params =
    (
      text "Fan",
      record { entity = fans; member_name = text "Name"; conditions = []; dependent = some fan },
    )
    ∷ []

-- The blank of the name is encoded.
fan_link :
    resolve_template (text "/redfish/v1/Fans/{Fan}") link_params fresh
    ≡ some (text "/redfish/v1/Fans/Fan_1" ∷ [])
unfolding resolve_template text_beq starts_with replace lookup
fan_link = refl

resolve_template_sound_example :
    IsAscending (text "/redfish/v1/Fans/Fan_1" ∷ [])
    × ((before : List (Text × ParameterConditions)) × (put : List (Text × ParameterConditions))
        × (link_params ≡ before ++ put)
        × All (Formatted put (text "/redfish/v1/Fans/{Fan}")) (text "/redfish/v1/Fans/Fan_1" ∷ []))
resolve_template_sound_example =
    resolve_template_sound (text "/redfish/v1/Fans/{Fan}") link_params fresh
      (text "/redfish/v1/Fans/Fan_1" ∷ []) fan_link

found_fans : context_instances fans [] fresh ≡ some (fan ∷ [])
unfolding context_instances new_context assign_ordered
found_fans = refl

context_instances_sound_example : All (Selects fans [] fresh) (fan ∷ [])
context_instances_sound_example = context_instances_sound fans [] fresh (fan ∷ []) found_fans

verify_parameter_lem_example : Verified fans [] (text "Fan_1") (text "Fan_2") fresh
verify_parameter_lem_example = verify_parameter_lem fans [] (text "Fan_1") (text "Fan_2") fresh

-- The children of an object and of a collection: two links.
abbrev two_links : Childs
two_links = λ ctx. done (link (text "/a") ∷ link (text "/b") ∷ []) ctx

parts_contained_example :
    Keeps (text "Name") fresh ((object_getter (text "Links") two_links).process fresh)
    × Keeps
        (text "Name")
        fresh
        ((static_collection_getter (λ xs. xs) (text "Links") two_links).process fresh)
unfolding text_beq
parts_contained_example =
    parts_contained (λ xs. xs) (text "Links") (text "Name") two_links fresh refl

abbrev gathered : List Json
gathered = str (text "/a") ∷ str (text "/b") ∷ []

collect_iff_example :
    (collect (link (text "/a") ∷ link (text "/b") ∷ []) fresh fresh ≡ done gathered fresh)
    ↔ (Fill (link (text "/a") ∷ link (text "/b") ∷ []) fresh gathered × (fresh ≡ fresh))
collect_iff_example =
    collect_iff (link (text "/a") ∷ link (text "/b") ∷ []) fresh fresh fresh gathered

two_gathered : collect (link (text "/a") ∷ link (text "/b") ∷ []) fresh fresh ≡ done gathered fresh
unfolding collect link text_beq copy_context new_context
two_gathered = refl

-- An object without members leaves its field out, which the collection then reads.
empty_fragment :
    collect (object_getter (text "0") (λ ctx. done [] ctx) ∷ []) fresh fresh ≡ undefined
unfolding collect object_getter
empty_fragment = refl

reports_lem_example :
    Reports (text "ResourceInUse") (resource_in_use fresh)
    × Reports (text "MalformedJSON") (malformed_json fresh)
    × Reports (text "ResourceMissingAtURI") (resource_missing_at_uri (text "a") fresh)
    × Reports
        (text "ActionParameterValueFormatError")
        (action_parameter_value_format_error (text "a") (text "b") (text "c") fresh)
    × Reports (text "MethodNotAllowed") (method_not_allowed fresh)
    × Reports (text "InternalError") (internal_error fresh)
    × Reports (text "UnrecognizedRequestBody") (unrecognized_request_body fresh)
    × Reports
        (text "ResourceAtUriUnauthorized")
        (resource_at_uri_unauthorized (text "a") (text "b") fresh)
    × Reports (text "ActionParameterUnknown") (action_parameter_unknown (text "a") (text "b") fresh)
    × Reports (text "ResourceCannotBeDeleted") (resource_cannot_be_deleted fresh)
    × Reports
        (text "ServiceTemporarilyUnavailable")
        (service_temporarily_unavailable (text "a") fresh)
    × Reports (text "AccountForSessionNoLongerExists") (account_for_session_no_longer_exists fresh)
    × Reports
        (text "ResourceAtUriInUnknownFormat")
        (resource_at_uri_in_unknown_format (text "a") fresh)
    × Reports (text "ServiceInUnknownState") (service_in_unknown_state fresh)
    × Reports (text "EventSubscriptionLimitExceeded") (event_subscription_limit_exceeded fresh)
    × Reports (text "ResourceNotFound") (resource_not_found (text "a") (text "b") fresh)
    × Reports (text "ResourceNotFound") (uri_not_found fresh)
    × ReportsAt (text "a") (text "InternalError") fresh (internal_error_of (text "a") fresh)
    × ReportsAt (text "a") (text "PropertyDuplicate") fresh (property_duplicate (text "a") fresh)
    × ReportsAt
        (text "b")
        (text "ResourceAlreadyExists")
        fresh
        (resource_already_exists (text "a") (text "b") (text "c") fresh)
    × ReportsAt
        (text "a")
        (text "CreateFailedMissingReqProperties")
        fresh
        (create_failed_missing_req_properties (text "a") fresh)
    × ReportsAt
        (text "b")
        (text "PropertyValueFormatError")
        fresh
        (property_value_format_error (text "a") (text "b") fresh)
    × ReportsAt
        (text "b")
        (text "PropertyValueFormatError")
        fresh
        (property_value_not_in_list (text "a") (text "b") fresh)
unfolding new_context find_member
reports_lem_example = reports_lem (text "a") (text "b") (text "c") fresh refl
