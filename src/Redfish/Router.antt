-- ===== src/Redfish/Router.antt =====
-- A Redfish request: its node's methods and its answer (src/core/route/redfish/node.hpp,
-- src/core/route/redfish/router.hpp and src/core/route/redfish/redfish_root.hpp).
pub mod Answered
use obmc_yadro_webapp.Prelude.{
  ℕ, ◌≡◌, Bool, true, false, Option, none, some, List, [], ◌∷◌, ◌++◌, map, if◌then◌else◌, ◌==◌,
  text_eq,
}
use obmc_yadro_webapp.Prelude.Text.{Text, text}
use obmc_yadro_webapp.Json.{Json, str}
use obmc_yadro_webapp.Http.{Code}
use obmc_yadro_webapp.Html.{Outcome}
use obmc_yadro_webapp.Response.{Response}
use obmc_yadro_webapp.Request.{Request, RequestMethod}
use obmc_yadro_webapp.Entity.{Instance, Condition, get_field, get_string_value}
use obmc_yadro_webapp.Redfish.Resolver.{Node, uri_resolver}
use obmc_yadro_webapp.Redfish.Payload.Flash.{flash}
use obmc_yadro_webapp.Redfish.Context.{
  RedfishContext, IEntity, new_context, context_instances, encode_uri_segment, decode_uri_segment,
  response_set_status, response_set_content_type,
}
use obmc_yadro_webapp.Redfish.Messages.{internal_error, method_not_allowed, uri_not_found}
use obmc_yadro_webapp.Redfish.Actions.{
  Handled, done, thrown, undefined, ◌>>=◌, Action, Childs, process_all, field_getter,
  static_collection_getter,
}
use obmc_yadro_webapp.Redfish.Actions.Links.{id_reference}

abbrev pub Method : Type 0
Method = RedfishContext → Handled (Unit {0})

-- The virtual methods of a node.
pub record Methods : Type 0 where
  pub method_head : Method
  pub method_get : Method
  pub method_post : Method
  pub method_put : Method
  pub method_delete : Method
  pub method_options : Method

unfoldable pub not_allowed : Method
unfolding method_not_allowed
not_allowed ctx = done tt (method_not_allowed ctx)

-- A node that overrides none of them.
unfoldable pub node_methods : List Action → Methods
unfolding process_all not_allowed
node_methods get_fields_getters = record {
  method_head = not_allowed;
  method_get = process_all get_fields_getters;
  method_post = not_allowed;
  method_put = not_allowed;
  method_delete = not_allowed;
  method_options = not_allowed;
}

-- `process` of a node.
unfoldable pub process_node : Methods → RequestMethod → Method
unfolding not_allowed
process_node methods RequestMethod.head = methods.method_head
process_node methods RequestMethod.get = methods.method_get
process_node methods RequestMethod.post = methods.method_post
process_node methods RequestMethod.put = methods.method_put
process_node methods RequestMethod.delete = methods.method_delete
process_node methods RequestMethod.options = methods.method_options
process_node methods method = not_allowed

-- The handler that turns an exception into an internal error.
unfoldable pub caught : Handled (Unit {0}) → Handled (Unit {0})
unfolding internal_error
caught (done a ctx) = done a ctx
caught (thrown ctx) = done tt (internal_error ctx)
caught undefined = undefined

unfoldable pub root_getters : List Action
unfolding field_getter
root_getters = field_getter (text "v1") (str (text "/redfish/v1/")) ∷ []

-- `methodGet` of the root.
unfoldable pub root_get : Method
unfolding process_all root_getters caught response_set_status
root_get ctx = caught (process_all root_getters (response_set_status Code.ok ctx))

unfoldable pub root_methods : Methods
unfolding node_methods root_getters root_get
root_methods = record (node_methods root_getters) { method_get = root_get }

-- `searchRouteHandler`.
unfoldable pub search_route_handler : List Text → Bool
search_route_handler [] = false
search_route_handler (segment ∷ segments) = segment == text "redfish"

unfoldable pub application_json : Text
application_json = text "application/json; charset=UTF-8"

-- The context in which a node answers.
unfoldable pub run_context : Request → RedfishContext
unfolding new_context response_set_status response_set_content_type application_json
run_context request =
    response_set_content_type application_json
      (response_set_status Code.bad_request (new_context request))

-- `process` of what the path resolves to, a node or `NodeNotFound`.
unfoldable pub process_resolved : (Node → Methods) → Option Node → Method
unfolding process_node uri_not_found
process_resolved methods_of none ctx = done tt (uri_not_found ctx)
process_resolved methods_of (some n) ctx =
    process_node (methods_of n) ctx.request.env.request_method ctx

-- `run`: the path is resolved in the context in which its node answers then, so that the node sees
-- the instances that the path has selected. An exception of either is caught.
unfoldable pub run : (Node → Methods) → Node → Request → Handled (Unit {0})
unfolding caught uri_resolver process_resolved run_context
run methods_of root request = caught (
    uri_resolver request.env.path_info root 0 (run_context request) >>= process_resolved methods_of)

-- The context flashes its payload where it ends.
unfoldable pub answer_of :
    (Text → Bool) → (Text → Text) → (Json → Text) → Handled (Unit {0}) → Option (Outcome Response)
unfolding flash
answer_of is_finite to_chars print (done a ctx) =
    some (
      flash is_finite to_chars print ctx.answer.pretty_output ctx.answer.payload
        ctx.answer.response)
answer_of is_finite to_chars print handled = none

-- How a node's own segment is found: fixed, or a member of an entity's instances.
pub data SegmentSource : Type 0 where
  static_segment : Text → SegmentSource
  parameter_segment : IEntity → List (Option Condition) → Text → SegmentSource

unfoldable pub get_all_segment_values : SegmentSource → RedfishContext → Option (List Text)
unfolding context_instances get_string_value get_field encode_uri_segment
get_all_segment_values (static_segment segment) ctx = some (segment ∷ [])
get_all_segment_values (parameter_segment entity conditions parameter_field) ctx =
    elim (context_instances entity conditions ctx) [
      | none ↦ none
      | some instances ↦
          some (
            map (λ i. encode_uri_segment (get_string_value (get_field parameter_field i)))
              instances)
    ]

-- The static segments in front of a segment.
unfoldable pub prefix : List Text → Text → Text
prefix [] segment = segment
prefix (p ∷ uri_prefix) segment = p ++ (text "/" ++ prefix uri_prefix segment)

-- `ListReferences`, over the nodes with their static segments.
unfoldable pub references : Text → List (List Text × SegmentSource) → Childs
unfolding get_all_segment_values prefix id_reference
references name [] ctx = done [] ctx
references name ((uri_prefix, source) ∷ nodes) ctx = elim (get_all_segment_values source ctx) [
  | none ↦ thrown ctx
  | some segments ↦ references name nodes ctx >>= λ getters next.
      done (map (λ s. id_reference name (prefix uri_prefix s)) segments ++ getters) next
]

unfoldable pub list_references :
    (List Json → List Json) → Text → List (List Text × SegmentSource) → Action
unfolding static_collection_getter references
list_references sort name nodes = static_collection_getter sort name (references name nodes)

-- The last segment of the path: the value of a parameterized node.
unfoldable pub node_value : List Text → Text
node_value [] = []
node_value (segment ∷ []) = segment
node_value (segment ∷ (next ∷ path_info)) = node_value (next ∷ path_info)

unfoldable pub get_parameter_value : RedfishContext → Text
unfolding node_value decode_uri_segment
get_parameter_value ctx = decode_uri_segment (node_value ctx.request.env.path_info)

-- `getTargetInstance`: `none` is an exception, also that there is no instance.
unfoldable pub get_target_instance :
    IEntity → List (Option Condition) → RedfishContext → Option Instance
unfolding context_instances
get_target_instance entity conditions ctx = elim (context_instances entity conditions ctx) [
  | none ↦ none
  | some [] ↦ none
  | some (first ∷ others) ↦ some first
]
