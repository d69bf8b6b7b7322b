-- ===== src/Redfish/Context.antt =====
-- The context of a Redfish request: its response, the instance that the path has selected so far,
-- URI segments and anchors (src/core/route/redfish/response.hpp).
pub mod Select
pub mod Verified
use obmc_yadro_webapp.Prelude.{
  ◌≡◌, ◌≢◌, refl, Bool, true, false, not, ◌&&◌, Option, none, some, List, [], ◌∷◌, ◌++◌, All, arith,
  ◌==◌, nat_eq, text_eq, if◌then◌else◌, insert_or_assign, lookup,
}
use obmc_yadro_webapp.Prelude.Text.{Text, text, replace, is_empty}
use obmc_yadro_webapp.Json.{Json, Fields, end}
use obmc_yadro_webapp.Http.{Code}
use obmc_yadro_webapp.Request.{Request, get_uri_path, is_browser_request}
use obmc_yadro_webapp.Response.{Response, new_response, set_status, set_header, set_content_type}
use obmc_yadro_webapp.Redfish.Payload.{add_error, property_error, add}
use obmc_yadro_webapp.Entity.{Instance, Condition}
use obmc_yadro_webapp.Entity.Store.{
  InstanceKind, Provider, Instances, conditions_passed, get_instances,
}
use obmc_yadro_webapp.Entity.Relation.{Relation, Members, get_relation, get_related_instances}

unfoldable pub encode_uri_segment : Text → Text
unfolding replace
encode_uri_segment value = replace 32 95 value

unfoldable pub decode_uri_segment : Text → Text
unfolding replace
decode_uri_segment value = replace 95 32 value

-- The URI without a slash at its end.
unfoldable pub drop_last_slash : Text → Text
drop_last_slash [] = []
drop_last_slash (c ∷ []) = if c == 47 then [] else c ∷ []
drop_last_slash (c ∷ (d ∷ uri)) = c ∷ drop_last_slash (d ∷ uri)

unfoldable pub init_anchor : Text → Text
unfolding drop_last_slash
init_anchor uri = drop_last_slash uri ++ text "#"

unfoldable pub add_anchor_segment : Text → Text → Text
add_anchor_segment segment anchor = anchor ++ text "/" ++ segment

-- What is read of an entity: its name, members and relations, and what `getInstances` works on.
pub record IEntity : Type 0 where
  pub name : Text
  pub members : Members
  pub relations : List (Text × Relation)
  pub kind : InstanceKind
  pub providers : List Provider
  pub instances : Instances

unfoldable pub entity_instances : IEntity → List (Option Condition) → List Instance
entity_instances entity conditions =
    get_instances entity.kind entity.providers conditions entity.instances

-- `RedfishResponse`: the answer, with the payload that it buffers.
pub record RedfishResponse : Type 0 where
  pub response : Response
  pub payload : Fields
  pub pretty_output : Bool

abbrev pub new_redfish_response : Bool → RedfishResponse
new_redfish_response pretty_output = record {
  response = new_response;
  payload = end;
  pretty_output = pretty_output;
}

-- The instance of a parameter, and its entity; `none` is the context that is not initialised.
abbrev pub ParameterCtx : Type 0
ParameterCtx = Option (Instance × IEntity)

pub record RedfishContext : Type 0 where
  pub request : Request
  pub answer : RedfishResponse
  pub parameter_ctx : ParameterCtx
  pub parameters : List (Text × ParameterCtx)
  pub anchor : Text

unfoldable pub new_context : Request → RedfishContext
unfolding init_anchor is_browser_request get_uri_path
new_context request = record {
  request = request;
  answer = new_redfish_response (is_browser_request request);
  parameter_ctx = none;
  parameters = [];
  anchor = init_anchor (get_uri_path request);
}

-- The copy has a response of its own.
unfoldable pub copy_context : RedfishContext → RedfishContext
unfolding is_browser_request
copy_context ctx = record ctx { answer = new_redfish_response (is_browser_request ctx.request) }

-- The operations on `getResponse()`.
unfoldable pub response_set_status : Code → RedfishContext → RedfishContext
unfolding set_status
response_set_status status ctx = record ctx {
  answer = record ctx.answer { response = set_status status ctx.answer.response };
}

unfoldable pub response_set_header : Text → Text → RedfishContext → RedfishContext
unfolding set_header
response_set_header name value ctx = record ctx {
  answer = record ctx.answer { response = set_header name value ctx.answer.response };
}

unfoldable pub response_set_content_type : Text → RedfishContext → RedfishContext
unfolding set_content_type
response_set_content_type content_type ctx = record ctx {
  answer = record ctx.answer { response = set_content_type content_type ctx.answer.response };
}

unfoldable pub response_add_error : Json → RedfishContext → RedfishContext
unfolding add_error
response_add_error message ctx = record ctx {
  answer = record ctx.answer { payload = add_error message ctx.answer.payload };
}

unfoldable pub response_property_error : Text → Json → RedfishContext → RedfishContext
unfolding property_error
response_property_error property message ctx = record ctx {
  answer = record ctx.answer { payload = property_error property message ctx.answer.payload };
}

unfoldable pub response_add : Text → Json → RedfishContext → RedfishContext
unfolding add
response_add key json ctx = record ctx {
  answer = record ctx.answer { payload = add key json ctx.answer.payload };
}

unfoldable pub context_add_anchor_segment : Text → RedfishContext → RedfishContext
unfolding add_anchor_segment
context_add_anchor_segment segment ctx = record ctx {
  anchor = add_anchor_segment segment ctx.anchor;
}

-- The instances of an entity behind the selected one. `none` is an exception. Where the entity is the
-- selected one's own and has a relation to itself, no related instance gives the selected one.
unfoldable pub context_instances :
    IEntity → List (Option Condition) → RedfishContext → Option (List Instance)
unfolding entity_instances get_relation get_related_instances conditions_passed
context_instances entity conditions ctx = elim ctx.parameter_ctx [
  | none ↦ some (entity_instances entity conditions)
  | some (selected, own) ↦ elim (get_relation entity.name own.relations) [
    | none ↦
        if own.name == entity.name
        then some (if conditions_passed conditions selected then selected ∷ [] else [])
        else some (entity_instances entity conditions)
    | some relation ↦ elim (get_related_instances (some relation) selected.hash conditions false) [
      | none ↦ none
      | some related ↦
          some (if is_empty related && own.name == entity.name then selected ∷ [] else related)
    ]
  ]
]

-- Whether an instance was found; the first one is selected.
unfoldable pub verify_parameter :
    IEntity → List (Option Condition) → Text → RedfishContext → Option (RedfishContext × Bool)
unfolding context_instances
verify_parameter entity conditions param_value ctx =
    elim (context_instances entity conditions ctx) [
      | none ↦ none
      | some [] ↦ some (ctx, false)
      | some (first ∷ others) ↦ some (
        record ctx {
          parameter_ctx = some (first, entity);
          parameters = insert_or_assign param_value (some (first, entity)) ctx.parameters;
        },
        true,
      )
    ]

-- `none` is the exception for an unknown parameter.
unfoldable pub get_parameter_instance : Text → RedfishContext → Option (Option Instance)
get_parameter_instance name ctx = elim (lookup name ctx.parameters) [
  | none ↦ none
  | some none ↦ some none
  | some (some (i, entity)) ↦ some (some i)
]

-- A segment that was written without underscores is read back.
decode_uri_segment-encode_uri_segment :
    (s : Text) → All (λ c. c ≢ 95) s → decode_uri_segment (encode_uri_segment s) ≡ s
unfolding decode_uri_segment encode_uri_segment replace
decode_uri_segment-encode_uri_segment [] h = refl
decode_uri_segment-encode_uri_segment (c ∷ s) h =
    ground (arith, decode_uri_segment-encode_uri_segment s h.1)
