-- ===== src/Redfish/Actions/Links.antt =====
-- The links of a Redfish node and the templates of their URIs (src/core/route/redfish/node.hpp).
pub mod Formatted
pub mod Templates
use obmc_yadro_webapp.Prelude.{
  ℕ, ◌≡◌, Bool, true, false, Option, none, some, List, [], ◌∷◌, ◌++◌, map, if◌then◌else◌, ◌==◌,
  text_eq, length, drop,
}
use obmc_yadro_webapp.Prelude.Text.{Text, text, starts_with}
use obmc_yadro_webapp.Json.{Json, str}
use obmc_yadro_webapp.Entity.{Instance, Condition, get_field, get_string_value}
use obmc_yadro_webapp.Entity.Relation.{get_relation, get_related_instances}
use obmc_yadro_webapp.Request.{get_uri_path}
use obmc_yadro_webapp.Redfish.Payload.{text_ltb}
use obmc_yadro_webapp.Redfish.Context.{
  RedfishContext, IEntity, entity_instances, context_instances, encode_uri_segment,
}
use obmc_yadro_webapp.Redfish.Messages.{internal_error_of}
use obmc_yadro_webapp.Redfish.Actions.{
  Handled, done, thrown, undefined, ◌>>=◌, Action, Childs, field_getter, object_getter,
  static_collection_getter,
}

-- `formatTemplate`: the first occurrence of the parameter is replaced; `none` is the exception that
-- there is none.
unfoldable pub format_template : Text → Text → Text → Option Text
unfolding starts_with
format_template [] param_name value = if starts_with param_name [] then some value else none
format_template (c ∷ tmpl) param_name value =
    let rest = format_template tmpl param_name value in
    if starts_with param_name (c ∷ tmpl)
    then some (value ++ drop (length param_name) (c ∷ tmpl))
    else elim rest [ none ↦ none | some formatted ↦ some (c ∷ formatted) ]

-- The templates with the instance and the entity of the parameter that was put in last, in the
-- order of their text.
abbrev pub ResolvedTmpls : Type 0
ResolvedTmpls = List (Text × Instance × IEntity)

-- `emplace`: a template that is there stays.
unfoldable pub emplace_template : Text → Instance → IEntity → ResolvedTmpls → ResolvedTmpls
unfolding text_ltb
emplace_template tmpl i entity [] = (tmpl, i, entity) ∷ []
emplace_template tmpl i entity ((t, j, own) ∷ tmpls) =
    let later = emplace_template tmpl i entity tmpls in
    if t == tmpl
    then (t, j, own) ∷ tmpls
    else if text_ltb tmpl t
    then (tmpl, i, entity) ∷ ((t, j, own) ∷ tmpls)
    else (t, j, own) ∷ later

-- `merge`: the templates that are there stay.
unfoldable pub merge_templates : ResolvedTmpls → ResolvedTmpls → ResolvedTmpls
unfolding emplace_template
merge_templates current [] = current
merge_templates current ((t, i, entity) ∷ tmpls) =
    merge_templates (emplace_template t i entity current) tmpls

abbrev pub braced : Text → Text
braced param_name = text "{" ++ (param_name ++ text "}")

-- The template for each of the instances.
unfoldable pub resolve_instances :
    Text → Text → Text → IEntity → List Instance → ResolvedTmpls → Option ResolvedTmpls
unfolding format_template emplace_template get_string_value get_field encode_uri_segment
resolve_instances tmpl param_name member_name entity [] current = some current
resolve_instances tmpl param_name member_name entity (i ∷ instances) current =
    elim (format_template tmpl (braced param_name)
      (encode_uri_segment (get_string_value (get_field member_name i)))) [
        | none ↦ none
        | some formatted ↦
            resolve_instances tmpl param_name member_name entity instances
              (emplace_template formatted i entity current)
      ]

unfoldable pub resolve_parameter :
    Text → Text → Text → IEntity → List Instance → Option ResolvedTmpls
unfolding resolve_instances
resolve_parameter tmpl param_name member_name entity instances =
    resolve_instances tmpl param_name member_name entity instances []

-- `ParameterConditions`: the entity, its member, the conditions, and the instance to take in place
-- of looking for one.
pub record ParameterConditions : Type 0 where
  pub entity : IEntity
  pub member_name : Text
  pub conditions : List (Option Condition)
  pub dependent : Option Instance

-- The instances for a template that has no parameter put in yet.
unfoldable pub first_instances : ParameterConditions → RedfishContext → Option (List Instance)
unfolding context_instances
first_instances resolver ctx = elim resolver.dependent [
  | some i ↦ some (i ∷ [])
  | none ↦ context_instances resolver.entity resolver.conditions ctx
]

-- The instances behind that of the parameter that was put in before.
unfoldable pub next_instances : ParameterConditions → Instance → IEntity → Option (List Instance)
unfolding get_relation get_related_instances entity_instances
next_instances resolver parent own = elim resolver.dependent [
  | some i ↦ some (i ∷ [])
  | none ↦ elim (get_relation resolver.entity.name own.relations) [
    | none ↦ some (entity_instances resolver.entity resolver.conditions)
    | some relation ↦ get_related_instances (some relation) parent.hash resolver.conditions false
  ]
]

unfoldable pub resolve_each :
    Text → ParameterConditions → ResolvedTmpls → ResolvedTmpls → Option ResolvedTmpls
unfolding next_instances resolve_parameter merge_templates
resolve_each param_name resolver [] current = some current
resolve_each param_name resolver ((tmpl, parent, own) ∷ tmpls) current =
    elim (next_instances resolver parent own) [
      | none ↦ none
      | some instances ↦
          elim (resolve_parameter tmpl param_name resolver.member_name resolver.entity instances) [
            | none ↦ none
            | some resolved ↦
                resolve_each param_name resolver tmpls (merge_templates current resolved)
          ]
    ]

-- The loop over the parameters. Where the templates have run out, the next parameter starts from the
-- link's own template; where it finds no instance, there is no link.
unfoldable pub resolve_parameters :
    Text → RedfishContext → List (Text × ParameterConditions) → ResolvedTmpls → Option ResolvedTmpls
unfolding first_instances resolve_parameter resolve_each
resolve_parameters uri_tmpl ctx [] partial = some partial
resolve_parameters uri_tmpl ctx ((param_name, resolver) ∷ resolvers) [] =
    elim (first_instances resolver ctx) [
      | none ↦ none
      | some instances ↦
          elim (resolve_parameter uri_tmpl param_name resolver.member_name resolver.entity
            instances) [
              | none ↦ none
              | some [] ↦ some []
              | some (t ∷ current) ↦ resolve_parameters uri_tmpl ctx resolvers (t ∷ current)
            ]
    ]
resolve_parameters uri_tmpl ctx ((param_name, resolver) ∷ resolvers) (p ∷ partial) =
    elim (resolve_each param_name resolver (p ∷ partial) []) [
      | none ↦ none
      | some current ↦ resolve_parameters uri_tmpl ctx resolvers current
    ]

-- The parameters come in the order of their names. `none` is an exception.
unfoldable pub resolve_template :
    Text → List (Text × ParameterConditions) → RedfishContext → Option (List Text)
unfolding resolve_parameters
resolve_template uri_tmpl [] ctx = some (uri_tmpl ∷ [])
resolve_template uri_tmpl (r ∷ resolvers) ctx =
    elim (resolve_parameters uri_tmpl ctx (r ∷ resolvers) []) [
      | none ↦ none
      | some resolved ↦ some (map (λ t. t.0) resolved)
    ]

unfoldable pub link : Text → Action
unfolding field_getter
link uri = field_getter (text "@odata.id") (str uri)

-- `LinkGetter<ObjectGetter>`: that there is no URI is reported in the object.
unfoldable pub link_object_getter : Text → Text → List (Text × ParameterConditions) → Action
unfolding object_getter resolve_template internal_error_of link
link_object_getter name uri_tmpl resolvers = object_getter name (λ ctx.
    elim (resolve_template uri_tmpl resolvers ctx) [
      | none ↦ thrown ctx
      | some [] ↦ done [] (internal_error_of name ctx)
      | some (uri ∷ uris) ↦ done (link uri ∷ []) ctx
    ])

unfoldable pub link_ref_object : Text → Action
unfolding object_getter link
link_ref_object uri = object_getter (text "@odata.id") (λ ctx. done (link uri ∷ []) ctx)

-- `LinkGetter<StaticCollectionGetter>`.
unfoldable pub link_collection_getter :
    (List Json → List Json) → Text → Text → List (Text × ParameterConditions) → Action
unfolding static_collection_getter resolve_template link_ref_object
link_collection_getter sort name uri_tmpl resolvers = static_collection_getter sort name (λ ctx.
    elim (resolve_template uri_tmpl resolvers ctx) [
      | none ↦ thrown ctx
      | some uris ↦ done (map link_ref_object uris) ctx
    ])

unfoldable pub links_getter : Text → List Action → Action
unfolding object_getter
links_getter name links = object_getter name (λ ctx. done links ctx)

unfoldable pub oem_getter : List Action → Action
unfolding object_getter
oem_getter getters = object_getter (text "Oem") (λ ctx. done getters ctx)

unfoldable pub id_reference : Text → Text → Action
unfolding object_getter get_uri_path link
id_reference name segment =
    object_getter name (λ ctx. done (link (get_uri_path ctx.request ++ segment) ∷ []) ctx)
