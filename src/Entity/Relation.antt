-- ===== src/Entity/Relation.antt =====
-- Relations between entities: the conditions that an instance gives to those of another entity
-- (src/core/entity/entity.cpp, src/core/entity/entity_interface.hpp).
pub mod Laws
use obmc_yadro_webapp.Prelude.{
  ℕ, ◌≡◌, ◌≢◌, ◌∙◌, ap, refl, inl, inr, Bool, true, false, Option, none, some, List, [], ◌∷◌, ◌++◌,
  if◌then◌else◌, Eq, ◌==◌, nat_eq, text_eq, text_beq_iff, lookup, emplace, any_of, ◌&&◌, keep,
  arith, Bool-cases,
}
use obmc_yadro_webapp.Prelude.Text.{Text, is_empty}
use obmc_yadro_webapp.Entity.{
  FieldType, nullptr, Field, Instance, get_value, get_field, CompareCallback, Condition,
  check_condition, dummy_field, add_rule, add_custom_rule, field_value_compare, compare_rules,
}
use obmc_yadro_webapp.Entity.Store.{
  InstanceKind, Provider, Stored, Instances, get_instance, conditions_passed, get_instances,
}
use obmc_yadro_webapp.Entity.Store.Select.{prepared_instances, get_instances_lem}

-- The names of an entity's members, and those of its providers.
mutual
  pub data Members : Type 0 where
    members : List Text → ProviderMembers → Members

  pub data ProviderMembers : Type 0 where
    no_provider : ProviderMembers
    provider : Members → ProviderMembers → ProviderMembers

-- `addMember` of a member that is there: the names are those of a map.
unfoldable pub add_member : Text → List Text → List Text × Bool
add_member name names =
    if any_of (λ n. n == name) names then (names, false) else (names ++ name ∷ [], true)

-- `getMember`: `none` is the exception, which a provider's exception does not become.
unfoldable mutual
  pub get_member : Text → Members → Option Text
  get_member name (members own providers) =
      let provided = get_provider_member name providers in
      if any_of (λ n. n == name) own then some name else provided

  pub get_provider_member : Text → ProviderMembers → Option Text
  get_provider_member name no_provider = none
  get_provider_member name (provider first rest) = elim (get_member name first) [
    | some found ↦ some found
    | none ↦ get_provider_member name rest
  ]

-- The member of the source, the member of the destination, and how they are compared.
abbrev pub RuleSet : Type 0
RuleSet = Text × Text × CompareCallback

unfoldable pub direct_linking_rule : List RuleSet
unfolding dummy_field
direct_linking_rule = (dummy_field, dummy_field, λ f value. true) ∷ []

-- The rule of a source that is a dummy compares with no value.
unfoldable pub literal_condition : Text → CompareCallback → Condition
unfolding add_custom_rule
literal_condition member_dest compare_literal =
    add_custom_rule member_dest (λ f. compare_literal f nullptr) []

-- `getConditions`, for the instance under a hash. `none` is the exception for a member that the
-- source does not have. A rule is skipped where the source has no such instance.
unfoldable pub get_conditions : List RuleSet → Members → Instances → ℕ → Option (List Condition)
unfolding dummy_field literal_condition get_member get_instance get_value get_field add_rule
get_conditions [] scope source hash = some []
get_conditions ((member_source, member_dest, compare_literal) ∷ rules) scope source hash =
    let rest = get_conditions rules scope source hash in
    if member_source == dummy_field
    then elim rest [
      | none ↦ none
      | some conditions ↦ some (literal_condition member_dest compare_literal ∷ conditions)
    ]
    else elim (get_member member_source scope) [
      | none ↦ none
      | some name ↦ elim (get_instance hash source) [
        | none ↦ rest
        | some stored ↦ elim rest [
          | none ↦ none
          | some conditions ↦ some (
              add_rule member_dest (get_value (get_field name stored.self)) compare_literal []
              ∷ conditions)
        ]
      ]
    ]

-- A relation with the entities that it joins: what `getMember` and `getInstance` read of the source,
-- and what `getInstances` reads of the destination.
pub record Relation : Type 0 where
  pub condition_build_rules : List RuleSet
  pub source_members : Members
  pub source_instances : Instances
  pub destination_kind : InstanceKind
  pub destination_providers : List Provider
  pub destination_instances : Instances

unfoldable pub present : List Condition → List (Option Condition)
present [] = []
present (condition ∷ conditions) = some condition ∷ present conditions

-- `getRelatedInstances` of the instance under the hash. There is no relation for `none`.
unfoldable pub get_related_instances :
    Option Relation → ℕ → List (Option Condition) → Bool → Option (List Instance)
unfolding get_conditions get_instances present
get_related_instances none hash conditions skip_empty = some []
get_related_instances (some r) hash conditions skip_empty =
    elim (get_conditions r.condition_build_rules r.source_members r.source_instances hash) [
      | none ↦ none
      | some built ↦
          let rel_conditions = present built ++ conditions in
          if skip_empty && is_empty rel_conditions
          then some []
          else some (
              get_instances r.destination_kind r.destination_providers rel_conditions
                r.destination_instances)
    ]

-- `getRelation`: the first to an entity of that name, of the relations with their targets' names.
unfoldable pub get_relation {ℓ} : {R : Type ℓ} → Text → List (Text × R) → Option R
get_relation entity_name relations = lookup entity_name relations
