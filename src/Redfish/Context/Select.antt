-- ===== src/Redfish/Context/Select.antt =====
-- Which instances a Redfish request works on (src/core/route/redfish/response.hpp).
use obmc_yadro_webapp.Prelude.{
  ℕ, ◌≡◌, ◌⊎◌, refl, sym, inl, inr, Bool, true, false, ◌&&◌, Option, none, some, List, [], ◌∷◌,
  ◌++◌, All, keep, ◌==◌, text_eq, text_beq_iff, arith, if◌then◌else◌, Bool-cases,
}
use mathlib.Core.Path.{subst}
use obmc_yadro_webapp.Prelude.Text.{is_empty}
use obmc_yadro_webapp.Entity.{Instance, Condition}
use obmc_yadro_webapp.Entity.Store.{
  InstanceKind, Provider, Instances, conditions_passed, get_instances,
}
use obmc_yadro_webapp.Entity.Store.Select.{get_instances_lem, prepared_instances}
use obmc_yadro_webapp.Entity.Relation.{
  Relation, present, get_conditions, get_relation, get_related_instances,
}
use obmc_yadro_webapp.Redfish.Context.{
  RedfishContext, ParameterCtx, IEntity, entity_instances, context_instances,
}

All-keep : (p : Instance → Bool) (is : List Instance) → All (λ i. p i ≡ true) (keep p is)
All-keep p [] = tt
All-keep p (i ∷ is) = elim (Bool-cases (p i)) [
  | inl holds ↦ rw holds (holds, All-keep p is)
  | inr fails ↦ rw fails (All-keep p is)
]

get_instances-passed :
    (kind : InstanceKind) (providers : List Provider) (conditions : List (Option Condition))
    (instances : Instances)
    → All
        (λ i. conditions_passed conditions i ≡ true)
        (get_instances kind providers conditions instances)
get_instances-passed kind providers conditions instances =
    subst (All (λ i. conditions_passed conditions i ≡ true))
      (sym (get_instances_lem kind providers conditions instances).0)
      (All-keep (conditions_passed conditions) (prepared_instances kind providers instances))

passed-behind :
    (before conditions : List (Option Condition)) (i : Instance)
    → conditions_passed (before ++ conditions) i ≡ true
    → conditions_passed conditions i ≡ true
unfolding conditions_passed
passed-behind [] conditions i h = h
passed-behind (c ∷ before) conditions i h = ground (arith, passed-behind before conditions i)

All-weaken :
    {P Q : Instance → Type 0} (is : List Instance)
    → ((i : Instance) → P i → Q i)
    → All P is
    → All Q is
All-weaken [] f h = tt
All-weaken (i ∷ is) f h = (f i h.0, All-weaken is f h.1)

built-passed :
    (r : Relation) (conditions : List (Option Condition)) (built : Option (List Condition))
    (is : List Instance)
    → elim built [
      | none ↦ none
      | some b ↦ some (
          get_instances r.destination_kind r.destination_providers
            (present b ++ conditions)
            r.destination_instances)
    ]
      ≡ some is
    → All (λ i. conditions_passed conditions i ≡ true) is
built-passed r conditions none is e = absurd (cc)
built-passed r conditions (some b) is e =
    let rel = present b ++ conditions in
    let found =
      get_instances r.destination_kind r.destination_providers rel r.destination_instances in
    let same : found ≡ is = cc in
    subst (All (λ i. conditions_passed conditions i ≡ true)) same (
      All-weaken found (passed-behind (present b) conditions) (
        get_instances-passed r.destination_kind r.destination_providers rel
          r.destination_instances))

related-passed :
    (r : Relation) (hash : ℕ) (conditions : List (Option Condition)) (is : List Instance)
    → get_related_instances (some r) hash conditions false ≡ some is
    → All (λ i. conditions_passed conditions i ≡ true) is
unfolding get_related_instances
related-passed r hash conditions is e =
    built-passed r conditions
      (get_conditions r.condition_build_rules r.source_members r.source_instances hash) is e

-- The instance passes the conditions, or it is the one that the path has selected, of the same entity.
pub Selects : IEntity → List (Option Condition) → RedfishContext → Instance → Type 0
Selects entity conditions ctx i =
    (conditions_passed conditions i ≡ true)
    ⊎ ((own : IEntity) × (ctx.parameter_ctx ≡ some (i, own)) × (own.name ≡ entity.name))

passed-Selects :
    (entity : IEntity) (conditions : List (Option Condition)) (ctx : RedfishContext)
    (is : List Instance)
    → All (λ i. conditions_passed conditions i ≡ true) is
    → All (Selects entity conditions ctx) is
unfolding Selects
passed-Selects entity conditions ctx is h = All-weaken is (λ i passed. inl passed) h

own_instances-Selects :
    (entity own : IEntity) (conditions : List (Option Condition)) (ctx : RedfishContext)
    (selected : Instance) (is : List Instance)
    → (if own.name == entity.name
        then some (if conditions_passed conditions selected then selected ∷ [] else [])
        else some (entity_instances entity conditions))
      ≡ some is
    → All (Selects entity conditions ctx) is
unfolding entity_instances
own_instances-Selects entity own conditions ctx selected is e =
    elim (Bool-cases (own.name == entity.name)) [
      | inl same ↦ elim (Bool-cases (conditions_passed conditions selected)) [
        | inl passed ↦
            let one : selected ∷ [] ≡ is = ground arith in
            subst (All (Selects entity conditions ctx)) one
              (passed-Selects entity conditions ctx (selected ∷ []) (passed, tt))
        | inr failed ↦
            let nothing : [] ≡ is = ground arith in
            subst (All (Selects entity conditions ctx)) nothing tt
      ]
      | inr different ↦
          let found : get_instances entity.kind entity.providers conditions entity.instances ≡ is =
            ground arith in
          subst (All (Selects entity conditions ctx)) found (
            passed-Selects entity conditions ctx _
              (get_instances-passed entity.kind entity.providers conditions entity.instances))
    ]

related-Selects :
    (entity own : IEntity) (conditions : List (Option Condition)) (ctx : RedfishContext)
    (selected : Instance) (related is : List Instance)
    → ctx.parameter_ctx ≡ some (selected, own)
    → All (λ i. conditions_passed conditions i ≡ true) related
    → (if is_empty related && own.name == entity.name then selected ∷ [] else related) ≡ is
    → All (Selects entity conditions ctx) is
unfolding Selects
related-Selects entity own conditions ctx selected [] is at passed e =
    elim (Bool-cases (own.name == entity.name)) [
      | inl same ↦
          let one : selected ∷ [] ≡ is = ground arith in
          subst (All (Selects entity conditions ctx)) one
            (inr (own, at, (text_beq_iff own.name entity.name).0 same), tt)
      | inr different ↦
          let nothing : [] ≡ is = ground arith in
          subst (All (Selects entity conditions ctx)) nothing tt
    ]
related-Selects entity own conditions ctx selected (i ∷ related) is at passed e =
    subst (All (Selects entity conditions ctx)) e
      (passed-Selects entity conditions ctx (i ∷ related) passed)

relation-Selects :
    (entity own : IEntity) (conditions : List (Option Condition)) (ctx : RedfishContext)
    (selected : Instance) (is : List Instance) (found : Option (List Instance))
    → ctx.parameter_ctx ≡ some (selected, own)
    → ((related : List Instance)
        → found ≡ some related
        → All (λ i. conditions_passed conditions i ≡ true) related)
    → elim found [
      | none ↦ none
      | some related ↦
          some (if is_empty related && own.name == entity.name then selected ∷ [] else related)
    ]
      ≡ some is
    → All (Selects entity conditions ctx) is
relation-Selects entity own conditions ctx selected is none at passed e = absurd (cc)
relation-Selects entity own conditions ctx selected is (some related) at passed e =
    related-Selects entity own conditions ctx selected related is at (passed related refl) (cc)

selected-Selects :
    (entity own : IEntity) (conditions : List (Option Condition)) (ctx : RedfishContext)
    (selected : Instance) (is : List Instance) (relation : Option Relation)
    → ctx.parameter_ctx ≡ some (selected, own)
    → elim relation [
      | none ↦
          if own.name == entity.name
          then some (if conditions_passed conditions selected then selected ∷ [] else [])
          else some (entity_instances entity conditions)
      | some r ↦ elim (get_related_instances (some r) selected.hash conditions false) [
        | none ↦ none
        | some related ↦
            some (if is_empty related && own.name == entity.name then selected ∷ [] else related)
      ]
    ]
      ≡ some is
    → All (Selects entity conditions ctx) is
selected-Selects entity own conditions ctx selected is none at e =
    own_instances-Selects entity own conditions ctx selected is e
selected-Selects entity own conditions ctx selected is (some r) at e =
    relation-Selects entity own conditions ctx selected is
      (get_related_instances (some r) selected.hash conditions false) at
      (λ related found. related-passed r selected.hash conditions related found) e

behind-Selects :
    (entity : IEntity) (conditions : List (Option Condition)) (ctx : RedfishContext)
    (p : ParameterCtx) (is : List Instance)
    → ctx.parameter_ctx ≡ p
    → context_instances entity conditions (record ctx { parameter_ctx = p }) ≡ some is
    → All (Selects entity conditions ctx) is
unfolding context_instances entity_instances
behind-Selects entity conditions ctx none is at e =
    let found : get_instances entity.kind entity.providers conditions entity.instances ≡ is = cc in
    subst (All (Selects entity conditions ctx)) found (
      passed-Selects entity conditions ctx _
        (get_instances-passed entity.kind entity.providers conditions entity.instances))
behind-Selects entity conditions ctx (some (selected, own)) is at e =
    selected-Selects entity own conditions ctx selected is (get_relation entity.name own.relations)
      at e

-- Every instance that a request is given passes all the conditions, or it is the one that the path
-- has selected, of an entity with the same name.
pub context_instances_sound :
    (entity : IEntity) (conditions : List (Option Condition)) (ctx : RedfishContext)
    (is : List Instance)
    → context_instances entity conditions ctx ≡ some is
    → All (Selects entity conditions ctx) is
context_instances_sound entity conditions ctx is e =
    behind-Selects entity conditions ctx ctx.parameter_ctx is refl e
