-- ===== src/Redfish/Context/Verified.antt =====
-- What the check of a parameter of a Redfish path finds (src/core/route/redfish/response.hpp).
use obmc_yadro_webapp.Prelude.{
  ◌≡◌, ◌∙◌, ◌⊎◌, refl, inl, inr, true, false, Option, none, some, List, [], ◌∷◌, ◌==◌, text_eq,
  if◌then◌else◌, insert_or_assign, lookup, lookup-insert_or_assign, beq_refl,
}
use obmc_yadro_webapp.Prelude.Text.{Text}
use obmc_yadro_webapp.Entity.{Instance, Condition}
use obmc_yadro_webapp.Redfish.Context.{
  RedfishContext, ParameterCtx, IEntity, context_instances, verify_parameter,
  get_parameter_instance,
}
use obmc_yadro_webapp.Redfish.Context.Select.{Selects, context_instances_sound}

-- The outcome of the check of a parameter.
pub Verified : IEntity → List (Option Condition) → Text → Text → RedfishContext → Type 0
Verified entity conditions value other ctx =
    ((context_instances entity conditions ctx ≡ none)
      × (verify_parameter entity conditions value ctx ≡ none))
    ⊎ ((context_instances entity conditions ctx ≡ some [])
        × (verify_parameter entity conditions value ctx ≡ some (ctx, false)))
    ⊎ ((first : Instance) × (others : List Instance) × (after : RedfishContext) × (context_instances
            entity conditions ctx
          ≡ some (first ∷ others))
        × (verify_parameter entity conditions value ctx ≡ some (after, true))
        × Selects entity conditions ctx first
        × (after.parameter_ctx ≡ some (first, entity))
        × (get_parameter_instance value after ≡ some (some first))
        × (lookup other after.parameters
            ≡ (if value == other then some (some (first, entity)) else lookup other ctx.parameters))
        × (after.answer ≡ ctx.answer))

verified :
    (entity : IEntity) (conditions : List (Option Condition)) (value other : Text)
    (ctx : RedfishContext) (found : Option (List Instance))
    → context_instances entity conditions ctx ≡ found
    → Verified entity conditions value other ctx
unfolding Verified verify_parameter get_parameter_instance
verified entity conditions value other ctx none e = inl (e, rw (verify_parameter, e) refl)
verified entity conditions value other ctx (some []) e =
    inr (inl (e, rw (verify_parameter, e) refl))
verified entity conditions value other ctx (some (first ∷ others)) e =
    let kept : ParameterCtx = some (first, entity) in
    let self : lookup value (insert_or_assign value kept ctx.parameters) ≡ some kept =
      lookup-insert_or_assign value value kept ctx.parameters ∙ rw (beq_refl value) refl in
    inr (
      inr (
        first,
        others,
        record ctx {
          parameter_ctx = kept;
          parameters = insert_or_assign value kept ctx.parameters;
        },
        e,
        rw (verify_parameter, e) refl,
        (context_instances_sound entity conditions ctx (first ∷ others) e).0,
        refl,
        rw (get_parameter_instance, self) refl,
        lookup-insert_or_assign value other kept ctx.parameters,
        refl,
      ))

-- A parameter is accepted exactly if the context gives an instance under its conditions. The first
-- of these is then selected and found under the parameter's value, the instances of other values
-- stay, and so does the answer; otherwise nothing changes. An exception of the search leaves the
-- check.
pub verify_parameter_lem :
    (entity : IEntity) (conditions : List (Option Condition)) (value other : Text)
    (ctx : RedfishContext)
    → Verified entity conditions value other ctx
verify_parameter_lem entity conditions value other ctx =
    verified entity conditions value other ctx (context_instances entity conditions ctx) refl
