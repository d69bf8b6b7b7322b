-- ===== src/Entity/Store.antt =====
-- The instances that an entity keeps, and what is read of them (src/core/entity/entity.cpp). The
-- mutex is not modelled: each operation is one step.
pub mod Occurs
pub mod Select
pub mod Selected
pub mod Steps
use obmc_yadro_webapp.Prelude.{
  ℕ, ◌≡◌, Bool, true, false, Option, none, some, List, [], ◌∷◌, ◌++◌, map, if◌then◌else◌, Eq, ◌==◌,
  nat_eq, text_eq, lookup, emplace, erase,
}
use obmc_yadro_webapp.Prelude.Ordered.{assign_ordered}
use obmc_yadro_webapp.Prelude.Text.{Text, text}
use obmc_yadro_webapp.Entity.{Instance, Condition, check_condition}

-- What the kinds of instances do differently: `supplementOrUpdate` from another instance (the first
-- argument), where `none` is an exception, `initDefaultFieldsValue` and `verifyState`. None of them
-- changes the identity.
pub record InstanceKind : Type 0 where
  pub supplement_or_update_from : Instance → Instance → Option Instance
  pub init_default_fields_value : Instance → Instance
  pub verify_state : Instance → Instance
  pub supplement_hash :
      (destination i next : Instance)
      → supplement_or_update_from destination i ≡ some next
      → next.hash ≡ i.hash
  pub init_hash : (i : Instance) → (init_default_fields_value i).hash ≡ i.hash
  pub verify_hash : (i : Instance) → (verify_state i).hash ≡ i.hash

-- A provider: what its `getInstances` gives, and the rule that links one of these (the first
-- argument) to an instance, which changes that instance's fields.
pub record Provider : Type 0 where
  pub provider_instances : List Instance
  pub link_rule : Instance → Instance → Instance
  pub link_hash : (s target : Instance) → (link_rule s target).hash ≡ target.hash

-- An instance with the instances that it is complex by, under their hashes. Those have no parts.
pub record Stored : Type 0 where
  pub self : Instance
  pub complex_instances : List (ℕ × Instance)

-- `instances`, in the order of the hashes.
abbrev pub Instances : Type 0
Instances = List (ℕ × Stored)

unfoldable pub get_instance : ℕ → Instances → Option Stored
get_instance hash instances = lookup hash instances

unfoldable pub set_instances : List Stored → Instances → Instances
set_instances [] instances = instances
set_instances (input ∷ inputs) instances =
    set_instances inputs (assign_ordered input.self.hash input instances)

unfoldable pub remove_instance : ℕ → Instances → Instances
remove_instance hash instances = erase hash instances

-- The entity's own part of `resetCache`.
unfoldable pub reset_cache : Instances → Instances
reset_cache instances = []

-- `supplementInstance` of one provider.
unfoldable pub supplement_instance :
    (Instance → Instance → Instance) → List Instance → Instance → Instance
supplement_instance link_rule [] target = target
supplement_instance link_rule (i ∷ rest) target =
    supplement_instance link_rule rest (link_rule i target)

unfoldable pub supplement_all : List Provider → Instance → Instance
unfolding supplement_instance
supplement_all [] target = target
supplement_all (p ∷ providers) target =
    supplement_all providers (supplement_instance p.link_rule p.provider_instances target)

module _ (kind : InstanceKind) where
  -- The instance that is stored now, and the cache. An instance that is there keeps its parts.
  -- `mergeInternalMetadata` changes no field.
  unfoldable pub merge_instance : Stored → Instances → Option (Stored × Instances)
  merge_instance input instances = elim (lookup input.self.hash instances) [
    | none ↦ some (input, assign_ordered input.self.hash input instances)
    | some found ↦ elim (kind.supplement_or_update_from input.self found.self) [
      | none ↦ none
      | some merged ↦
          let stored = record found { self = merged } in
          some (stored, assign_ordered input.self.hash stored instances)
    ]
  ]

  unfoldable pub prepared : List Provider → Instance → Instance
  unfolding supplement_all
  prepared providers i = supplement_all providers (kind.verify_state i)

  -- `initDefaultFieldsValue` and `getComplex`, with the instance itself among its parts.
  unfoldable pub with_self : Stored → List (ℕ × Instance)
  with_self stored =
      let self = kind.init_default_fields_value stored.self in
      assign_ordered self.hash self stored.complex_instances

-- The loop over the conditions stops at the first that fails.
unfoldable pub conditions_passed : List (Option Condition) → Instance → Bool
conditions_passed [] i = true
conditions_passed (condition ∷ conditions) i =
    let rest = conditions_passed conditions i in if check_condition condition i then rest else false

module _ (kind : InstanceKind) (providers : List Provider)
    (conditions : List (Option Condition)) where
  -- The inner loop, over the instance and its parts.
  unfoldable pub visit_complex : List (ℕ × Instance) → List Instance → List Instance
  unfolding prepared conditions_passed
  visit_complex [] result = result
  visit_complex ((key, i) ∷ rest) result =
      let ready = prepared kind providers i in
      visit_complex rest
        (if conditions_passed conditions ready then result ++ ready ∷ [] else result)

  -- The outer loop.
  unfoldable pub visit_instances : Instances → List Instance → List Instance
  unfolding visit_complex with_self
  visit_instances [] result = result
  visit_instances ((key, stored) ∷ rest) result =
      visit_instances rest (visit_complex (with_self kind stored) result)

  -- What `getInstances` returns.
  unfoldable pub get_instances : Instances → List Instance
  unfolding visit_instances
  get_instances instances = visit_instances instances []

module _ (kind : InstanceKind) (providers : List Provider) where
  -- The loops work on the shared objects: what they leave of a stored instance. A part under the
  -- instance's own hash is not visited.
  unfoldable pub touched_parts : ℕ → List (ℕ × Instance) → List (ℕ × Instance)
  unfolding prepared
  touched_parts own [] = []
  touched_parts own ((key, i) ∷ rest) =
      (key, if key == own then i else prepared kind providers i) ∷ touched_parts own rest

  unfoldable pub touched : Stored → Stored
  unfolding prepared touched_parts
  touched stored =
      let self = kind.init_default_fields_value stored.self in
      record {
        self = prepared kind providers self;
        complex_instances = touched_parts self.hash stored.complex_instances;
      }

  -- The cache after `getInstances`.
  unfoldable pub touch_instances : Instances → Instances
  unfolding touched
  touch_instances instances = map (λ entry. (entry.0, touched entry.1)) instances
