-- ===== src/Entity/Store/Select.antt =====
-- Which instances `getInstances` selects (src/core/entity/entity.cpp).
use obmc_yadro_webapp.Prelude.{
  ℕ, ◌≡◌, ◌↔◌, ◌∙◌, ap, refl, sym, inl, inr, Bool, true, Option, List, [], ◌∷◌, ◌++◌, append-nil,
  append_assoc, nat_eq, keep, All, arith, Bool-cases,
}
use obmc_yadro_webapp.Entity.{Instance, Condition, check_condition}
use obmc_yadro_webapp.Entity.Store.{
  InstanceKind, Provider, Instances, prepared, conditions_passed, visit_complex, with_self,
  visit_instances, get_instances,
}

pub conditions_passed_iff :
    (conditions : List (Option Condition)) (i : Instance)
    → (conditions_passed conditions i ≡ true)
      ↔ All (λ condition. check_condition condition i ≡ true) conditions
unfolding conditions_passed
conditions_passed_iff [] i = ground arith
conditions_passed_iff (condition ∷ conditions) i =
    ground (arith, conditions_passed_iff conditions i)

keep-append :
    (p : Instance → Bool) (xs ys : List Instance) → keep p (xs ++ ys) ≡ keep p xs ++ keep p ys
keep-append p [] ys = refl
keep-append p (x ∷ xs) ys = ground (arith, keep-append p xs ys)

module _ (kind : InstanceKind) (providers : List Provider) where
  -- The instances and their parts, initialised and supplemented, in the order of the hashes.
  abbrev pub prepared_parts : List (ℕ × Instance) → List Instance
  prepared_parts [] = []
  prepared_parts ((key, i) ∷ rest) = prepared kind providers i ∷ prepared_parts rest

  abbrev pub prepared_instances : Instances → List Instance
  prepared_instances [] = []
  prepared_instances ((key, stored) ∷ rest) =
      prepared_parts (with_self kind stored) ++ prepared_instances rest

  module _ (conditions : List (Option Condition)) where
    visit_complex_lem :
        (parts : List (ℕ × Instance)) (result : List Instance)
        → visit_complex kind providers conditions parts result
          ≡ result ++ keep (conditions_passed conditions) (prepared_parts parts)
    unfolding visit_complex
    visit_complex_lem [] result = sym (append-nil result)
    visit_complex_lem ((key, i) ∷ rest) result =
        elim (Bool-cases (conditions_passed conditions (prepared kind providers i))) [
          | inl passed ↦ rw passed (
              visit_complex_lem rest (result ++ prepared kind providers i ∷ [])
              ∙ append_assoc result (prepared kind providers i ∷ [])
                  (keep (conditions_passed conditions) (prepared_parts rest)))
          | inr failed ↦ rw failed (visit_complex_lem rest result)
        ]

    visit_instances_lem :
        (instances : Instances) (result : List Instance)
        → visit_instances kind providers conditions instances result
          ≡ result ++ keep (conditions_passed conditions) (prepared_instances instances)
    unfolding visit_instances
    visit_instances_lem [] result = sym (append-nil result)
    visit_instances_lem ((key, stored) ∷ rest) result =
        let parts = prepared_parts (with_self kind stored) in
        let passes = keep (conditions_passed conditions) in
        visit_instances_lem rest
          (visit_complex kind providers conditions (with_self kind stored) result)
        ∙ ap (λ r. r ++ passes (prepared_instances rest))
            (visit_complex_lem (with_self kind stored) result)
        ∙ append_assoc result (passes parts) (passes (prepared_instances rest))
        ∙ ap (λ r. result ++ r)
            (sym (keep-append (conditions_passed conditions) parts (prepared_instances rest)))

  -- `getInstances` gives exactly the initialised and supplemented instances, and parts of complex
  -- ones, that pass every condition, in the order of the hashes.
  pub get_instances_lem :
      (conditions : List (Option Condition)) (instances : Instances)
      → (get_instances kind providers conditions instances
          ≡ keep (conditions_passed conditions) (prepared_instances instances))
        × ((i : Instance)
            → (conditions_passed conditions i ≡ true)
              ↔ All (λ condition. check_condition condition i ≡ true) conditions)
  unfolding get_instances
  get_instances_lem conditions instances =
      (visit_instances_lem conditions instances [], conditions_passed_iff conditions)
