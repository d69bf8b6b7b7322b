-- ===== src/Entity/Relation/Laws.antt =====
-- Which instances of another entity an instance is related to (src/core/entity/entity.cpp).
use obmc_yadro_webapp.Prelude.{
  ℕ, ◌≡◌, ◌≢◌, ◌∙◌, ap, refl, inl, inr, Bool, true, false, some, List, [], ◌∷◌, ◌==◌, nat_eq,
  text_eq, text_beq_iff, keep, arith, Bool-cases,
}
use obmc_yadro_webapp.Prelude.Text.{Text}
use obmc_yadro_webapp.Entity.{
  FieldType, Instance, get_value, get_field, CompareCallback, check_condition, dummy_field,
  add_rule, field_value_compare, compare_rules,
}
use obmc_yadro_webapp.Entity.Store.{Stored, Instances, get_instance, conditions_passed}
use obmc_yadro_webapp.Entity.Store.Select.{prepared_instances, get_instances_lem}
use obmc_yadro_webapp.Entity.Relation.{
  Members, RuleSet, get_member, get_conditions, Relation, present, get_related_instances,
}

keep-equal :
    (p q : Instance → Bool) (is : List Instance)
    → ((i : Instance) → p i ≡ q i)
    → keep p is ≡ keep q is
keep-equal p q [] h = refl
keep-equal p q (i ∷ is) h = ground (arith, h i, keep-equal p q is h)

one_rule :
    (member : Text) (value : FieldType) (compare : CompareCallback) (i : Instance)
    → (dummy_field == member) ≡ false
    → conditions_passed (some ((member, value, compare) ∷ []) ∷ []) i
      ≡ compare (some (get_field member i)) value
unfolding conditions_passed check_condition field_value_compare compare_rules
one_rule member value compare i e = elim (Bool-cases (compare (some (get_field member i)) value)) [
  | inl passed ↦ ground arith
  | inr failed ↦ ground arith
]

other_member : (member : Text) → member ≢ dummy_field → (member == dummy_field) ≡ false
other_member member n = ground (arith, text_beq_iff member dummy_field)

dummy_member : (member : Text) → member ≢ dummy_field → (dummy_field == member) ≡ false
dummy_member member n = ground (arith, text_beq_iff dummy_field member)

built_conditions :
    (rules : List RuleSet) (scope : Members) (source : Instances) (hash : ℕ) (stored : Stored)
    (member_source member_dest : Text) (compare : CompareCallback)
    → rules ≡ (member_source, member_dest, compare) ∷ []
    → member_source ≢ dummy_field
    → get_member member_source scope ≡ some member_source
    → get_instance hash source ≡ some stored
    → get_conditions rules scope source hash
      ≡ some (((member_dest, get_value (get_field member_source stored.self), compare) ∷ []) ∷ [])
unfolding get_conditions add_rule
built_conditions rules scope source hash stored member_source member_dest compare e n known there =
    let named = other_member member_source n in rw (e, get_conditions, named, known, there) refl

-- An instance with a field is related, by a rule that compares that field, to exactly those
-- initialised instances of the destination whose own field compares with its value.
pub get_related_instances_lem :
    (r : Relation) (hash : ℕ) (stored : Stored) (member_source member_dest : Text)
    (compare : CompareCallback)
    → r.condition_build_rules ≡ (member_source, member_dest, compare) ∷ []
    → member_source ≢ dummy_field
    → member_dest ≢ dummy_field
    → get_member member_source r.source_members ≡ some member_source
    → get_instance hash r.source_instances ≡ some stored
    → get_related_instances (some r) hash [] true
      ≡ some (
          keep
            (λ i.
              compare
                (some (get_field member_dest i))
                (get_value (get_field member_source stored.self)))
            (prepared_instances r.destination_kind r.destination_providers r.destination_instances))
unfolding get_related_instances present
get_related_instances_lem r hash stored member_source member_dest compare e n m known there =
    let value = get_value (get_field member_source stored.self) in
    let conditions = some ((member_dest, value, compare) ∷ []) ∷ [] in
    let built =
      built_conditions r.condition_build_rules r.source_members r.source_instances hash stored
        member_source member_dest compare e n known there in
    rw (get_related_instances, built)
      (ap some (
        (get_instances_lem r.destination_kind r.destination_providers conditions
          r.destination_instances).0
        ∙ keep-equal (conditions_passed conditions)
            (λ i. compare (some (get_field member_dest i)) value)
            (prepared_instances r.destination_kind r.destination_providers r.destination_instances)
            (λ i. one_rule member_dest value compare i (dummy_member member_dest m))))
