-- ===== src/Entity/Merge.antt =====
-- What an instance holds after it was supplemented from another one (src/core/entity/entity.cpp).
use obmc_yadro_webapp.Prelude.{
  ◌≡◌, ◌∙◌, ap, refl, inl, inr, Bool, true, false, Option, none, some, List, [], ◌∷◌, map,
  if◌then◌else◌, ◌==◌, text_eq, text_beq_iff, lookup, emplace, lookup-emplace_new,
  lookup-insert_or_assign, emplace-IsDict, insert_or_assign-IsDict, IsDict, any_of, arith,
  Bool-cases, Option-cases,
}
use obmc_yadro_webapp.Prelude.Text.{Text}
use obmc_yadro_webapp.Entity.{
  FieldType, Field, Instance, get_value, get_field, has_field, set_field, supplement,
  supplement_or_update, supplement_members, get_member_names, supplement_from,
}

lookup-has_field :
    (member : Text) (i : Instance)
    → has_field member i ≡ false
    → lookup member i.member_instances ≡ none
unfolding has_field
lookup-has_field member i h = elim (Option-cases (lookup member i.member_instances)) [
  | inl missed ↦ missed
  | inr (f, found) ↦ cc
]

pub supplement_or_update_lem :
    (member : Text) (value : FieldType) (i : Instance)
    → (next : Instance) × (supplement_or_update member value i ≡ some next)
      × ((j : Text)
          → lookup j next.member_instances
            ≡ (if member == j then some (some value) else lookup j i.member_instances))
      × (next.hash ≡ i.hash)
      × (IsDict i.member_instances → IsDict next.member_instances)
unfolding supplement_or_update supplement set_field
supplement_or_update_lem member value i = elim (Bool-cases (has_field member i)) [
  | inl there ↦ (
    set_field member value i,
    rw there refl,
    λ j. lookup-insert_or_assign member j (some value) i.member_instances,
    refl,
    insert_or_assign-IsDict member (some value) i.member_instances,
  )
  | inr absent ↦ (
    record i { member_instances = emplace member (some value) i.member_instances },
    rw absent refl,
    λ j.
        lookup-emplace_new member j (some value) i.member_instances
          (lookup-has_field member i absent),
    refl,
    emplace-IsDict member (some value) i.member_instances,
  )
]

-- Of two changes of one member the later one stands; both write the destination's value.
later_change :
    (m j : Text) (later : Bool) (destination : Instance) (last middle first : Option Field)
    → last ≡ (if later then some (some (get_value (get_field j destination))) else middle)
    → middle ≡ (if m == j then some (some (get_value (get_field m destination))) else first)
    → last ≡ (
        if (if m == j then true else later)
        then some (some (get_value (get_field j destination)))
        else first)
later_change m j true destination last middle first e f = elim (Bool-cases (m == j)) [
  | inl same ↦ rw same e
  | inr other ↦ rw other e
]
later_change m j false destination last middle first e f = elim (Bool-cases (m == j)) [
  | inl same ↦ rw same (
      e
      ∙ rw same at f
      ∙ ap (λ t. some (some (get_value (get_field t destination)))) ((text_beq_iff m j).0 same))
  | inr other ↦ rw other (e ∙ rw other at f)
]

pub supplement_members_lem :
    (members : List Text) (destination i : Instance)
    → (next : Instance) × (supplement_members members destination i ≡ some next)
      × ((j : Text)
          → lookup j next.member_instances ≡ (
              if any_of (λ m. m == j) members
              then some (some (get_value (get_field j destination)))
              else lookup j i.member_instances))
      × (next.hash ≡ i.hash)
      × (IsDict i.member_instances → IsDict next.member_instances)
unfolding supplement_members
supplement_members_lem [] destination i = (i, refl, λ j. refl, refl, λ d. d)
supplement_members_lem (m ∷ members) destination i =
    let step = supplement_or_update_lem m (get_value (get_field m destination)) i in
    let rest = supplement_members_lem members destination step.0 in
    (
      rest.0,
      rw (step.1, supplement_members) rest.1,
      λ j.
          later_change m j (any_of (λ n. n == j) members) destination
            (lookup j rest.0.member_instances) (lookup j step.0.member_instances)
            (lookup j i.member_instances) (rest.2 j) (step.2 j),
      rest.3 ∙ step.3,
      λ d. rest.4 (step.4 d),
    )

any_of-names :
    (j : Text) (m : List (Text × Field))
    → any_of (λ n. n == j) (map (λ p. p.0) m) ≡ elim (lookup j m) [ none ↦ false | some f ↦ true ]
unfolding lookup
any_of-names j [] = refl
any_of-names j ((k, f) ∷ m) = ground (arith, any_of-names j m)

pub named_value :
    (j : Text) (destination : Instance) (last first : Option Field)
    → last ≡ (
        if any_of (λ n. n == j) (map (λ p. p.0) destination.member_instances)
        then some (some (get_value (get_field j destination)))
        else first)
    → last ≡ elim (lookup j destination.member_instances) [
      | none ↦ first
      | some f ↦ some (some (get_value f))
    ]
unfolding get_field
named_value j destination last first e =
    let names = any_of-names j destination.member_instances in
    elim (Option-cases (lookup j destination.member_instances)) [
      | inl missed ↦ rw missed (e ∙ rw (names, missed) refl)
      | inr (f, found) ↦
          let held : get_field j destination ≡ f = rw (get_field, found) refl in
          rw found (e ∙ rw (names, found) (ap (λ t. some (some (get_value t))) held))
    ]

-- Supplementing an instance from another one never fails. Behind it a member has the other's value,
-- where the other has that member, and otherwise what it had; a member that is null there gets the
-- text for a missing value. The identity is the same, and no member stands twice.
pub supplement_from_lem :
    (destination i : Instance)
    → IsDict i.member_instances
    → (next : Instance) × (supplement_from destination i ≡ some next)
      × ((j : Text)
          → lookup j next.member_instances ≡ elim (lookup j destination.member_instances) [
            | none ↦ lookup j i.member_instances
            | some f ↦ some (some (get_value f))
          ])
      × (next.hash ≡ i.hash)
      × IsDict next.member_instances
unfolding supplement_from get_member_names
supplement_from_lem destination i d =
    let done = supplement_members_lem (get_member_names destination) destination i in
    (
      done.0,
      done.1,
      λ j.
          named_value j destination (lookup j done.0.member_instances) (lookup j i.member_instances)
            (done.2 j),
      done.3,
      done.4 d,
    )
