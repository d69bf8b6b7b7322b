-- ===== src/Dbus/Meta.antt =====
-- The description of an object that its instance keeps (src/core/entity/dbus_query.cpp).
use obmc_yadro_webapp.Prelude.{
  ◌≡◌, ◌∙◌, ap, refl, inl, inr, Bool, false, not, Option, none, some, List, [], ◌∷◌, keep, map,
  if◌then◌else◌, ◌==◌, text_eq, text_beq_iff, lookup, any_of, arith, Bool-cases, Option-cases,
}
use obmc_yadro_webapp.Prelude.Text.{Text, text, starts_with}
use obmc_yadro_webapp.Entity.{
  Instance, get_value, get_field, get_member_names, supplement_members, supplement_or_update, Field,
}
use obmc_yadro_webapp.Entity.Merge.{supplement_members_lem, named_value}
use obmc_yadro_webapp.Dbus.{supplement_from_dbus_members, supplement_from_dbus}

abbrev pub is_meta : Text → Bool
is_meta member = starts_with (text "__meta_") member

any_of-keep :
    (p : Text → Bool) (j : Text) (names : List Text)
    → any_of (λ n. n == j) (keep (λ n. not (p n)) names)
      ≡ (if p j then false else any_of (λ n. n == j) names)
any_of-keep p j [] = ground arith
any_of-keep p j (n ∷ names) = elim (Bool-cases (n == j)) [
  | inl same ↦
      let equal : p n ≡ p j = ap p ((text_beq_iff n j).0 same) in
      elim (Bool-cases (p j)) [
        | inl meta ↦ ground (arith, any_of-keep p j names)
        | inr plain ↦ ground (arith, any_of-keep p j names)
      ]
  | inr other ↦ ground (arith, any_of-keep p j names)
]

supplement_from_dbus_members-keep :
    (names : List Text) (destination i : Instance)
    → supplement_from_dbus_members names destination i
      ≡ supplement_members (keep (λ n. not (is_meta n)) names) destination i
unfolding supplement_from_dbus_members supplement_members
supplement_from_dbus_members-keep [] destination i = refl
supplement_from_dbus_members-keep (n ∷ names) destination i = elim (Bool-cases (is_meta n)) [
  | inl meta ↦ rw meta (supplement_from_dbus_members-keep names destination i)
  | inr plain ↦
      elim (Option-cases (supplement_or_update n (get_value (get_field n destination)) i)) [
        | inl failed ↦ rw (plain, failed, supplement_from_dbus_members, supplement_members) refl
        | inr (next, went) ↦
            rw (plain, went, supplement_from_dbus_members, supplement_members)
              (supplement_from_dbus_members-keep names destination next)
      ]
]

described_value :
    (j : Text) (destination : Instance) (last first : Option Field)
    → last ≡ (
        if any_of
          (λ n. n == j)
          (keep (λ n. not (is_meta n)) (map (λ p. p.0) destination.member_instances))
        then some (some (get_value (get_field j destination)))
        else first)
    → last ≡ (
        if is_meta j then first else elim (lookup j destination.member_instances) [
          | none ↦ first
          | some f ↦ some (some (get_value f))
        ])
described_value j destination last first e =
    let names = map (λ (p : Text × Field). p.0) destination.member_instances in
    let kept = any_of-keep is_meta j names in
    elim (Bool-cases (is_meta j)) [
      | inl meta ↦ rw meta (e ∙ rw (kept, meta) refl)
      | inr plain ↦ rw plain (named_value j destination last first (e ∙ rw (kept, plain) refl))
    ]

-- Supplementing an object's instance from another one never fails and leaves the members that
-- describe the object, those that begin with `__meta_`, as they are. Every other member has the
-- other's value, where the other has that member, and otherwise what it had.
pub supplement_from_dbus_lem :
    (destination i : Instance)
    → (next : Instance) × (supplement_from_dbus destination i ≡ some next)
      × ((j : Text)
          → lookup j next.member_instances ≡ (
              if is_meta j
              then lookup j i.member_instances
              else elim (lookup j destination.member_instances) [
                | none ↦ lookup j i.member_instances
                | some f ↦ some (some (get_value f))
              ]))
      × (next.hash ≡ i.hash)
unfolding supplement_from_dbus get_member_names
supplement_from_dbus_lem destination i =
    let names = get_member_names destination in
    let done = supplement_members_lem (keep (λ n. not (is_meta n)) names) destination i in
    (
      done.0,
      supplement_from_dbus_members-keep names destination i ∙ done.1,
      λ j.
          described_value j destination (lookup j done.0.member_instances)
            (lookup j i.member_instances) (done.2 j),
      done.3,
    )
