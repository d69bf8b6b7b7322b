-- ===== src/Entity/Store/Selected.antt =====
-- Which instances `getInstances` gives, one by one (src/core/entity/entity.cpp).
use obmc_yadro_webapp.Prelude.{
  ℕ, ◌≡◌, ◌≢◌, ◌⊎◌, ◌↔◌, ◌∙◌, ap, refl, sym, inl, inr, true, Option, List, [], ◌∷◌, nat_eq, keep,
  All,
}
use mathlib.Core.Path.{subst}
use obmc_yadro_webapp.Prelude.Ordered.{IsOrdered, assign_ordered-IsOrdered}
use obmc_yadro_webapp.Entity.{Instance, Condition, check_condition}
use obmc_yadro_webapp.Entity.Store.{
  InstanceKind, Provider, Stored, Instances, prepared, conditions_passed, with_self, supplement_all,
  get_instances,
}
use obmc_yadro_webapp.Entity.Store.Select.{
  prepared_parts, prepared_instances, conditions_passed_iff, get_instances_lem,
}
use obmc_yadro_webapp.Entity.Store.Occurs.{
  Occurs, Occurs-append, Occurs-keep, Set, Occurs-assign_ordered,
}

-- The parts of every complex instance stand under rising hashes.
abbrev pub HasOrderedParts : Instances → Type 0
HasOrderedParts instances = All (λ entry. IsOrdered entry.1.complex_instances) instances

module _ (kind : InstanceKind) (providers : List Provider) where
  -- The instances behind a stored one: itself, with its default fields, and its parts, but for one that
  -- stands under its own hash.
  unfoldable pub IsPart : Stored → Instance → Type 0
  IsPart stored raw =
      let self = kind.init_default_fields_value stored.self in
      (self ≡ raw) ⊎ ((key : ℕ) × (key ≢ self.hash) × Occurs (key, raw) stored.complex_instances)

  with_self-IsPart :
      (stored : Stored) (raw : Instance)
      → IsOrdered stored.complex_instances
      → ((key : ℕ) × Occurs (key, raw) (with_self kind stored)) ↔ IsPart stored raw
  unfolding with_self IsPart Set
  with_self-IsPart stored raw h =
      let self = kind.init_default_fields_value stored.self in
      (
        λ (key, o).
            elim ((Occurs-assign_ordered self.hash self (key, raw) stored.complex_instances h).0
              o) [
                | inl set ↦ inl (ap (λ (f : ℕ × Instance). f.1) set)
                | inr (other, kept) ↦ inr (key, other, kept)
              ],
        λ p. elim p [
          | inl same ↦ (
            self.hash,
            (Occurs-assign_ordered self.hash self (self.hash, raw) stored.complex_instances h).1
                (inl (ap (λ (r : Instance). (self.hash, r)) same)),
          )
          | inr (key, other, kept) ↦ (
            key,
            (Occurs-assign_ordered self.hash self (key, raw) stored.complex_instances h).1
                (inr (other, kept)),
          )
        ],
      )

  prepared_parts-Occurs :
      (i : Instance) (parts : List (ℕ × Instance))
      → Occurs i (prepared_parts kind providers parts) ↔ (
          (key : ℕ) × (raw : Instance) × Occurs (key, raw) parts
          × (prepared kind providers raw ≡ i))
  unfolding Occurs
  prepared_parts-Occurs i [] = (λ o. absurd o, λ (key, raw, o, e). absurd o)
  prepared_parts-Occurs i ((k, r) ∷ parts) = (
    λ o. elim o [
      | inl here ↦ (k, r, inl refl, here)
      | inr there ↦
          let (key, raw, o', e) = (prepared_parts-Occurs i parts).0 there in (key, raw, inr o', e)
    ],
    λ (key, raw, o, e). elim o [
      | inl here ↦ inl (ap (λ (f : ℕ × Instance). prepared kind providers f.1) here ∙ e)
      | inr there ↦ inr ((prepared_parts-Occurs i parts).1 (key, raw, there, e))
    ],
  )

  -- An instance behind a stored one, verified and supplemented by every provider.
  unfoldable pub IsPrepared : Instances → Instance → Type 0
  IsPrepared instances i =
      (key : ℕ) × (stored : Stored) × (raw : Instance) × Occurs (key, stored) instances
      × IsPart stored raw
      × (supplement_all providers (kind.verify_state raw) ≡ i)

  prepared_instances-IsPrepared :
      (i : Instance) (instances : Instances)
      → HasOrderedParts instances
      → Occurs i (prepared_instances kind providers instances) ↔ IsPrepared instances i
  unfolding Occurs IsPrepared prepared
  prepared_instances-IsPrepared i [] h = (λ o. absurd o, λ p. absurd p.3)
  prepared_instances-IsPrepared i ((k, s) ∷ instances) h =
      let parts = prepared_parts kind providers (with_self kind s) in
      let split = Occurs-append i parts (prepared_instances kind providers instances) in
      (
        λ o. elim (split.0 o) [
          | inl here ↦
              let (key, raw, o', e) = (prepared_parts-Occurs i (with_self kind s)).0 here in
              (k, s, raw, inl refl, (with_self-IsPart s raw h.0).0 (key, o'), e)
          | inr there ↦
              let (key, stored, raw, o', p, e) =
                (prepared_instances-IsPrepared i instances h.1).0 there in
              (key, stored, raw, inr o', p, e)
        ],
        λ (key, stored, raw, o, p, e). elim o [
          | inl here ↦
              let own : IsPart s raw = subst (λ (f : ℕ × Stored). IsPart f.1 raw) (sym here) p in
              let (hash, o') = (with_self-IsPart s raw h.0).1 own in
              split.1 (inl ((prepared_parts-Occurs i (with_self kind s)).1 (hash, raw, o', e)))
          | inr there ↦ split.1 (
              inr
                ((prepared_instances-IsPrepared i instances h.1).1 (key, stored, raw, there, p, e)))
        ],
      )

  with_self-IsOrdered :
      (instances : Instances)
      → HasOrderedParts instances
      → All (λ entry. IsOrdered (with_self kind entry.1)) instances
  unfolding with_self
  with_self-IsOrdered [] h = tt
  with_self-IsOrdered ((k, s) ∷ instances) h =
      let self = kind.init_default_fields_value s.self in
      (
        assign_ordered-IsOrdered self.hash self s.complex_instances h.0,
        with_self-IsOrdered instances h.1,
      )

  -- Where the parts of each stored instance stand under rising hashes, `getInstances` gives an instance
  -- exactly if it stands behind a stored one, itself with its default fields or a part under another
  -- hash, verified and supplemented by every provider, and passes every condition. They are given in
  -- the order in which the cache is walked, and those behind one stored instance by rising hashes.
  pub get_instances_iff :
      (conditions : List (Option Condition)) (instances : Instances) (i : Instance)
      → HasOrderedParts instances
      → (Occurs i (get_instances kind providers conditions instances) ↔ (
          IsPrepared instances i
          × All (λ condition. check_condition condition i ≡ true) conditions))
        × (get_instances kind providers conditions instances
            ≡ keep (conditions_passed conditions) (prepared_instances kind providers instances))
        × All (λ entry. IsOrdered (with_self kind entry.1)) instances
  get_instances_iff conditions instances i h =
      let given = (get_instances_lem kind providers conditions instances).0 in
      let walked = prepared_instances kind providers instances in
      let kept = Occurs-keep (conditions_passed conditions) i walked in
      let behind = prepared_instances-IsPrepared i instances h in
      let passed = conditions_passed_iff conditions i in
      (
        (
          λ o.
              let (there, passes) = kept.0 (subst (Occurs i) given o) in
              (behind.0 there, passed.0 passes),
          λ p. subst (Occurs i) (sym given) (kept.1 (behind.1 p.0, passed.1 p.1)),
        ),
        given,
        with_self-IsOrdered instances h,
      )
