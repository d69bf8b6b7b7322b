-- ===== src/Entity/Store/Steps.antt =====
-- What holds of an entity's cache after every sequence of operations (src/core/entity/entity.cpp).
use mathlib.Core.Path.{subst}
use mathlib.Core.Option.{some-injective}
use obmc_yadro_webapp.Prelude.{
  ℕ, ◌≡◌, ◌∙◌, ap, refl, sym, inl, inr, Option, none, some, List, [], ◌∷◌, ◌==◌, nat_eq,
  nat_beq_iff, lookup, All, arith, Bool-cases, Option-cases,
}
use obmc_yadro_webapp.Prelude.Ordered.{
  assign_ordered, IsAbove, IsOrdered, assign_ordered-IsOrdered, erase-IsOrdered, All-assign_ordered,
  All-erase,
}
use obmc_yadro_webapp.Entity.{Instance}
use obmc_yadro_webapp.Entity.Store.{
  InstanceKind, Provider, Stored, Instances, set_instances, remove_instance, reset_cache,
  merge_instance, supplement_instance, supplement_all, prepared, touched, touch_instances,
}

-- The hashes rise, and each instance stands under its own.
abbrev pub IsCache : Instances → Type 0
IsCache instances = IsOrdered instances × All (λ (e : ℕ × Stored). e.0 ≡ e.1.self.hash) instances

module _ (kind : InstanceKind) (providers : List Provider) where
  -- One operation on the cache.
  pub data Step : Instances → Instances → Type 0 where
    sets : (c : Instances) (inputs : List Stored) → Step c (set_instances inputs c)
    merges :
        (c next : Instances) (input stored : Stored)
        → merge_instance kind input c ≡ some (stored, next)
        → Step c next
    removes : (c : Instances) (hash : ℕ) → Step c (remove_instance hash c)
    resets : (c : Instances) → Step c (reset_cache c)
    reads : (c : Instances) → Step c (touch_instances kind providers c)

  -- The caches that an entity comes to from the empty one.
  pub data Reach : Instances → Type 0 where
    empty : Reach []
    stepped : {c next : Instances} → Reach c → Step c next → Reach next

-- The key that a merged instance is stored under is its own.
assign_under-IsCache :
    (hash : ℕ) (stored : Stored) (c : Instances)
    → hash ≡ stored.self.hash
    → IsCache c
    → IsCache (assign_ordered hash stored c)
assign_under-IsCache hash stored c e h = (
  assign_ordered-IsOrdered hash stored c h.0,
  All-assign_ordered (λ e. e.0 ≡ e.1.self.hash) hash stored c e h.1,
)

set_instances-IsCache :
    (inputs : List Stored) (c : Instances) → IsCache c → IsCache (set_instances inputs c)
unfolding set_instances
set_instances-IsCache [] c h = h
set_instances-IsCache (input ∷ inputs) c h =
    set_instances-IsCache inputs (assign_ordered input.self.hash input c)
      (assign_under-IsCache input.self.hash input c refl h)

supplement_instance-hash :
    (rule : Instance → Instance → Instance) (given : List Instance) (target : Instance)
    → ((s t : Instance) → (rule s t).hash ≡ t.hash)
    → (supplement_instance rule given target).hash ≡ target.hash
unfolding supplement_instance
supplement_instance-hash rule [] target h = refl
supplement_instance-hash rule (i ∷ given) target h =
    supplement_instance-hash rule given (rule i target) h ∙ h i target

supplement_all-hash :
    (providers : List Provider) (target : Instance)
    → (supplement_all providers target).hash ≡ target.hash
unfolding supplement_all
supplement_all-hash [] target = refl
supplement_all-hash (p ∷ providers) target =
    supplement_all-hash providers (supplement_instance p.link_rule p.provider_instances target)
    ∙ supplement_instance-hash p.link_rule p.provider_instances target p.link_hash

touched-hash :
    (kind : InstanceKind) (providers : List Provider) (stored : Stored)
    → (touched kind providers stored).self.hash ≡ stored.self.hash
unfolding touched prepared
touched-hash kind providers stored =
    let self = kind.init_default_fields_value stored.self in
    supplement_all-hash providers (kind.verify_state self)
    ∙ kind.verify_hash self
    ∙ kind.init_hash stored.self

IsAbove-touch :
    (kind : InstanceKind) (providers : List Provider) (bound : ℕ) (c : Instances)
    → IsAbove bound c
    → IsAbove bound (touch_instances kind providers c)
unfolding touch_instances
IsAbove-touch kind providers bound [] h = tt
IsAbove-touch kind providers bound ((key, stored) ∷ c) h =
    (h.0, IsAbove-touch kind providers bound c h.1)

touch_instances-IsCache :
    (kind : InstanceKind) (providers : List Provider) (c : Instances)
    → IsCache c
    → IsCache (touch_instances kind providers c)
unfolding touch_instances
touch_instances-IsCache kind providers [] h = h
touch_instances-IsCache kind providers ((key, stored) ∷ c) h =
    let rest = touch_instances-IsCache kind providers c (h.0.1, h.1.1) in
    (
      (IsAbove-touch kind providers key c h.0.0, rest.0),
      (h.1.0 ∙ sym (touched-hash kind providers stored), rest.1),
    )

keyed-lookup :
    (hash : ℕ) (stored : Stored) (c : Instances)
    → All (λ (e : ℕ × Stored). e.0 ≡ e.1.self.hash) c
    → lookup hash c ≡ some stored
    → hash ≡ stored.self.hash
unfolding lookup
keyed-lookup hash stored [] h e = cc
keyed-lookup hash stored ((key, other) ∷ c) h e = elim (Bool-cases (key == hash)) [
  | inl same ↦
      let found : some other ≡ some stored = rw (same, lookup) at e in
      sym ((nat_beq_iff key hash).0 same)
      ∙ h.0
      ∙ ap (λ v. v.self.hash) (some-injective other stored found)
  | inr differs ↦ keyed-lookup hash stored c h.1 (rw (differs, lookup) at e)
]

merge_instance-IsCache :
    (kind : InstanceKind) (c next : Instances) (input stored : Stored)
    → IsCache c
    → merge_instance kind input c ≡ some (stored, next)
    → IsCache next
unfolding merge_instance
merge_instance-IsCache kind c next input stored h e =
    elim (Option-cases (lookup input.self.hash c)) [
      | inl absent ↦
          let made = some-injective _ _ (rw (absent, merge_instance) at e) in
          subst IsCache (ap (λ p. p.1) made) (assign_under-IsCache input.self.hash input c refl h)
      | inr (found, there) ↦
          elim (Option-cases (kind.supplement_or_update_from input.self found.self)) [
            | inl failed ↦
                let bad : Path (Option (Stored × Instances)) none (some (stored, next)) =
                  rw (there, failed, merge_instance) at e in
                ground arith
            | inr (merged, went) ↦
                let made = some-injective _ _ (rw (there, went, merge_instance) at e) in
                let under =
                  keyed-lookup input.self.hash found c h.1 there
                  ∙ sym (kind.supplement_hash input.self found.self merged went) in
                subst IsCache (ap (λ p. p.1) made)
                  (assign_under-IsCache input.self.hash (record found { self = merged }) c under h)
          ]
    ]

Step-IsCache :
    (kind : InstanceKind) (providers : List Provider) (c next : Instances)
    → IsCache c
    → Step kind providers c next
    → IsCache next
unfolding remove_instance reset_cache
Step-IsCache kind providers c _ h (sets _ inputs) = set_instances-IsCache inputs c h
Step-IsCache kind providers c next h (merges _ _ input stored e) =
    merge_instance-IsCache kind c next input stored h e
Step-IsCache kind providers c _ h (removes _ hash) =
    (erase-IsOrdered hash c h.0, All-erase (λ e. e.0 ≡ e.1.self.hash) hash c h.1)
Step-IsCache kind providers c _ h (resets _) = (tt, tt)
Step-IsCache kind providers c _ h (reads _) = touch_instances-IsCache kind providers c h

-- Whatever operations an entity went through, its hashes rise, so that none stands twice, and each
-- instance stands under its own hash.
pub Reach-IsCache :
    (kind : InstanceKind) (providers : List Provider) (c : Instances)
    → Reach kind providers c
    → IsCache c
Reach-IsCache kind providers c empty = (tt, tt)
Reach-IsCache kind providers c (stepped r s) =
    Step-IsCache kind providers _ c (Reach-IsCache kind providers _ r) s
