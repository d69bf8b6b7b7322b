-- ===== src/Entity/Manager.antt =====
-- The registry of entities (src/core/entity/entity_manager.cpp).
use obmc_yadro_webapp.Prelude.{
  ◌≡◌, ◌≢◌, ◌⊎◌, inl, inr, refl, ◌∙◌, Option, none, some, List, [], ◌∷◌, if◌then◌else◌, ◌==◌,
  text_eq, lookup, emplace, insert_or_assign, lookup-emplace_new, beq_refl, arith, Option-cases,
}
use obmc_yadro_webapp.Prelude.Text.{Text}

-- The entities' own `initialize` and `populate`, which are virtual.
module _ {ℓ} {Entity : Type ℓ} (initialize populate : Entity → Entity) where
  -- `none` is the exception.
  unfoldable pub add_entity : Text → Entity → List (Text × Entity) → Option (List (Text × Entity))
  add_entity name entity dictionary = elim (lookup name dictionary) [
    | some registered ↦ none
    | none ↦ some (emplace name entity dictionary)
  ]

  -- The entity is filled before it is returned, and stays so in the registry.
  unfoldable pub get_entity : Text → List (Text × Entity) → Option (Entity × List (Text × Entity))
  get_entity name dictionary = elim (lookup name dictionary) [
    | none ↦ none
    | some entity ↦ some (populate entity, insert_or_assign name (populate entity) dictionary)
  ]

  unfoldable pub configure : List (Text × Entity) → List (Text × Entity)
  configure [] = []
  configure ((name, entity) ∷ rest) = (name, initialize entity) ∷ configure rest

  unfoldable pub update : List (Text × Entity) → List (Text × Entity)
  update [] = []
  update ((name, entity) ∷ rest) = (name, populate entity) ∷ update rest

  lookup-update :
      (name : Text) (d : List (Text × Entity))
      → lookup name (update d) ≡ elim (lookup name d) [ none ↦ none | some e ↦ some (populate e) ]
  unfolding lookup update
  lookup-update name [] = refl
  lookup-update name ((k, e) ∷ d) = ground (arith, lookup-update name d)

  -- A name is registered once: registering it again fails and changes nothing. The entity registered
  -- under a name is the one that the name gives, filled, the others' entries are as they were, and a
  -- name without an entity fails.
  pub add_entity-get_entity :
      (name other : Text) (entity : Entity) (d : List (Text × Entity))
      → ((lookup name d ≢ none) × (add_entity name entity d ≡ none))
        ⊎ ((registered : List (Text × Entity)) × (add_entity name entity d ≡ some registered)
            × (get_entity name d ≡ none)
            × (get_entity name registered
                ≡ some (populate entity, insert_or_assign name (populate entity) registered))
            × (lookup other registered ≡ (if name == other then some entity else lookup other d)))
  unfolding add_entity get_entity
  add_entity-get_entity name other entity d = elim (Option-cases (lookup name d)) [
    | inl absent ↦
        let held : lookup name (emplace name entity d) ≡ some entity =
          lookup-emplace_new name name entity d absent ∙ rw (beq_refl name) refl in
        inr (
          emplace name entity d,
          rw (add_entity, absent) refl,
          rw (get_entity, absent) refl,
          rw (get_entity, held) refl,
          lookup-emplace_new name other entity d absent,
        )
    | inr (e, there) ↦ inl (λ n. ground arith, rw (add_entity, there) refl)
  ]
