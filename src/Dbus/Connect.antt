-- ===== src/Dbus/Connect.antt =====
-- The names of the services on the bus (src/core/connect/dbus_connect.cpp).
use obmc_yadro_webapp.Prelude.{
  ℕ, zero, suc, ◌+◌, ◌≤◌, ◌≡◌, ◌⊎◌, refl, inl, inr, Option, none, some, List, [], ◌∷◌,
  if◌then◌else◌, ltb, nat_eq, text_eq, lookup, insert_or_assign, arith, Bool-cases, Option-cases,
}
use obmc_yadro_webapp.Prelude.Text.{Text, text, starts_with, is_empty}

-- The unique names with the well-known ones.
abbrev pub ServiceNames : Type 0
ServiceNames = List (Text × Text)

unfoldable pub set_service_name : Text → Text → ServiceNames → ServiceNames
set_service_name unique_name well_known_name names =
    insert_or_assign unique_name well_known_name names

-- The names that the bus lists, each with its owner, where `none` is the exception.
unfoldable pub update_well_known_names : List (Text × Option Text) → ServiceNames → ServiceNames
unfolding set_service_name
update_well_known_names [] names = names
update_well_known_names ((service_name, owner) ∷ rest) names =
    if starts_with (text ":") service_name then update_well_known_names rest names else elim owner [
      | none ↦ update_well_known_names rest names
      | some unique ↦ update_well_known_names rest (set_service_name unique service_name names)
    ]

-- The watcher of changed owners.
unfoldable pub name_owner_changed : Text → Text → Text → ServiceNames → ServiceNames
unfolding set_service_name
name_owner_changed name old_owner new_owner names =
    if starts_with (text ":") name
    then names
    else set_service_name (if is_empty new_owner then old_owner else new_owner) name names

-- How the search for a name ends.
pub data Search : Type 0 where
  named : Text → ServiceNames → Search
  not_provided : ServiceNames → Search
  unfinished : Search

-- What the bus answers to each update.
module _ (listed : ℕ → List (Text × Option Text)) where
  -- The loop; one turn for each fuel.
  unfoldable pub search_name : ℕ → ℕ → Text → ServiceNames → Search
  unfolding update_well_known_names
  search_name zero try_count unique_name names = elim (lookup unique_name names) [
    | some name ↦ named name names
    | none ↦ unfinished
  ]
  search_name (suc fuel) try_count unique_name names = elim (lookup unique_name names) [
    | some name ↦ named name names
    | none ↦
        let updated = update_well_known_names (listed try_count) names in
        let rest = search_name fuel (suc try_count) unique_name updated in
        if ltb 15 try_count then not_provided updated else rest
  ]

  -- The dictionary is updated 17 times at most.
  unfoldable pub get_well_known_service_name : Text → ServiceNames → Search
  unfolding search_name
  get_well_known_service_name unique_name names = search_name 17 0 unique_name names

  search_name_lem :
      (fuel try_count : ℕ) (unique_name : Text) (names : ServiceNames)
      → 17 ≤ fuel + try_count
      → try_count ≤ 16
      → ((name : Text) × (known : ServiceNames) × (search_name fuel try_count unique_name names
            ≡ named name known)
          × (lookup unique_name known ≡ some name))
        ⊎ ((known : ServiceNames) × (search_name fuel try_count unique_name names
              ≡ not_provided known))
  unfolding search_name
  search_name_lem zero try_count unique_name names h l = ground arith
  search_name_lem (suc fuel) try_count unique_name names h l =
      let updated = update_well_known_names (listed try_count) names in
      elim (Option-cases (lookup unique_name names)) [
        | inr (name, there) ↦ inl (name, names, rw (search_name, there) refl, there)
        | inl missed ↦ elim (Bool-cases (ltb 15 try_count)) [
          | inl last ↦ inr (updated, rw (search_name, missed, last) refl)
          | inr more ↦
              rw (search_name, missed, more)
                (search_name_lem fuel (suc try_count) unique_name updated (omega arith)
                  (ground arith))
        ]
      ]

  -- The search for the name of a service ends after 17 updates at most: with a name that the
  -- dictionary then has for it, or with the exception.
  pub get_well_known_service_name_lem :
      (unique_name : Text) (names : ServiceNames)
      → ((name : Text) × (known : ServiceNames) × (get_well_known_service_name unique_name names
            ≡ named name known)
          × (lookup unique_name known ≡ some name))
        ⊎ ((known : ServiceNames) × (get_well_known_service_name unique_name names
              ≡ not_provided known))
  unfolding get_well_known_service_name
  get_well_known_service_name_lem unique_name names =
      search_name_lem 17 0 unique_name names (omega arith) (omega arith)
