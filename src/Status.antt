-- ===== src/Status.antt =====
-- The health of an entity, alone and rolled up over its relations (src/status_provider.hpp). The
-- entity's relations and the instances that they lead to are given as data.
pub mod Laws
mod Tests
use obmc_yadro_webapp.Prelude.{
  ℕ, ◌≡◌, Bool, true, false, Option, none, some, List, [], ◌∷◌, if◌then◌else◌, leb, Eq, ◌==◌,
  text_eq, any_of, lookup,
}
use obmc_yadro_webapp.Prelude.Text.{Text, text, is_empty}

pub data Status : Type 0 where
  ok warning critical : Status

abbrev pub status_to_int : Status → ℕ
status_to_int ok = 0
status_to_int warning = 1
status_to_int critical = 2

unfoldable pub get_higher_status : Status → Status → Status
get_higher_status left right =
    if leb (status_to_int right) (status_to_int left) then left else right

-- `StatusByFunctional`: `none` is a value that is not a Boolean.
unfoldable pub status_by_functional : Option Bool → Status
status_by_functional none = ok
status_by_functional (some functional) = if functional then ok else warning

-- An instance that a relation leads to, with the fields Status and StatusRollup.
pub record Instance : Type 0 where
  pub status : Status
  pub status_rollup : Status

-- A relation: which of the two members its destination has, and the related instances.
pub record Relation : Type 0 where
  pub has_status : Bool
  pub has_status_rollup : Bool
  pub related_instances : List Instance

unfoldable pub rollup_instances : Bool → List Instance → Status → Status
unfolding get_higher_status
rollup_instances has_status_rollup [] result = result
rollup_instances has_status_rollup (instance_ ∷ rest) result =
    let with_status = get_higher_status instance_.status result in
    rollup_instances has_status_rollup rest (
      if has_status_rollup
      then get_higher_status instance_.status_rollup with_status
      else with_status)

unfoldable pub rollup_relations : List Relation → Status → Status
unfolding rollup_instances
rollup_relations [] result = result
rollup_relations (relation ∷ rest) result =
    if relation.has_status
    then rollup_relations rest
        (rollup_instances relation.has_status_rollup relation.related_instances result)
    else rollup_relations rest result

unfoldable pub status_rollup : List Relation → Status
status_rollup relations = rollup_relations relations ok

-- With no list of causers, every causer is observed.
unfoldable pub is_causer_observed : List Text → Text → Bool
is_causer_observed observed_causers causer =
    if is_empty observed_causers then true else any_of (λ value. causer == value) observed_causers

abbrev pub status_dict : List (Text × Status)
status_dict = (text "ok", ok) ∷ (text "warning", warning) ∷ (text "critical", critical) ∷ []

-- A level that the dictionary lacks is ok.
unfoldable pub status_of_level : Text → Status
status_of_level level = elim (lookup level status_dict) [ none ↦ ok | some status ↦ status ]

-- An association: its level and its causer; the backward name in between is not read.
unfoldable pub format_status_from : List Text → List (Text × Text) → Status → Status
unfolding status_of_level get_higher_status is_causer_observed
format_status_from observed [] result = result
format_status_from observed ((level, causer) ∷ rest) result = format_status_from observed rest (
    if is_causer_observed observed causer
    then get_higher_status (status_of_level level) result
    else result)

-- `none` is a value that holds no associations.
unfoldable pub format_status : List Text → Option (List (Text × Text)) → Status
unfolding format_status_from
format_status observed none = ok
format_status observed (some associations) = format_status_from observed associations ok

-- The observed causers, in order.
unfoldable pub format_causer : List Text → List (Text × Text) → List Text
unfolding is_causer_observed
format_causer observed [] = []
format_causer observed ((level, causer) ∷ rest) =
    let causers = format_causer observed rest in
    if is_causer_observed observed causer then causer ∷ causers else causers
