-- ===== src/Status/Laws.antt =====
-- What a rolled-up status says of the statuses below it (src/status_provider.hpp).
use obmc_yadro_webapp.Prelude.{
  ℕ, ◌≡◌, ◌≤◌, ◌⊎◌, inl, inr, Bool, true, false, some, List, [], ◌∷◌, arith, All, ◌↔◌, Bool-cases,
}
use obmc_yadro_webapp.Prelude.Text.{Text}
use obmc_yadro_webapp.Status.{
  Status, ok, status_to_int, get_higher_status, Instance, Relation, rollup_instances,
  rollup_relations, status_rollup, is_causer_observed, status_of_level, format_status_from,
  format_status,
}

-- An instance is not worse than a bound: its rollup counts where the destination has one.
pub Within : ℕ → Bool → Instance → Type 0
Within bound has_rollup i =
    (status_to_int i.status ≤ bound)
    × ((has_rollup ≡ false) ⊎ (status_to_int i.status_rollup ≤ bound))

-- Every instance that counts is not worse than the bound.
pub Bounded : ℕ → List Relation → Type 0
Bounded bound relations =
    All (λ r. (r.has_status ≡ false) ⊎ All (Within bound r.has_status_rollup) r.related_instances)
      relations

higher_le :
    (left right : Status) (bound : ℕ)
    → (status_to_int (get_higher_status left right) ≤ bound)
      ↔ ((status_to_int left ≤ bound) × (status_to_int right ≤ bound))
unfolding get_higher_status
higher_le left right bound = ground arith

instances_le :
    (has_rollup : Bool) (is : List Instance) (result : Status) (bound : ℕ)
    → (status_to_int (rollup_instances has_rollup is result) ≤ bound)
      ↔ ((status_to_int result ≤ bound) × All (Within bound has_rollup) is)
unfolding rollup_instances Within
instances_le has_rollup [] result bound = ((λ h. (h, tt)), λ h. h.0)
instances_le true (i ∷ is) result bound =
    let with_status = get_higher_status i.status result in
    let rest = instances_le true is (get_higher_status i.status_rollup with_status) bound in
    ground
      (arith, rest, higher_le i.status_rollup with_status bound, higher_le i.status result bound)
instances_le false (i ∷ is) result bound =
    let rest = instances_le false is (get_higher_status i.status result) bound in
    ground (arith, rest, higher_le i.status result bound)

relations_le :
    (relations : List Relation) (result : Status) (bound : ℕ)
    → (status_to_int (rollup_relations relations result) ≤ bound)
      ↔ ((status_to_int result ≤ bound) × Bounded bound relations)
unfolding rollup_relations Bounded
relations_le [] result bound = ((λ h. (h, tt)), λ h. h.0)
relations_le (r ∷ rs) result bound =
    let next = rollup_instances r.has_status_rollup r.related_instances result in
    let here = instances_le r.has_status_rollup r.related_instances result bound in
    elim (Bool-cases r.has_status) [
      | inl counts ↦ ground (arith, relations_le rs next bound, here)
      | inr skipped ↦ ground (arith, relations_le rs result bound)
    ]

-- The rolled-up status is the least upper bound: it is at most a bound exactly if the status of
-- every related instance is, where the relation's destination has a status, and its own rolled-up
-- status too, where the destination has that member.
pub status_rollup_iff :
    (relations : List Relation) (bound : ℕ)
    → (status_to_int (status_rollup relations) ≤ bound) ↔ Bounded bound relations
unfolding status_rollup
status_rollup_iff relations bound = ground (arith, relations_le relations ok bound)

-- Every observed association's level is at most the bound.
pub LevelsWithin : ℕ → List Text → List (Text × Text) → Type 0
LevelsWithin bound observed associations =
    All
      (λ a.
        (is_causer_observed observed a.1 ≡ false) ⊎ (status_to_int (status_of_level a.0) ≤ bound))
      associations

format_status_from_le :
    (observed : List Text) (associations : List (Text × Text)) (result : Status) (bound : ℕ)
    → (status_to_int (format_status_from observed associations result) ≤ bound)
      ↔ ((status_to_int result ≤ bound) × LevelsWithin bound observed associations)
unfolding format_status_from LevelsWithin
format_status_from_le observed [] result bound = ((λ h. (h, tt)), λ h. h.0)
format_status_from_le observed ((level, causer) ∷ rest) result bound =
    elim (Bool-cases (is_causer_observed observed causer)) [
      | inl counts ↦ ground (
        arith,
        format_status_from_le observed rest (get_higher_status (status_of_level level) result)
            bound,
        higher_le (status_of_level level) result bound,
      )
      | inr skipped ↦ ground (arith, format_status_from_le observed rest result bound)
    ]

-- The status that the callback manager's associations give is the least upper bound of the levels
-- of the observed causers.
pub format_status_iff :
    (observed : List Text) (associations : List (Text × Text)) (bound : ℕ)
    → (status_to_int (format_status observed (some associations)) ≤ bound)
      ↔ LevelsWithin bound observed associations
unfolding format_status
format_status_iff observed associations bound =
    ground (arith, format_status_from_le observed associations ok bound)
