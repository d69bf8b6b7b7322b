-- ===== src/Status/Tests.antt =====
-- The theorems on statuses at concrete inputs.
use obmc_yadro_webapp.Prelude.{◌≤◌, ◌↔◌, true, false, List, [], ◌∷◌}
use obmc_yadro_webapp.Prelude.Text.{Text, text}
use obmc_yadro_webapp.Status.{ok, warning, critical, status_to_int, Relation, status_rollup}
use obmc_yadro_webapp.Status.Laws.{Bounded, status_rollup_iff}

abbrev fans : List Relation
fans =
    record {
      has_status = true;
      has_status_rollup = true;
      related_instances =
          record { status = ok; status_rollup = warning }
          ∷ record { status = ok; status_rollup = ok }
          ∷ [];
    }
    ∷ record {
      has_status = false;
      has_status_rollup = false;
      related_instances = record { status = critical; status_rollup = ok } ∷ [];
    }
    ∷ []

status_rollup_iff_example : (status_to_int (status_rollup fans) ≤ 1) ↔ Bounded 1 fans
status_rollup_iff_example = status_rollup_iff fans 1

abbrev causes : List (Text × Text)
causes = (text "critical", text "/fan") ∷ (text "warning", text "/psu") ∷ []
