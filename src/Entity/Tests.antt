-- ===== src/Entity/Tests.antt =====
-- The theorems on entities at a source with one sensor and a destination with two.
use obmc_yadro_webapp.Prelude.{
  ℕ, ◌<◌, ◌≡◌, ◌≢◌, ◌↔◌, refl, true, false, none, some, Option, List, [], ◌∷◌, All, arith, keep,
  lookup, text_eq, text_beq, IsDict,
}
use obmc_yadro_webapp.Prelude.Text.{Text, text}
use obmc_yadro_webapp.Entity.{
  Condition, Instance, string, string_kind, equal, get_value, get_field, supplement_from,
  check_condition, dummy_field,
}
use obmc_yadro_webapp.Entity.Merge.{supplement_from_lem}
use obmc_yadro_webapp.Entity.Kinds.{static_kind}
use obmc_yadro_webapp.Entity.Store.{
  Stored, Instances, get_instance, set_instances, conditions_passed, get_instances, reset_cache,
  with_self,
}
use obmc_yadro_webapp.Entity.Store.Select.{prepared_instances}
use obmc_yadro_webapp.Entity.Store.Occurs.{Occurs}
use obmc_yadro_webapp.Prelude.Ordered.{IsOrdered}
use obmc_yadro_webapp.Entity.Store.Selected.{IsPrepared, HasOrderedParts, get_instances_iff}
use obmc_yadro_webapp.Entity.Store.Steps.{IsCache, empty, stepped, sets, Reach-IsCache}
use obmc_yadro_webapp.Entity.Relation.{
  Relation, members, no_provider, get_member, get_related_instances,
}
use obmc_yadro_webapp.Entity.Relation.Laws.{get_related_instances_lem}
use obmc_yadro_webapp.Entity.Source.{
  provided, provider_dbus_error, found, fill, process_queries, settle, process_providers,
  new_cached_source, populate_cached, invalidate_cache, is_cache_expired, new_short_time_source,
  populate_short_time, ShortTimeCachedSource,
}
use obmc_yadro_webapp.Entity.Source.Refines.{
  fresh, view, view_populate, view_invalidate, populate_cached-view, Filled, short_time_iff,
}

abbrev sensor : Instance
sensor = record {
  hash = 7;
  member_instances = (text "Name", some (string (text "CPU"))) ∷ (text "Unit", none) ∷ [];
}

abbrev fan : Instance
fan = record { hash = 9; member_instances = (text "Name", some (string (text "FAN"))) ∷ [] }

abbrev stored_sensor : Stored
stored_sensor = record { self = sensor; complex_instances = [] }

abbrev stored_fan : Stored
stored_fan = record { self = fan; complex_instances = (8, sensor) ∷ [] }

abbrev cache : Instances
cache = (7, stored_sensor) ∷ (9, stored_fan) ∷ []

abbrev conditions : List (Option Condition)
conditions = some ((text "Name", string (text "CPU"), equal string_kind) ∷ []) ∷ none ∷ []

ordered_parts : HasOrderedParts cache
ordered_parts = (tt, ((tt, tt), tt))

get_instances_iff_example :
    (Occurs fan (get_instances static_kind [] conditions cache) ↔ (
      IsPrepared static_kind [] cache fan
      × All (λ condition. check_condition condition fan ≡ true) conditions))
    × (get_instances static_kind [] conditions cache
        ≡ keep (conditions_passed conditions) (prepared_instances static_kind [] cache))
    × All (λ entry. IsOrdered (with_self static_kind entry.1)) cache
get_instances_iff_example = get_instances_iff static_kind [] conditions cache fan ordered_parts

Reach-IsCache_example : IsCache (set_instances (stored_fan ∷ stored_sensor ∷ []) [])
Reach-IsCache_example =
    Reach-IsCache static_kind [] (set_instances (stored_fan ∷ stored_sensor ∷ []) [])
      (stepped empty (sets [] (stored_fan ∷ stored_sensor ∷ [])))

supplement_from_lem_example :
    (next : Instance) × (supplement_from sensor fan ≡ some next)
    × ((j : Text)
        → lookup j next.member_instances ≡ elim (lookup j sensor.member_instances) [
          | none ↦ lookup j fan.member_instances
          | some f ↦ some (some (get_value f))
        ])
    × (next.hash ≡ fan.hash)
    × IsDict next.member_instances
supplement_from_lem_example = supplement_from_lem sensor fan (ground arith)

abbrev named_alike : Relation
named_alike = record {
  condition_build_rules = (text "Name", text "Name", equal string_kind) ∷ [];
  source_members = members (text "Name" ∷ []) no_provider;
  source_instances = cache;
  destination_kind = static_kind;
  destination_providers = [];
  destination_instances = cache;
}

named_member : get_member (text "Name") named_alike.source_members ≡ some (text "Name")
unfolding get_member text_beq
named_member = refl

sensor_there : get_instance 7 cache ≡ some stored_sensor
unfolding get_instance lookup
sensor_there = refl

not_dummy : text "Name" ≢ dummy_field
unfolding dummy_field
not_dummy = λ e. ground arith

get_related_instances_lem_example :
    get_related_instances (some named_alike) 7 [] true
    ≡ some (
        keep
          (λ i.
            equal string_kind
              (some (get_field (text "Name") i))
              (get_value (get_field (text "Name") sensor)))
          (prepared_instances static_kind [] cache))
get_related_instances_lem_example =
    get_related_instances_lem named_alike 7 stored_sensor (text "Name") (text "Name")
      (equal string_kind) refl not_dummy not_dummy named_member sensor_there

populate_cached-view_example :
    ((
      view
          (populate_cached
            (provided ∷ [])
            (found (stored_fan ∷ []) false ∷ [])
            new_cached_source).0,
      (populate_cached (provided ∷ []) (found (stored_fan ∷ []) false ∷ []) new_cached_source).1,
    )
      ≡ view_populate (provided ∷ []) (found (stored_fan ∷ []) false ∷ []) (view new_cached_source))
    × (view (invalidate_cache new_cached_source) ≡ view_invalidate (view new_cached_source))
populate_cached-view_example =
    populate_cached-view (provided ∷ []) (found (stored_fan ∷ []) false ∷ []) new_cached_source

abbrev old_source : ShortTimeCachedSource
old_source = record { cache_time_point = 100; instances = [] }

short_time_iff_example :
    Filled 10 200 203 215 (provided ∷ []) (found (stored_fan ∷ []) false ∷ []) old_source (
      populate_short_time 10 200 203
        (provided ∷ [])
        (found (stored_fan ∷ []) false ∷ [])
        old_source)
    × ((is_cache_expired 10 215 (new_short_time_source 10 150) ≡ true) ↔ (150 < 215))
short_time_iff_example =
    short_time_iff 10 150 200 203 215 (provided ∷ []) (found (stored_fan ∷ []) false ∷ [])
      old_source (ground arith)

abbrev numbers : List (Text × ℕ)
numbers = (text "Cpu", 1) ∷ []

-- An exception of the bus from a provider leaves the entity without instances, and up to date.
provider_fails :
    (view
      (populate_cached
        (provided ∷ provider_dbus_error ∷ [])
        (found (stored_fan ∷ []) false ∷ [])
        new_cached_source).0)
    ≡ (fresh, [])
unfolding populate_cached fill process_queries settle new_cached_source reset_cache
    process_providers
provider_fails = refl
