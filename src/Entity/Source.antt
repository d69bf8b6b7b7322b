-- ===== src/Entity/Source.antt =====
-- How an entity is filled (src/core/entity/entity.hpp, src/core/entity/entity.cpp).
pub mod Refines
use obmc_yadro_webapp.Prelude.{
  ℕ, ◌+◌, ◌-◌, ◌<◌, ◌≤◌, ◌≡◌, ◌∙◌, ap, refl, Bool, true, false, not, ◌&&◌, ◌||◌, Option, none, some,
  List, [], ◌∷◌, ◌++◌, if◌then◌else◌, ltb, All, arith, Bool-cases,
}
use obmc_yadro_webapp.Prelude.Text.{Text}
use obmc_yadro_webapp.Entity.{Instance}
use obmc_yadro_webapp.Entity.Store.{Stored, Instances, set_instances, reset_cache}

-- What processing one query comes to: instances, and whether it told of failures; the exception of
-- the bus; or another exception.
pub data QueryResult : Type 0 where
  found : List Stored → Bool → QueryResult
  dbus_error other_error : QueryResult

-- How the processing of the queries ended: the exception of the bus is caught.
pub data Ending : Type 0 where
  returned thrown : Ending

-- The cache, whether a failure was told of, and how it ended.
pub record Processed : Type 0 where
  pub instances : Instances
  pub failures : Bool
  pub ending : Ending

-- The loop of `processQueries` over the queries of the entity.
unfoldable pub process_own_queries : List QueryResult → Instances → Bool → Processed
unfolding set_instances
process_own_queries [] instances failures = record {
  instances = instances;
  failures = failures;
  ending = returned;
}
process_own_queries (found inputs failed ∷ results) instances failures =
    process_own_queries results (set_instances inputs instances) (failures || failed)
process_own_queries (dbus_error ∷ results) instances failures = record {
  instances = instances;
  failures = failures;
  ending = returned;
}
process_own_queries (other_error ∷ results) instances failures = record {
  instances = instances;
  failures = failures;
  ending = thrown;
}

-- What `processQueries` of a provider comes to.
pub data ProviderResult : Type 0 where
  provided provider_dbus_error provider_other_error : ProviderResult

-- Its loop over the providers ends at the first exception.
unfoldable pub process_providers : List ProviderResult → ProviderResult
process_providers [] = provided
process_providers (provided ∷ providers) = process_providers providers
process_providers (provider_dbus_error ∷ providers) = provider_dbus_error
process_providers (provider_other_error ∷ providers) = provider_other_error

-- `processQueries`: the providers, and then the queries of the entity.
unfoldable pub process_queries :
    List ProviderResult → List QueryResult → Instances → Bool → Processed
unfolding process_own_queries process_providers
process_queries providers results instances failures = elim (process_providers providers) [
  | provided ↦ process_own_queries results instances failures
  | provider_dbus_error ↦ record { instances = instances; failures = failures; ending = returned }
  | provider_other_error ↦ record { instances = instances; failures = failures; ending = thrown }
]

-- `CachedSource`.
pub record CachedSource : Type 0 where
  pub initialized : Bool
  pub has_errors : Bool
  pub caching_in_progress : Bool
  pub instances : Instances

unfoldable pub new_cached_source : CachedSource
new_cached_source = record {
  initialized = false;
  has_errors = false;
  caching_in_progress = false;
  instances = [];
}

unfoldable pub invalidate_cache : CachedSource → CachedSource
invalidate_cache s = record s { has_errors = true }

-- The flags behind the run. An exception leaves the function before they are set.
unfoldable pub settle : CachedSource → Processed → CachedSource × Ending
settle s p = elim p.ending [
  | thrown ↦ (
    record s { has_errors = p.failures; caching_in_progress = true; instances = p.instances },
    thrown,
  )
  | returned ↦ (
    record s {
      initialized = if p.failures then s.initialized else true;
      has_errors = p.failures;
      caching_in_progress = false;
      instances = p.instances;
    },
    returned,
  )
]

unfoldable pub fill : List ProviderResult → List QueryResult → CachedSource → CachedSource × Ending
unfolding process_queries reset_cache settle
fill providers results s =
    settle s (process_queries providers results (reset_cache s.instances) false)

unfoldable pub populate_cached :
    List ProviderResult → List QueryResult → CachedSource → CachedSource × Ending
unfolding fill
populate_cached providers results s =
    if not s.caching_in_progress && (not s.initialized || s.has_errors)
    then fill providers results s
    else (s, returned)

-- `ShortTimeCachedSource`: the second of its time point.
pub record ShortTimeCachedSource : Type 0 where
  pub cache_time_point : ℕ
  pub instances : Instances

module _ (time_to_cache : ℕ) where
  unfoldable pub new_short_time_source : ℕ → ShortTimeCachedSource
  new_short_time_source now = record { cache_time_point = now - time_to_cache; instances = [] }

  unfoldable pub is_cache_expired : ℕ → ShortTimeCachedSource → Bool
  is_cache_expired now s = ltb (s.cache_time_point + time_to_cache) now

  -- The clock is read for the check, and again by `setTimePoint`.
  unfoldable pub populate_short_time :
      ℕ
      → ℕ
      → List ProviderResult
      → List QueryResult
      → ShortTimeCachedSource
      → ShortTimeCachedSource × Ending
  unfolding is_cache_expired process_queries reset_cache
  populate_short_time now filled providers results s =
      let p = process_queries providers results (reset_cache s.instances) false in
      if is_cache_expired now s
      then elim p.ending [
        | thrown ↦ (record s { instances = p.instances }, thrown)
        | returned ↦ (record { cache_time_point = filled; instances = p.instances }, returned)
      ]
      else (s, returned)

-- `LazySource`.
unfoldable pub populate_lazy :
    List ProviderResult → List QueryResult → Instances → Instances × Ending
unfolding process_queries reset_cache
populate_lazy providers results instances =
    let p = process_queries providers results (reset_cache instances) false in
    (p.instances, p.ending)

-- `Entity::get`: the first of the instances, or one without a field.
unfoldable pub get_object : Instance → List Instance → Instance
get_object not_available [] = not_available
get_object not_available (i ∷ rest) = i

unfoldable pub is_null_object : List Instance → Bool
is_null_object [] = true
is_null_object (i ∷ rest) = false
