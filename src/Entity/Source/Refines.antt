-- ===== src/Entity/Source/Refines.antt =====
-- What a cached entity promises, and that it keeps it (src/core/entity/entity.hpp).
use obmc_yadro_webapp.Prelude.{
  ◌⊎◌, inl, inr, refl, ltb, Bool-cases, ℕ, ◌+◌, ◌<◌, ◌≤◌, ◌≡◌, ◌↔◌, true, false, not, ◌&&◌, List,
  [], if◌then◌else◌, arith,
}
use obmc_yadro_webapp.Entity.Store.{Instances, reset_cache}
use obmc_yadro_webapp.Entity.Source.{
  ProviderResult, QueryResult, Ending, returned, thrown, Processed, process_queries, CachedSource,
  invalidate_cache, settle, fill, populate_cached, ShortTimeCachedSource, new_short_time_source,
  is_cache_expired, populate_short_time,
}

-- The promise: a cache is up to date, or is to be read, or is given up.
pub data Freshness : Type 0 where
  fresh stale given_up : Freshness

abbrev pub View : Type 0
View = Freshness × Instances

-- Where the queries' run leads.
abbrev pub freshness_after : Processed → Freshness
freshness_after p = elim p.ending [
  | thrown ↦ given_up
  | returned ↦ if p.failures then stale else fresh
]

-- Only a cache that is to be read is read.
abbrev pub view_populate : List ProviderResult → List QueryResult → View → View × Ending
view_populate providers results (stale, instances) =
    let p = process_queries providers results [] false in
    ((freshness_after p, p.instances), p.ending)
view_populate providers results (freshness, instances) = ((freshness, instances), returned)

abbrev pub view_invalidate : View → View
view_invalidate (fresh, instances) = (stale, instances)
view_invalidate (freshness, instances) = (freshness, instances)

abbrev pub view : CachedSource → View
view s = (
  if s.caching_in_progress
      then given_up
      else if s.initialized && not s.has_errors
      then fresh
      else stale,
  s.instances,
)

view_settle :
    (p : Processed) (s : CachedSource)
    → s.caching_in_progress ≡ false
    → Path
        (View × Ending)
        (view (settle s p).0, (settle s p).1)
        ((freshness_after p, p.instances), p.ending)
unfolding settle
view_settle p s e = ground arith

-- The flags of a cached entity implement the promise. It is filled by a run of its providers and
-- queries exactly if it is to be read. After a run that returns it is up to date, unless a failure was told of, and
-- stays so until that happens; after a run that an exception other than the bus's leaves, it is
-- never filled again.
pub populate_cached-view :
    (providers : List ProviderResult) (results : List QueryResult) (s : CachedSource)
    → ((view (populate_cached providers results s).0, (populate_cached providers results s).1)
        ≡ view_populate providers results (view s))
      × (view (invalidate_cache s) ≡ view_invalidate (view s))
unfolding populate_cached fill reset_cache invalidate_cache
populate_cached-view providers results s =
    ground (arith, view_settle (process_queries providers results [] false) s)

-- What filling a source with a short life comes to. `now` is when it is asked to fill itself, `filled`
-- when its queries have returned, and `later` any time.
pub Filled :
    ℕ
    → ℕ
    → ℕ
    → ℕ
    → List ProviderResult
    → List QueryResult
    → ShortTimeCachedSource
    → ShortTimeCachedSource × Ending
    → Type 0
Filled time_to_cache now filled later providers results s (after, ending) =
    ((now ≤ s.cache_time_point + time_to_cache) × (after ≡ s) × (ending ≡ returned))
    ⊎ ((s.cache_time_point + time_to_cache < now)
        × ((process_queries providers results [] false).ending ≡ returned)
        × (ending ≡ returned)
        × (after.instances ≡ (process_queries providers results [] false).instances)
        × ((is_cache_expired time_to_cache later after ≡ true) ↔ (filled + time_to_cache < later)))
    ⊎ ((s.cache_time_point + time_to_cache < now)
        × ((process_queries providers results [] false).ending ≡ thrown)
        × (ending ≡ thrown)
        × (after.instances ≡ (process_queries providers results [] false).instances)
        × (is_cache_expired time_to_cache later after ≡ is_cache_expired time_to_cache later s))

ending_cases : (e : Ending) → (e ≡ returned) ⊎ (e ≡ thrown)
ending_cases returned = inl refl
ending_cases thrown = inr refl

-- A source with a short life is left alone until more than its lifetime has passed. Then its instances
-- become those of a run of its providers and queries on an empty cache, whatever it held before, and it is to be
-- filled again exactly when its lifetime has passed since the run. Behind an exception other than
-- the bus's it keeps its time point, so that the next demand fills it again. A new source,
-- made when the clock shows no less than its lifetime, is to be filled at every second behind that one.
pub short_time_iff :
    (time_to_cache made now filled later : ℕ) (providers : List ProviderResult)
    (results : List QueryResult) (s : ShortTimeCachedSource)
    → time_to_cache ≤ made
    → Filled time_to_cache now filled later providers results s
        (populate_short_time time_to_cache now filled providers results s)
      × ((is_cache_expired time_to_cache later (new_short_time_source time_to_cache made) ≡ true)
          ↔ (made < later))
unfolding Filled is_cache_expired new_short_time_source populate_short_time reset_cache
short_time_iff time_to_cache made now filled later providers results s h = (
  elim (Bool-cases (ltb (s.cache_time_point + time_to_cache) now)) [
    | inr kept ↦ rw kept (inl (ground arith, refl, refl))
    | inl expired ↦ elim (ending_cases (process_queries providers results [] false).ending) [
      | inl ends ↦ rw (expired, ends) (inr (inl (ground arith, refl, refl, refl, ground arith)))
      | inr fails ↦ rw (expired, fails) (inr (inr (ground arith, refl, refl, refl, refl)))
    ]
  ],
  ground arith,
)
