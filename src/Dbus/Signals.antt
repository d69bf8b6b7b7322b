-- ===== src/Dbus/Signals.antt =====
-- The signals of added and removed objects, and what they do to an entity's cache
-- (src/core/entity/dbus_query.cpp).
use obmc_yadro_webapp.Prelude.{
  ℕ, ◌≡◌, ◌∙◌, ap, refl, inl, inr, Bool, true, false, not, Option, none, some, List, [],
  if◌then◌else◌, ◌==◌, nat_eq, lookup, erase, lookup-erase, arith, Option-cases,
}
use obmc_yadro_webapp.Prelude.Ordered.{
  assign_ordered, IsOrdered, lookup-assign_ordered, assign_ordered-IsOrdered, IsOrdered-IsDict,
}
use obmc_yadro_webapp.Prelude.Text.{Text}
use obmc_yadro_webapp.Entity.{Instance}
use obmc_yadro_webapp.Dbus.{
  DBusPropertyEndpointMap, DBusInstance, QueryProperties, new_dbus_instance, initialize,
  searched_endpoints, merge_internal_metadata, introspect_dbus_object_interfaces,
}

-- What a kind of query does differently, and what it reads of the bus: both forms of
-- `checkCriteria`, the configured properties, `supplementByStaticFields`, the well-known name of a
-- sender, where `none` is the exception, the mapper's answer for an object, and the properties of an
-- object of a service.
pub record Query : Type 0 where
  pub check_path : Text → Option Text → Bool
  pub check : Text → List Text → Option Text → Bool
  pub search_properties : DBusPropertyEndpointMap
  pub supplement_by_static_fields : Instance → Instance
  pub well_known_name : Text → Option Text
  pub mapper_get_object : Text → List Text → List (Text × List Text)
  pub query_properties : Text → Text → QueryProperties
  pub combined_hash : Text → Text → ℕ

abbrev pub DBusCache : Type 0
DBusCache = List (ℕ × DBusInstance)

module _ (q : Query) where
  unfoldable pub create_instance : Text → Text → List Text → DBusInstance
  unfolding searched_endpoints new_dbus_instance initialize
  create_instance service object_path interfaces =
      initialize q.search_properties (q.query_properties service object_path)
        q.supplement_by_static_fields
        (new_dbus_instance q.combined_hash service object_path
          (searched_endpoints q.search_properties interfaces []) false)

  -- An instance that the cache has gets the new one's setters and is to be read again; another one
  -- is stored.
  unfoldable pub store_created : ℕ → DBusInstance → DBusCache → DBusCache
  unfolding merge_internal_metadata
  store_created hash new_instance cache = elim (lookup hash cache) [
    | none ↦ assign_ordered hash new_instance cache
    | some entity_instance ↦
        assign_ordered hash
          (record (merge_internal_metadata new_instance entity_instance) { state = false }) cache
  ]

  -- The handler of `registerObjectCreationObserver`: whether it did not fail, and the cache.
  unfoldable pub object_created : Text → List Text → Text → DBusCache → Bool × DBusCache
  unfolding create_instance store_created introspect_dbus_object_interfaces
  object_created object_path interfaces_added sender cache = elim (q.well_known_name sender) [
    | none ↦ (false, cache)
    | some service ↦
        let interfaces =
          introspect_dbus_object_interfaces service
            (q.mapper_get_object object_path interfaces_added) in
        if not (q.check_path object_path (some service))
        then (true, cache)
        else if not (q.check object_path interfaces (some service))
        then (true, cache)
        else (
          true,
          store_created (q.combined_hash service object_path)
              (create_instance service object_path interfaces) cache,
        )
  ]

  -- The handler of `registerObjectRemovingObserver`.
  unfoldable pub object_removed : Text → List Text → Text → DBusCache → Bool × DBusCache
  object_removed object_path removed_interfaces sender cache = elim (q.well_known_name sender) [
    | none ↦ (false, cache)
    | some service ↦
        if not (q.check object_path removed_interfaces (some service))
        then (true, cache)
        else (true, erase (q.combined_hash service object_path) cache)
  ]

  store_created_lem :
      (hash other : ℕ) (d : DBusInstance) (cache : DBusCache)
      → IsOrdered cache
      → ((stored : DBusInstance) × (lookup other (store_created hash d cache)
            ≡ (if hash == other then some stored else lookup other cache)))
        × IsOrdered (store_created hash d cache)
  unfolding store_created
  store_created_lem hash other d cache h = elim (Option-cases (lookup hash cache)) [
    | inl absent ↦
        rw (store_created, absent)
          ((d, lookup-assign_ordered hash other d cache), assign_ordered-IsOrdered hash d cache h)
    | inr (found, there) ↦
        let merged = record (merge_internal_metadata d found) { state = false } in
        rw (store_created, there)
          (
            (merged, lookup-assign_ordered hash other merged cache),
            assign_ordered-IsOrdered hash merged cache h,
          )
  ]

  removed_elsewhere :
      (hash other : ℕ) (stored : DBusInstance) (created before : Option DBusInstance)
      → created ≡ (if hash == other then some stored else before)
      → (if hash == other then none else created) ≡ (if hash == other then none else before)
  removed_elsewhere hash other stored created before e = ground arith

  -- An accepted object is in the cache behind the signal that it was added, and no longer behind
  -- the signal that it was removed; the instances of other hashes stay as they are.
  pub object_created-object_removed :
      (object_path sender service : Text) (added removed : List Text) (other : ℕ)
      (cache : DBusCache)
      → IsOrdered cache
      → q.well_known_name sender ≡ some service
      → q.check_path object_path (some service) ≡ true
      → q.check object_path
          (introspect_dbus_object_interfaces service (q.mapper_get_object object_path added))
          (some service)
        ≡ true
      → q.check object_path removed (some service) ≡ true
      → ((stored : DBusInstance) × (lookup other (object_created object_path added sender cache).1
            ≡ (if q.combined_hash service object_path == other
                then some stored
                else lookup other cache)))
        × (lookup other
              (object_removed object_path removed sender
                (object_created object_path added sender cache).1).1
            ≡ (if q.combined_hash service object_path == other then none else lookup other cache))
  unfolding object_created object_removed
  object_created-object_removed object_path sender service added removed other cache h name path all
        gone =
      let hash = q.combined_hash service object_path in
      let interfaces =
        introspect_dbus_object_interfaces service (q.mapper_get_object object_path added) in
      let d = create_instance service object_path interfaces in
      let created : object_created object_path added sender cache
          ≡ (true, store_created hash d cache) =
        rw (object_created, name, path, all) refl in
      let removing : object_removed object_path removed sender
            (object_created object_path added sender cache).1
          ≡ (true, erase hash (object_created object_path added sender cache).1) =
        rw (object_removed, name, gone) refl in
      let after = store_created_lem hash other d cache h in
      let stays =
        lookup-erase hash other (store_created hash d cache)
          (IsOrdered-IsDict (store_created hash d cache) after.1) in
      let seen = ap (λ r. lookup other r.1) created in
      (
        (after.0.0, seen ∙ after.0.1),
        ap (λ r. lookup other r.1) removing
            ∙ ap (λ r. lookup other (erase hash r.1)) created
            ∙ stays
            ∙ removed_elsewhere hash other after.0.0 (lookup other (store_created hash d cache))
                (lookup other cache) after.0.1,
      )
