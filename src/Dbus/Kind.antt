-- ===== src/Dbus/Kind.antt =====
-- The kind of instances that stand for objects of the bus (src/core/entity/dbus_query.cpp).
use obmc_yadro_webapp.Prelude.{◌≡◌, ◌∙◌, refl, sym, ap, none, some, List, [], ◌∷◌}
use mathlib.Core.Option.{some-injective}
use obmc_yadro_webapp.Prelude.Text.{Text}
use obmc_yadro_webapp.Entity.{FieldType, Instance, supplement_or_update}
use obmc_yadro_webapp.Entity.Merge.{supplement_or_update_lem}
use obmc_yadro_webapp.Entity.Store.{InstanceKind}
use obmc_yadro_webapp.Dbus.{supplement_from_dbus}
use obmc_yadro_webapp.Dbus.Meta.{supplement_from_dbus_lem}

pub supplement_from_dbus-hash :
    (destination i next : Instance)
    → supplement_from_dbus destination i ≡ some next
    → next.hash ≡ i.hash
supplement_from_dbus-hash destination i next e =
    let done = supplement_from_dbus_lem destination i in
    ap (λ v. v.hash) (some-injective next done.0 (sym e ∙ done.1)) ∙ done.3

-- `initDefaultFieldsValue`: each default is computed from the instance, and replaces what it has.
unfoldable pub init_default_fields : List (Text × (Instance → FieldType)) → Instance → Instance
unfolding supplement_or_update
init_default_fields [] i = i
init_default_fields ((member, setter) ∷ rest) i = elim (supplement_or_update member (setter i) i) [
  | none ↦ i
  | some next ↦ init_default_fields rest next
]

pub init_default_fields-hash :
    (defaults : List (Text × (Instance → FieldType))) (i : Instance)
    → (init_default_fields defaults i).hash ≡ i.hash
unfolding init_default_fields
init_default_fields-hash [] i = refl
init_default_fields-hash ((member, setter) ∷ rest) i =
    let step = supplement_or_update_lem member (setter i) i in
    rw (step.1, init_default_fields) (init_default_fields-hash rest step.0 ∙ step.3)

-- With the fields that the query has defaults for, and with what reading the bus makes of the
-- fields of an instance, which is a parameter.
module _ (defaults : List (Text × (Instance → FieldType))) (verify_fields : Instance → Instance)
    (verify_fields-hash : (i : Instance) → (verify_fields i).hash ≡ i.hash) where
  abbrev pub dbus_kind : InstanceKind
  dbus_kind = record {
    supplement_or_update_from = supplement_from_dbus;
    init_default_fields_value = init_default_fields defaults;
    verify_state = verify_fields;
    supplement_hash = supplement_from_dbus-hash;
    init_hash = init_default_fields-hash defaults;
    verify_hash = verify_fields-hash;
  }
