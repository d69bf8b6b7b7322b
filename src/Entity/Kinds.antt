-- ===== src/Entity/Kinds.antt =====
-- The plain kind of instances: `StaticInstance` (src/core/entity/entity.cpp).
use obmc_yadro_webapp.Prelude.{◌≡◌, ◌∙◌, refl, sym, ap, some}
use mathlib.Core.Option.{some-injective}
use obmc_yadro_webapp.Entity.{Instance, supplement_from, get_member_names}
use obmc_yadro_webapp.Entity.Merge.{supplement_members_lem}
use obmc_yadro_webapp.Entity.Store.{InstanceKind}

pub supplement_from-hash :
    (destination i next : Instance) → supplement_from destination i ≡ some next → next.hash ≡ i.hash
unfolding supplement_from
supplement_from-hash destination i next e =
    let done = supplement_members_lem (get_member_names destination) destination i in
    ap (λ v. v.hash) (some-injective next done.0 (sym e ∙ done.1)) ∙ done.3

-- It has no default fields and no state to verify.
abbrev pub static_kind : InstanceKind
static_kind = record {
  supplement_or_update_from = supplement_from;
  init_default_fields_value = λ i. i;
  verify_state = λ i. i;
  supplement_hash = supplement_from-hash;
  init_hash = λ i. refl;
  verify_hash = λ i. refl;
}
