-- ===== src/Redfish/Actions/Links/Formatted.antt =====
-- Templates with parameters put in, and maps of them (src/core/route/redfish/node.hpp).
use obmc_yadro_webapp.Prelude.{
  ◌≡◌, refl, inl, inr, true, false, some, List, [], ◌∷◌, ◌++◌, All, ◌==◌, text_eq, nat_eq, text_beq,
  arith, Bool-cases,
}
use obmc_yadro_webapp.Prelude.Text.{Text}
use obmc_yadro_webapp.Entity.{Instance, get_field, get_string_value}
use obmc_yadro_webapp.Redfish.Payload.{text_ltb}
use obmc_yadro_webapp.Redfish.Context.{IEntity, encode_uri_segment}
use obmc_yadro_webapp.Redfish.Actions.Links.{
  format_template, ResolvedTmpls, emplace_template, merge_templates, braced, ParameterConditions,
}

-- The parameters, in their order, are put into a template: for each one its first occurrence in
-- braces, by the segment that stands for the member of an instance.
pub data Formatted : List (Text × ParameterConditions) → Text → Text → Type 0 where
  whole : (tmpl : Text) → Formatted [] tmpl tmpl
  put_in :
      (name : Text) (resolver : ParameterConditions) (rest : List (Text × ParameterConditions))
      (tmpl next uri : Text) (i : Instance)
      → format_template tmpl
          (braced name)
          (encode_uri_segment (get_string_value (get_field resolver.member_name i)))
        ≡ some next
      → Formatted rest next uri
      → Formatted ((name, resolver) ∷ rest) tmpl uri

pub one_more :
    (params : List (Text × ParameterConditions)) (name : Text) (resolver : ParameterConditions)
    (tmpl before uri : Text) (i : Instance)
    → Formatted params tmpl before
    → format_template before
        (braced name)
        (encode_uri_segment (get_string_value (get_field resolver.member_name i)))
      ≡ some uri
    → Formatted (params ++ (name, resolver) ∷ []) tmpl uri
one_more _ name resolver tmpl _ uri i (whole _) e =
    put_in name resolver [] tmpl uri uri i e (whole uri)
one_more _ name resolver _ _ uri i (put_in n r rest tmpl next before j f h) e =
    put_in n r (rest ++ (name, resolver) ∷ []) tmpl next uri j f
      (one_more rest name resolver next before uri i h e)

-- The templates rise strictly, so that none stands twice.
abbrev pub IsAboveText : Text → ResolvedTmpls → Type 0
IsAboveText s [] = Unit
IsAboveText s ((t, i, entity) ∷ tmpls) = text_ltb s t ≡ true

abbrev pub Rises : ResolvedTmpls → Type 0
Rises [] = Unit
Rises ((t, i, entity) ∷ tmpls) = IsAboveText t tmpls × Rises tmpls

text_ltb-or : (s t : Text) → (t == s) ≡ false → text_ltb s t ≡ false → text_ltb t s ≡ true
unfolding text_ltb text_beq
text_ltb-or [] [] n l = absurd (ground arith)
text_ltb-or [] (b ∷ t) n l = absurd (ground arith)
text_ltb-or (a ∷ s) [] n l = refl
text_ltb-or (a ∷ s) (b ∷ t) n l = ground (arith, text_ltb-or s t)

emplace-IsAbove :
    (s tmpl : Text) (i : Instance) (entity : IEntity) (tmpls : ResolvedTmpls)
    → text_ltb s tmpl ≡ true
    → IsAboveText s tmpls
    → IsAboveText s (emplace_template tmpl i entity tmpls)
unfolding emplace_template
emplace-IsAbove s tmpl i entity [] l h = l
emplace-IsAbove s tmpl i entity ((t, j, own) ∷ tmpls) l h = elim (Bool-cases (t == tmpl)) [
  | inl same ↦ rw same h
  | inr other ↦ elim (Bool-cases (text_ltb tmpl t)) [
    | inl less ↦ rw (other, less) l
    | inr more ↦ rw (other, more) h
  ]
]

emplace-Rises :
    (tmpl : Text) (i : Instance) (entity : IEntity) (tmpls : ResolvedTmpls)
    → Rises tmpls
    → Rises (emplace_template tmpl i entity tmpls)
unfolding emplace_template
emplace-Rises tmpl i entity [] h = (tt, tt)
emplace-Rises tmpl i entity ((t, j, own) ∷ tmpls) h = elim (Bool-cases (t == tmpl)) [
  | inl same ↦ rw same h
  | inr other ↦ elim (Bool-cases (text_ltb tmpl t)) [
    | inl less ↦ rw (other, less) (less, h)
    | inr more ↦
        rw (other, more)
          (
            emplace-IsAbove t tmpl i entity tmpls (text_ltb-or tmpl t other more) h.0,
            emplace-Rises tmpl i entity tmpls h.1,
          )
  ]
]

module _ (P : Text → Type 0) where
  -- Every template has the property.
  abbrev Each : ResolvedTmpls → Type 0
  Each tmpls = All (λ t. P t.0) tmpls

  emplace-Each :
      (tmpl : Text) (i : Instance) (entity : IEntity) (tmpls : ResolvedTmpls)
      → P tmpl
      → Each tmpls
      → Each (emplace_template tmpl i entity tmpls)
  unfolding emplace_template
  emplace-Each tmpl i entity [] p h = (p, tt)
  emplace-Each tmpl i entity ((t, j, own) ∷ tmpls) p h = elim (Bool-cases (t == tmpl)) [
    | inl same ↦ rw same h
    | inr other ↦ elim (Bool-cases (text_ltb tmpl t)) [
      | inl less ↦ rw (other, less) (p, h)
      | inr more ↦ rw (other, more) (h.0, emplace-Each tmpl i entity tmpls p h.1)
    ]
  ]

-- The templates rise and each has the property.
abbrev pub IsSound : (Text → Type 0) → ResolvedTmpls → Type 0
IsSound P tmpls = Rises tmpls × All (λ t. P t.0) tmpls

pub emplace-IsSound :
    (P : Text → Type 0) (tmpl : Text) (i : Instance) (entity : IEntity) (tmpls : ResolvedTmpls)
    → P tmpl
    → IsSound P tmpls
    → IsSound P (emplace_template tmpl i entity tmpls)
emplace-IsSound P tmpl i entity tmpls p h =
    (emplace-Rises tmpl i entity tmpls h.0, emplace-Each P tmpl i entity tmpls p h.1)

pub merge-IsSound :
    (P : Text → Type 0) (current tmpls : ResolvedTmpls)
    → IsSound P current
    → All (λ t. P t.0) tmpls
    → IsSound P (merge_templates current tmpls)
unfolding merge_templates
merge-IsSound P current [] h k = h
merge-IsSound P current ((t, i, entity) ∷ tmpls) h k =
    merge-IsSound P (emplace_template t i entity current) tmpls
      (emplace-IsSound P t i entity current k.0 h) k.1
