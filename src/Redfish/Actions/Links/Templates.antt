-- ===== src/Redfish/Actions/Links/Templates.antt =====
-- The URIs that a link's template gives (src/core/route/redfish/node.hpp).
use obmc_yadro_webapp.Prelude.{
  ◌≡◌, ◌∙◌, refl, sym, ap, inl, inr, true, some, List, [], ◌∷◌, ◌++◌, map, All, append_assoc,
  append-nil, text_eq, nat_eq, arith, Option-cases,
}
use mathlib.Core.Path.{subst}
use obmc_yadro_webapp.Prelude.Text.{Text}
use obmc_yadro_webapp.Entity.{Instance, get_field, get_string_value}
use obmc_yadro_webapp.Redfish.Payload.{text_ltb}
use obmc_yadro_webapp.Redfish.Context.{RedfishContext, encode_uri_segment}
use obmc_yadro_webapp.Redfish.Actions.Links.{
  format_template, ResolvedTmpls, emplace_template, merge_templates, braced, resolve_instances,
  resolve_parameter, ParameterConditions, first_instances, next_instances, resolve_each,
  resolve_parameters, resolve_template,
}
use obmc_yadro_webapp.Redfish.Actions.Links.Formatted.{
  Formatted, whole, one_more, Rises, IsSound, emplace-IsSound, merge-IsSound,
}

-- The parameters that were put in, of a link's template.
module _ (uri_tmpl : Text) where
  abbrev Sound : List (Text × ParameterConditions) → ResolvedTmpls → Type 0
  Sound params tmpls = IsSound (Formatted params uri_tmpl) tmpls

  module _ (params : List (Text × ParameterConditions)) (name : Text)
      (resolver : ParameterConditions) where
    resolve_instances-Sound :
        (tmpl : Text) (instances : List Instance) (current resolved : ResolvedTmpls)
        → Formatted params uri_tmpl tmpl
        → Sound (params ++ (name, resolver) ∷ []) current
        → resolve_instances tmpl name resolver.member_name resolver.entity instances current
          ≡ some resolved
        → Sound (params ++ (name, resolver) ∷ []) resolved
    unfolding resolve_instances
    resolve_instances-Sound tmpl [] current resolved f h e =
        let same : current ≡ resolved = cc in subst (Sound (params ++ (name, resolver) ∷ [])) same h
    resolve_instances-Sound tmpl (i ∷ instances) current resolved f h e =
        elim (Option-cases (
          format_template tmpl (braced name)
            (encode_uri_segment (get_string_value (get_field resolver.member_name i))))) [
              | inl missing ↦ absurd (ground arith)
              | inr (formatted, made) ↦
                  let rest : resolve_instances tmpl name resolver.member_name resolver.entity
                        instances (emplace_template formatted i resolver.entity current)
                      ≡ some resolved =
                    ground arith in
                  resolve_instances-Sound tmpl instances
                    (emplace_template formatted i resolver.entity current) resolved f
                    (emplace-IsSound (Formatted (params ++ (name, resolver) ∷ []) uri_tmpl)
                      formatted i resolver.entity current
                      (one_more params name resolver uri_tmpl tmpl formatted i f made) h)
                    rest
            ]

    resolve_parameter-Sound :
        (tmpl : Text) (instances : List Instance) (resolved : ResolvedTmpls)
        → Formatted params uri_tmpl tmpl
        → resolve_parameter tmpl name resolver.member_name resolver.entity instances ≡ some resolved
        → Sound (params ++ (name, resolver) ∷ []) resolved
    unfolding resolve_parameter
    resolve_parameter-Sound tmpl instances resolved f e =
        resolve_instances-Sound tmpl instances [] resolved f (tt, tt) e

    resolve_each-Sound :
        (tmpls current resolved : ResolvedTmpls)
        → All (λ t. Formatted params uri_tmpl t.0) tmpls
        → Sound (params ++ (name, resolver) ∷ []) current
        → resolve_each name resolver tmpls current ≡ some resolved
        → Sound (params ++ (name, resolver) ∷ []) resolved
    unfolding resolve_each
    resolve_each-Sound [] current resolved f h e =
        let same : current ≡ resolved = cc in subst (Sound (params ++ (name, resolver) ∷ [])) same h
    resolve_each-Sound ((tmpl, parent, own) ∷ tmpls) current resolved f h e =
        elim (Option-cases (next_instances resolver parent own)) [
          | inl failed ↦ absurd (ground arith)
          | inr (instances, found) ↦
              elim (Option-cases
                (resolve_parameter tmpl name resolver.member_name resolver.entity instances)) [
                  | inl failed ↦ absurd (ground arith)
                  | inr (more, made) ↦
                      let rest : resolve_each name resolver tmpls (merge_templates current more)
                          ≡ some resolved =
                        ground arith in
                      resolve_each-Sound tmpls (merge_templates current more) resolved f.1
                        (merge-IsSound (Formatted (params ++ (name, resolver) ∷ []) uri_tmpl)
                          current more h (resolve_parameter-Sound tmpl instances more f.0 made).1)
                        rest
                ]
        ]

  -- The parameters that are in the templates end those that the loop has gone through.
  abbrev Resolved : List (Text × ParameterConditions) → ResolvedTmpls → Type 0
  Resolved params tmpls =
      (before : List (Text × ParameterConditions)) × (put : List (Text × ParameterConditions))
      × (params ≡ before ++ put)
      × Sound put tmpls

  Resolved-behind :
      (params rest : List (Text × ParameterConditions)) (tmpls : ResolvedTmpls)
      → Resolved rest tmpls
      → Resolved (params ++ rest) tmpls
  Resolved-behind params rest tmpls (before, put, e, h) =
      (params ++ before, put, ap (λ r. params ++ r) e ∙ sym (append_assoc params before put), h)

  nothing-Resolved : (params : List (Text × ParameterConditions)) → Resolved params []
  nothing-Resolved params = (params, [], sym (append-nil params), (tt, tt))

  resolve_parameters-Resolved :
      (ctx : RedfishContext) (resolvers params : List (Text × ParameterConditions))
      (partial resolved : ResolvedTmpls)
      → Sound params partial
      → resolve_parameters uri_tmpl ctx resolvers partial ≡ some resolved
      → Resolved (params ++ resolvers) resolved
  unfolding resolve_parameters
  resolve_parameters-Resolved ctx [] params [] resolved h e =
      let same : [] ≡ resolved = cc in ([], params, append-nil params, subst (Sound params) same h)
  resolve_parameters-Resolved ctx [] params (p ∷ partial) resolved h e =
      let same : p ∷ partial ≡ resolved = cc in
      ([], params, append-nil params, subst (Sound params) same h)
  resolve_parameters-Resolved ctx ((name, resolver) ∷ rest) params [] resolved h e =
      elim (Option-cases (first_instances resolver ctx)) [
        | inl failed ↦ absurd (ground arith)
        | inr (instances, found) ↦
            elim (Option-cases
              (resolve_parameter uri_tmpl name resolver.member_name resolver.entity instances)) [
                | inl failed ↦ absurd (ground arith)
                | inr ([], made) ↦
                    let nothing : [] ≡ resolved = ground arith in
                    subst (Resolved (params ++ (name, resolver) ∷ rest)) nothing
                      (nothing-Resolved (params ++ (name, resolver) ∷ rest))
                | inr (t ∷ current, made) ↦
                    let behind : resolve_parameters uri_tmpl ctx rest (t ∷ current)
                        ≡ some resolved =
                      ground arith in
                    Resolved-behind params ((name, resolver) ∷ rest) resolved (
                      resolve_parameters-Resolved ctx rest ((name, resolver) ∷ []) (t ∷ current)
                        resolved
                        (resolve_parameter-Sound [] name resolver uri_tmpl instances (t ∷ current)
                          (whole uri_tmpl) made)
                        behind)
              ]
      ]
  resolve_parameters-Resolved ctx ((name, resolver) ∷ rest) params (p ∷ partial) resolved h e =
      elim (Option-cases (resolve_each name resolver (p ∷ partial) [])) [
        | inl failed ↦ absurd (ground arith)
        | inr (current, made) ↦
            let behind : resolve_parameters uri_tmpl ctx rest current ≡ some resolved =
              ground arith in
            subst (λ ps. Resolved ps resolved) (append_assoc params ((name, resolver) ∷ []) rest)
              (resolve_parameters-Resolved ctx rest (params ++ (name, resolver) ∷ []) current
                resolved
                (resolve_each-Sound params name resolver (p ∷ partial) [] current h.1 (tt, tt) made)
                behind)
      ]

-- The texts rise strictly.
pub IsAscending : List Text → Type 0
IsAscending [] = Unit
IsAscending (s ∷ []) = Unit
IsAscending (s ∷ (t ∷ uris)) = (text_ltb s t ≡ true) × IsAscending (t ∷ uris)

Rises-IsAscending : (tmpls : ResolvedTmpls) → Rises tmpls → IsAscending (map (λ t. t.0) tmpls)
unfolding IsAscending
Rises-IsAscending [] h = tt
Rises-IsAscending ((s, i, own) ∷ []) h = tt
Rises-IsAscending ((s, i, own) ∷ ((t, j, other) ∷ tmpls)) h =
    (h.0, Rises-IsAscending ((t, j, other) ∷ tmpls) h.1)

texts-All :
    (P : Text → Type 0) (tmpls : ResolvedTmpls)
    → All (λ t. P t.0) tmpls
    → All P (map (λ t. t.0) tmpls)
texts-All P [] h = tt
texts-All P (t ∷ tmpls) h = (h.0, texts-All P tmpls h.1)

-- The URIs of a link rise strictly, so that none stands twice. Each one is the link's template with
-- the parameters put in, by the segments of instances, that are left from some point on.
pub resolve_template_sound :
    (uri_tmpl : Text) (resolvers : List (Text × ParameterConditions)) (ctx : RedfishContext)
    (uris : List Text)
    → resolve_template uri_tmpl resolvers ctx ≡ some uris
    → IsAscending uris
      × ((before : List (Text × ParameterConditions)) × (put : List (Text × ParameterConditions))
          × (resolvers ≡ before ++ put)
          × All (Formatted put uri_tmpl) uris)
unfolding resolve_template
resolve_template_sound uri_tmpl [] ctx uris e =
    let same : uri_tmpl ∷ [] ≡ uris = cc in
    subst
      (λ us.
        IsAscending us
        × ((before : List (Text × ParameterConditions)) × (put : List (Text × ParameterConditions))
            × ([] ≡ before ++ put)
            × All (Formatted put uri_tmpl) us))
      same (unfold IsAscending in tt, ([], [], refl, (whole uri_tmpl, tt)))
resolve_template_sound uri_tmpl (r ∷ resolvers) ctx uris e =
    elim (Option-cases (resolve_parameters uri_tmpl ctx (r ∷ resolvers) [])) [
      | inl failed ↦ absurd (ground arith)
      | inr (resolved, made) ↦
          let same : map (λ t. t.0) resolved ≡ uris = ground arith in
          let (before, put, parts, sound) =
            resolve_parameters-Resolved uri_tmpl ctx (r ∷ resolvers) [] [] resolved (tt, tt) made in
          subst
            (λ us.
              IsAscending us
              × ((before : List (Text × ParameterConditions)) × (put : List
                    (Text × ParameterConditions))
                  × (r ∷ resolvers ≡ before ++ put)
                  × All (Formatted put uri_tmpl) us))
            same
            (
              Rises-IsAscending resolved sound.0,
              (before, put, parts, texts-All (Formatted put uri_tmpl) resolved sound.1),
            )
    ]
