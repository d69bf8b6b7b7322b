-- ===== src/Redfish/Actions/Collected.antt =====
-- What a collection of a Redfish node gathers (src/core/route/redfish/node.hpp).
use obmc_yadro_webapp.Prelude.{
  ◌≡◌, ◌∙◌, ◌↔◌, refl, sym, ap, inl, inr, Option, none, some, List, [], ◌∷◌, arith, Option-cases,
}
use mathlib.Core.Path.{subst}
use obmc_yadro_webapp.Prelude.Text.{Text}
use obmc_yadro_webapp.Json.{Json}
use obmc_yadro_webapp.Redfish.Payload.{find_member}
use obmc_yadro_webapp.Redfish.Context.{RedfishContext, copy_context}
use obmc_yadro_webapp.Redfish.Actions.{
  Handled, done, thrown, undefined, ◌>>=◌, inside, Action, collect,
}

-- Each action ends, and its field is in the payload that it fills in a context of its own.
pub Fill : List Action → RedfishContext → List Json → Type 0
Fill [] complex [] = Unit
Fill [] complex (v ∷ values) = ⊥
Fill (getter ∷ getters) complex [] = ⊥
Fill (getter ∷ getters) complex (v ∷ values) =
    (name : Text) × (mock : RedfishContext) × (getter.process (copy_context complex) ≡ done tt mock)
    × (getter.get_field_name ≡ some name)
    × (find_member name mock.answer.payload ≡ some v)
    × Fill getters complex values

-- The rest of the loop behind a part.
abbrev behind_part :
    RedfishContext → Option Text → RedfishContext → Handled (List Json) → Handled (List Json)
behind_part ctx field_name mock rest = elim field_name [
  | none ↦ thrown ctx
  | some name ↦ elim (find_member name mock.answer.payload) [
    | none ↦ undefined
    | some payload ↦ rest >>= λ payloads next. done (payload ∷ payloads) next
  ]
]

behind-done :
    (v : Json) (rest : Handled (List Json)) (values : List Json) (next : RedfishContext)
    → (rest >>= λ payloads after. done (v ∷ payloads) after) ≡ done values next
    → (others : List Json) × (values ≡ v ∷ others) × (rest ≡ done others next)
behind-done v (done others after) values next e = (others, ground arith, ground arith)
behind-done v (thrown after) values next e = absurd (ground arith)
behind-done v undefined values next e = absurd (ground arith)

part-done :
    (ctx mock : RedfishContext) (field_name : Option Text) (rest : Handled (List Json))
    (values : List Json) (next : RedfishContext)
    → behind_part ctx field_name mock rest ≡ done values next
    → (name : Text) × (v : Json) × (others : List Json) × (field_name ≡ some name)
      × (find_member name mock.answer.payload ≡ some v)
      × (values ≡ v ∷ others)
      × (rest ≡ done others next)
part-done ctx mock none rest values next e = absurd (ground arith)
part-done ctx mock (some name) rest values next e =
    elim (Option-cases (find_member name mock.answer.payload)) [
      | inl missing ↦ absurd (
          cc (
            subst
              (λ (o : Option Json).
                elim o [
                  | none ↦ undefined
                  | some payload ↦ rest >>= λ payloads after. done (payload ∷ payloads) after
                ]
                ≡ done values next)
              missing e))
      | inr (v, found) ↦
          let (others, listed, gathered) = behind-done v rest values next (
            subst
              (λ (o : Option Json).
                elim o [
                  | none ↦ undefined
                  | some payload ↦ rest >>= λ payloads after. done (payload ∷ payloads) after
                ]
                ≡ done values next)
              found e) in
          (name, v, others, refl, found, listed, gathered)
    ]

inside-done :
    (ctx : RedfishContext) (part : Handled (Unit {0}))
    (f : Unit {0} → RedfishContext → Handled (List Json)) (values : List Json)
    (next : RedfishContext)
    → inside ctx part f ≡ done values next
    → (mock : RedfishContext) × (part ≡ done tt mock) × (f tt mock ≡ done values next)
unfolding inside
inside-done ctx (done tt mock) f values next e = (mock, refl, e)
inside-done ctx (thrown mock) f values next e = absurd (cc)
inside-done ctx undefined f values next e = absurd (cc)

collect-Fill :
    (getters : List Action) (complex ctx : RedfishContext) (values : List Json)
    (next : RedfishContext)
    → collect getters complex ctx ≡ done values next
    → Fill getters complex values × (next ≡ ctx)
unfolding collect Fill
collect-Fill [] complex ctx [] next e = (tt, cc)
collect-Fill [] complex ctx (v ∷ values) next e = absurd (cc)
collect-Fill (getter ∷ getters) complex ctx values next e =
    let (mock, processed, behind) =
      inside-done ctx (getter.process (copy_context complex))
        (λ _ mock. behind_part ctx getter.get_field_name mock (collect getters complex ctx)) values
        next e in
    let (name, v, others, named, found, listed, rest) =
      part-done ctx mock getter.get_field_name (collect getters complex ctx) values next behind in
    let (filled, same) = collect-Fill getters complex ctx others next rest in
    (
      subst (λ vs. Fill (getter ∷ getters) complex vs) (sym listed)
          (name, mock, processed, named, found, filled),
      same,
    )

Fill-collect :
    (getters : List Action) (complex ctx : RedfishContext) (values : List Json)
    → Fill getters complex values
    → collect getters complex ctx ≡ done values ctx
unfolding collect Fill inside
Fill-collect [] complex ctx [] h = refl
Fill-collect [] complex ctx (v ∷ values) h = absurd h
Fill-collect (getter ∷ getters) complex ctx [] h = absurd h
Fill-collect (getter ∷ getters) complex ctx (v ∷ values)
      (name, mock, processed, named, found, filled) =
    rw (collect, processed, inside, named, found, Fill-collect getters complex ctx values filled)
      refl

-- A collection's loop ends well exactly if every child ends, has a name and has put a member of that
-- name into the payload of its own; it then gives these members, in the order of the children, and
-- leaves the answer as it is.
pub collect_iff :
    (getters : List Action) (complex ctx next : RedfishContext) (values : List Json)
    → (collect getters complex ctx ≡ done values next)
      ↔ (Fill getters complex values × (next ≡ ctx))
collect_iff getters complex ctx next values = (
  collect-Fill getters complex ctx values next,
  λ h. Fill-collect getters complex ctx values h.0 ∙ ap (done values) (sym h.1),
)
