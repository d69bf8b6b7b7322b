-- ===== src/Redfish/Actions/Contained.antt =====
-- What the parts of a Redfish answer can change (src/core/route/redfish/node.hpp).
use obmc_yadro_webapp.Prelude.{
  ◌≡◌, ◌∙◌, ◌⊎◌, refl, inl, inr, false, Option, none, some, List, [], ◌∷◌, ◌==◌, text_eq,
}
use obmc_yadro_webapp.Prelude.Text.{Text}
use obmc_yadro_webapp.Json.{Json, Fields, obj, arr, end, field, to_items}
use obmc_yadro_webapp.Redfish.Payload.{find_member, subscript, added, add}
use obmc_yadro_webapp.Redfish.Payload.Errors.{subscript-put_member}
use obmc_yadro_webapp.Redfish.Context.{
  RedfishContext, copy_context, context_add_anchor_segment, response_add,
}
use obmc_yadro_webapp.Redfish.Actions.{
  Handled, done, thrown, undefined, ◌>>=◌, inside, Action, Childs, process_all, add_object,
  object_getter, collect, static_collection_getter,
}

-- Where the action ends, also by an exception, the status and the headers of the answer are those
-- before, and so is the member under the key.
pub Keeps : Text → RedfishContext → Handled (Unit {0}) → Type 0
Keeps key ctx handled =
    (handled ≡ undefined)
    ⊎ ((after : RedfishContext) × ((handled ≡ thrown after) ⊎ (handled ≡ done tt after))
        × (after.answer.response ≡ ctx.answer.response)
        × (subscript key after.answer.payload ≡ subscript key ctx.answer.payload))

module _ (name key : Text) (other : (name == key) ≡ false) (ctx : RedfishContext) where
  response_add-Keeps : (json : Json) → Keeps key ctx (done tt (response_add name json ctx))
  unfolding Keeps response_add add
  response_add-Keeps json = inr (
    response_add name json ctx,
    inr refl,
    refl,
    subscript-put_member name key (added (subscript name ctx.answer.payload) json)
          ctx.answer.payload
        ∙ rw other refl,
  )

  thrown-Keeps : Keeps key ctx (thrown ctx)
  unfolding Keeps
  thrown-Keeps = inr (ctx, inl refl, refl, refl)

  add_object-Keeps : (payload : Fields) → Keeps key ctx (done tt (add_object name payload ctx))
  unfolding Keeps add_object
  add_object-Keeps end = inr (ctx, inr refl, refl, refl)
  add_object-Keeps (field k v rest) = response_add-Keeps (obj (field k v rest))

  object-Keeps :
      (part : Handled (Unit {0}))
      → Keeps key ctx
          (inside ctx part (λ _ mock. done tt (add_object name mock.answer.payload ctx)))
  unfolding inside
  object-Keeps (done a mock) = add_object-Keeps mock.answer.payload
  object-Keeps (thrown mock) = thrown-Keeps
  object-Keeps undefined = unfold Keeps in inl refl

-- What a collection gathers: the elements, or nothing, in the context that it was given.
abbrev Gathers : RedfishContext → Handled (List Json) → Type 0
Gathers ctx handled =
    (handled ≡ undefined)
    ⊎ (handled ≡ thrown ctx)
    ⊎ ((values : List Json) × (handled ≡ done values ctx))

behind-Gathers :
    (ctx : RedfishContext) (payload : Json) (rest : Handled (List Json))
    → Gathers ctx rest
    → Gathers ctx (rest >>= λ payloads next. done (payload ∷ payloads) next)
behind-Gathers ctx payload rest (inl e) = inl (rw e refl)
behind-Gathers ctx payload rest (inr (inl e)) = inr (inl (rw e refl))
behind-Gathers ctx payload rest (inr (inr (values, e))) = inr (inr (payload ∷ values, rw e refl))

-- A field that was found, or not, in the payload of a part.
found-Gathers :
    (ctx : RedfishContext) (found : Option Json) (rest : Handled (List Json))
    → Gathers ctx rest
    → Gathers ctx (elim found [
      | none ↦ undefined
      | some payload ↦ rest >>= λ payloads next. done (payload ∷ payloads) next
    ])
found-Gathers ctx none rest h = inl refl
found-Gathers ctx (some payload) rest h = behind-Gathers ctx payload rest h

part-Gathers :
    (ctx : RedfishContext) (part : Handled (Unit {0})) (field_name : Option Text)
    (rest : Handled (List Json))
    → Gathers ctx rest
    → Gathers ctx (
        inside ctx part (λ _ mock. elim field_name [
          | none ↦ thrown ctx
          | some name ↦ elim (find_member name mock.answer.payload) [
            | none ↦ undefined
            | some payload ↦ rest >>= λ payloads next. done (payload ∷ payloads) next
          ]
        ]))
unfolding inside
part-Gathers ctx (done a mock) none rest h = inr (inl refl)
part-Gathers ctx (done a mock) (some name) rest h =
    found-Gathers ctx (find_member name mock.answer.payload) rest h
part-Gathers ctx (thrown mock) field_name rest h = inr (inl refl)
part-Gathers ctx undefined field_name rest h = inl refl

collect-Gathers :
    (getters : List Action) (complex ctx : RedfishContext)
    → Gathers ctx (collect getters complex ctx)
unfolding collect
collect-Gathers [] complex ctx = inr (inr ([], refl))
collect-Gathers (getter ∷ getters) complex ctx =
    part-Gathers ctx (getter.process (copy_context complex)) getter.get_field_name
      (collect getters complex ctx) (collect-Gathers getters complex ctx)

module _ (sort : List Json → List Json) (name key : Text) (other : (name == key) ≡ false)
    (ctx : RedfishContext) where
  gathered-Keeps :
      (gathered : Handled (List Json))
      → Gathers ctx gathered
      → Keeps key ctx (
          gathered >>= λ array next. done tt (response_add name (arr (to_items (sort array))) next))
  unfolding Keeps
  gathered-Keeps gathered (inl e) = inl (rw e refl)
  gathered-Keeps gathered (inr (inl e)) = inr (ctx, inl (rw e refl), refl, refl)
  gathered-Keeps gathered (inr (inr (values, e))) =
      rw e (response_add-Keeps name key other ctx (arr (to_items (sort values))))

  collection-Keeps :
      (getters : Handled (List Action))
      → Keeps key ctx (
          inside ctx getters (λ found complex. collect found complex ctx >>= λ array next.
          done tt (response_add name (arr (to_items (sort array))) next)))
  unfolding inside
  collection-Keeps (done found complex) =
      gathered-Keeps (collect found complex ctx) (collect-Gathers found complex ctx)
  collection-Keeps (thrown mock) = thrown-Keeps name key other ctx
  collection-Keeps undefined = unfold Keeps in inl refl

-- Whatever the parts of an object or of a collection do, the status, the headers and the other
-- members of the answer are those before, also where a part reports an error.
pub parts_contained :
    (sort : List Json → List Json) (name key : Text) (childs : Childs) (ctx : RedfishContext)
    → (name == key) ≡ false
    → Keeps key ctx ((object_getter name childs).process ctx)
      × Keeps key ctx ((static_collection_getter sort name childs).process ctx)
unfolding object_getter static_collection_getter
parts_contained sort name key childs ctx other =
    let part = context_add_anchor_segment name (copy_context ctx) in
    (
      object-Keeps name key other ctx (childs part >>= process_all),
      collection-Keeps sort name key other ctx (childs part),
    )
