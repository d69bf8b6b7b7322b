-- ===== src/Redfish/Actions.antt =====
-- The actions that fill the payload of a Redfish node (src/core/route/redfish/node.hpp). An action
-- changes its context and may throw; `undefined` is the reading of a member that a constant JSON
-- object does not have, or of an instance that is not there.
pub mod Entities
pub mod Links
pub mod Contained
pub mod Collected
use obmc_yadro_webapp.Prelude.{
  ℕ, suc, ◌≡◌, Bool, true, false, Option, none, some, List, [], ◌∷◌, ◌++◌, map, if◌then◌else◌,
  length,
}
use obmc_yadro_webapp.Prelude.Int.{ℤ, pos}
use obmc_yadro_webapp.Prelude.Text.{Text, text, to_string}
use obmc_yadro_webapp.Json.{
  Json, Items, Fields, null, boolean, int, float, str, arr, obj, nil, cons, end, field, to_items,
  item_list,
}
use obmc_yadro_webapp.Redfish.Payload.{find_member}
use obmc_yadro_webapp.Redfish.Context.{
  RedfishContext, copy_context, context_add_anchor_segment, response_add,
}

pub data Handled (A : Type 0) : Type 0 where
  done : A → RedfishContext → Handled A
  thrown : RedfishContext → Handled A
  undefined : Handled A

infixl 5 ◌>>=◌
abbrev pub ◌>>=◌ : {A B : Type 0} → Handled A → (A → RedfishContext → Handled B) → Handled B
done a ctx >>= f = f a ctx
thrown ctx >>= f = thrown ctx
undefined >>= f = undefined

-- What a part does to a context of its own is lost; its exception is not.
unfoldable pub inside :
    {A B : Type 0} → RedfishContext → Handled A → (A → RedfishContext → Handled B) → Handled B
inside ctx (done a mock) f = f a mock
inside ctx (thrown mock) f = thrown ctx
inside ctx undefined f = undefined

-- `IAction`. There is no field's name where `getFieldName` throws.
pub record Action : Type 0 where
  pub get_field_name : Option Text
  pub process : RedfishContext → Handled (Unit {0})

unfoldable pub process_all : List Action → RedfishContext → Handled (Unit {0})
process_all [] ctx = done tt ctx
process_all (getter ∷ getters) ctx = getter.process ctx >>= λ _ next. process_all getters next

-- `FieldGetter` of a value.
unfoldable pub field_getter : Text → Json → Action
unfolding response_add
field_getter name value = record {
  get_field_name = some name;
  process = λ ctx. done tt (response_add name value ctx);
}

-- `FieldGetter` of a function; `none` is its exception.
unfoldable pub callable_getter : Text → Option Text → Action
unfolding response_add
callable_getter name invoked = record {
  get_field_name = some name;
  process =
      λ ctx. elim invoked [ none ↦ thrown ctx | some s ↦ done tt (response_add name (str s) ctx) ];
}

-- `EnumGetter`, with what `castEnumToString` makes of the value, or its exception.
unfoldable pub enum_getter : (ℤ → Option Text) → Text → ℤ → Action
unfolding response_add
enum_getter cast_enum_to_string name value = record {
  get_field_name = some name;
  process = λ ctx. elim (cast_enum_to_string value) [
    | none ↦ done tt (response_add name null ctx)
    | some s ↦ done tt (response_add name (str s) ctx)
  ];
}

-- What `childs` of a complex action gives, in the context that it is given.
abbrev pub Childs : Type 0
Childs = RedfishContext → Handled (List Action)

-- `process` of `ObjectGetter`: an empty object is skipped.
unfoldable pub add_object : Text → Fields → RedfishContext → RedfishContext
unfolding response_add
add_object name end ctx = ctx
add_object name (field k v rest) ctx = response_add name (obj (field k v rest)) ctx

unfoldable pub object_getter : Text → Childs → Action
unfolding inside process_all add_object copy_context context_add_anchor_segment
object_getter name childs = record {
  get_field_name = some name;
  process = λ ctx.
      inside ctx (childs (context_add_anchor_segment name (copy_context ctx)) >>= process_all)
        (λ _ mock. done tt (add_object name mock.answer.payload ctx));
}

-- The loop of `StaticCollectionGetter`: each child fills a payload of its own.
unfoldable pub collect : List Action → RedfishContext → RedfishContext → Handled (List Json)
unfolding inside copy_context find_member
collect [] complex ctx = done [] ctx
collect (getter ∷ getters) complex ctx =
    inside ctx (getter.process (copy_context complex)) (λ _ mock. elim getter.get_field_name [
      | none ↦ thrown ctx
      | some name ↦ elim (find_member name mock.answer.payload) [
        | none ↦ undefined
        | some payload ↦
            collect getters complex ctx >>= λ payloads next. done (payload ∷ payloads) next
      ]
    ])

-- `process` of `StaticCollectionGetter`; `sort` is `std::sort` by the order of JSON values.
unfoldable pub static_collection_getter : (List Json → List Json) → Text → Childs → Action
unfolding inside collect copy_context context_add_anchor_segment response_add
static_collection_getter sort name childs = record {
  get_field_name = some name;
  process = λ ctx.
      inside ctx (childs (context_add_anchor_segment name (copy_context ctx))) (λ getters complex.
        collect getters complex ctx >>= λ array next.
        done tt (response_add name (arr (to_items (sort array))) next));
}

unfoldable pub annotation_field_name : Text → Text
annotation_field_name name = name ++ text "@odata.count"

unfoldable pub collection_size_annotation : Text → Action
unfolding find_member annotation_field_name response_add
collection_size_annotation item_field_name = record {
  get_field_name = some (annotation_field_name item_field_name);
  process = λ ctx. elim (find_member item_field_name ctx.answer.payload) [
    | none ↦ undefined
    | some (arr values) ↦ done tt (
        response_add (annotation_field_name item_field_name) (int (pos (length (item_list values))))
          ctx)
    | some value ↦ thrown ctx
  ];
}
