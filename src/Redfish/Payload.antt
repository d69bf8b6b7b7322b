-- ===== src/Redfish/Payload.antt =====
-- The payload of a Redfish answer: properties and the errors beside them
-- (src/core/route/redfish/response.cpp).
pub mod Errors
pub mod Flash
use obmc_yadro_webapp.Prelude.{
  ℕ, Bool, true, false, Option, none, some, List, [], ◌∷◌, ◌++◌, if◌then◌else◌, ◌==◌, ltb, text_eq,
}
use obmc_yadro_webapp.Prelude.Text.{Text, text}
use obmc_yadro_webapp.Json.{
  Json, Items, Fields, null, boolean, int, float, str, arr, obj, nil, cons, end, field,
}

-- The order of `std::string`, by which an object of nlohmann::json holds its members.
unfoldable pub text_ltb : Text → Text → Bool
text_ltb s [] = false
text_ltb [] (b ∷ t) = true
text_ltb (a ∷ s) (b ∷ t) =
    let rest = text_ltb s t in if ltb a b then true else if ltb b a then false else rest

-- `find`.
unfoldable pub find_member : Text → Fields → Option Json
find_member key end = none
find_member key (field k v rest) =
    let found = find_member key rest in if k == key then some v else found

-- An assignment to `object[key]`.
unfoldable pub put_member : Text → Json → Fields → Fields
unfolding text_ltb
put_member key value end = field key value end
put_member key value (field k v rest) =
    let later = put_member key value rest in
    if k == key
    then field k value rest
    else if text_ltb key k
    then field key value (field k v rest)
    else field k v later

-- `object[key]`: a missing member is null.
unfoldable pub subscript : Text → Fields → Json
unfolding find_member
subscript key members = elim (find_member key members) [ none ↦ null | some value ↦ value ]

-- The members of a message; only an object has some.
unfoldable pub members_of : Json → Fields
members_of (obj members) = members
members_of value = end

-- The elements of a member that is forced to be an array.
unfoldable pub forced_array : Json → Items
forced_array (arr values) = values
forced_array value = nil

unfoldable pub append_items : Items → Items → Items
append_items nil ws = ws
append_items (cons v vs) ws = cons v (append_items vs ws)

unfoldable pub push_back : Json → Json → Json
unfolding forced_array append_items
push_back value message = arr (append_items (forced_array value) (cons message nil))

abbrev pub message_annotation : Text
message_annotation = text "@Message.ExtendedInfo"

abbrev pub general_error : Json
general_error = str (text "Base.1.8.1." ++ text "GeneralError")

abbrev pub general_message : Json
general_message = str (
    text "A general error has occurred. See Resolution for "
    ++ text "information on how to resolve the error.")

-- The message is listed under the error.
unfoldable pub annotate : Json → Fields → Json
unfolding put_member subscript push_back
annotate message error =
    obj
      (put_member message_annotation (push_back (subscript message_annotation error) message) error)

-- The first message fills in the error; without an identifier or a text the error stays as it is.
unfoldable pub first_error : Json → Json → Json
unfolding find_member members_of put_member annotate
first_error error message = elim (find_member (text "MessageId") (members_of message)) [
  | none ↦ error
  | some code ↦ elim (find_member (text "Message") (members_of message)) [
    | none ↦ error
    | some shown ↦
        annotate message (put_member (text "message") shown (field (text "code") code end))
  ]
]

-- A further message makes it generic.
unfoldable pub with_error : Json → Json → Json
unfolding first_error annotate put_member
with_error (obj error) message =
    annotate message
      (put_member (text "message") general_message (put_member (text "code") general_error error))
with_error error message = first_error error message

unfoldable pub add_error : Json → Fields → Fields
unfolding put_member subscript with_error
add_error message payload =
    put_member (text "error") (with_error (subscript (text "error") payload) message) payload

unfoldable pub property_error : Text → Json → Fields → Fields
unfolding put_member subscript push_back
property_error property message payload =
    let extended_info = property ++ message_annotation in
    put_member extended_info (push_back (subscript extended_info payload) message) payload

-- An array is added to the one that is there.
unfoldable pub added : Json → Json → Json
unfolding forced_array append_items
added fragment (arr values) = arr (append_items (forced_array fragment) values)
added fragment json = json

unfoldable pub add : Text → Json → Fields → Fields
unfolding put_member subscript added
add key json payload = put_member key (added (subscript key payload) json) payload
