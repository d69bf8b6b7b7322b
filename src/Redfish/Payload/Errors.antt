-- ===== src/Redfish/Payload/Errors.antt =====
-- The errors of a Redfish answer, in the order in which they are added
-- (src/core/route/redfish/response.cpp).
use obmc_yadro_webapp.Prelude.{
  ◌≡◌, ◌∙◌, refl, sym, ap, false, none, some, List, [], ◌∷◌, arith, if◌then◌else◌, ◌==◌, text_eq,
  text_beq,
}
use mathlib.Core.Path.{subst}
use obmc_yadro_webapp.Prelude.Text.{Text, text}
use obmc_yadro_webapp.Json.{Json, Items, Fields, null, arr, obj, nil, cons, end, field, to_items}
use obmc_yadro_webapp.Redfish.Payload.{
  text_ltb, find_member, put_member, subscript, members_of, forced_array, append_items, push_back,
  message_annotation, general_error, general_message, annotate, first_error, with_error, add_error,
}

find_member-put_member :
    (k j : Text) (v : Json) (m : Fields)
    → find_member j (put_member k v m) ≡ (if k == j then some v else find_member j m)
unfolding find_member put_member
find_member-put_member k j v end = refl
find_member-put_member k j v (field i w m) = ground (
  arith,
  text_eq.eqb_iff k j,
  text_eq.eqb_iff i k,
  text_eq.eqb_iff i j,
  find_member-put_member k j v m,
)

pub subscript-put_member :
    (k j : Text) (v : Json) (m : Fields)
    → subscript j (put_member k v m) ≡ (if k == j then v else subscript j m)
unfolding subscript
subscript-put_member k j v m = ground (arith, find_member-put_member k j v m)

append_items_step :
    (vs ws : Items) (v : Json)
    → append_items (append_items vs (cons v nil)) ws ≡ append_items vs (cons v ws)
unfolding append_items
append_items_step nil ws v = refl
append_items_step (cons u vs) ws v = ap (cons u) (append_items_step vs ws v)

append_items-nil : (vs : Items) → append_items vs nil ≡ vs
unfolding append_items
append_items-nil nil = refl
append_items-nil (cons v vs) = ap (cons v) (append_items-nil vs)

-- Errors one after another.
abbrev pub add_errors : List Json → Fields → Fields
add_errors [] payload = payload
add_errors (message ∷ messages) payload = add_errors messages (add_error message payload)

-- The code of the error behind further messages.
abbrev pub last_code : Json → List Json → Json
last_code code [] = code
last_code code (message ∷ messages) = general_error

error_of_add_error :
    (message : Json) (payload : Fields)
    → subscript (text "error") (add_error message payload)
      ≡ with_error (subscript (text "error") payload) message
unfolding add_error text_beq
error_of_add_error message payload =
    subscript-put_member (text "error") (text "error")
      (with_error (subscript (text "error") payload) message) payload

-- An error that lists messages.
abbrev Lists : Json → Items → Json → Type 0
Lists error values code =
    (members : Fields) × (error ≡ obj members)
    × (subscript message_annotation members ≡ arr values)
    × (subscript (text "code") members ≡ code)

with_error-Lists :
    (error message code : Json) (values : Items)
    → Lists error values code
    → Lists (with_error error message) (append_items values (cons message nil)) general_error
unfolding with_error annotate push_back forced_array text_beq
with_error-Lists error message code values (members, is_object, listed, coded) =
    let generic : Fields =
      put_member (text "message") general_message
        (put_member (text "code") general_error members) in
    let kept : subscript message_annotation generic ≡ arr values =
      subscript-put_member (text "message") message_annotation general_message
        (put_member (text "code") general_error members)
      ∙ subscript-put_member (text "code") message_annotation general_error members
      ∙ listed in
    (
      put_member message_annotation (push_back (subscript message_annotation generic) message)
          generic,
      rw is_object refl,
      subscript-put_member message_annotation message_annotation
            (push_back (subscript message_annotation generic) message) generic
          ∙ rw kept refl,
      subscript-put_member message_annotation (text "code")
            (push_back (subscript message_annotation generic) message) generic
          ∙ subscript-put_member (text "message") (text "code") general_message
              (put_member (text "code") general_error members)
          ∙ subscript-put_member (text "code") (text "code") general_error members,
    )

further-Lists :
    (messages : List Json) (payload : Fields) (code : Json) (values : Items)
    → Lists (subscript (text "error") payload) values code
    → Lists
        (subscript (text "error") (add_errors messages payload))
        (append_items values (to_items messages))
        (last_code code messages)
further-Lists [] payload code values h = rw (append_items-nil values) h
further-Lists (message ∷ []) payload code values h =
    subst (λ e. Lists e (append_items values (cons message nil)) general_error)
      (sym (error_of_add_error message payload))
      (with_error-Lists (subscript (text "error") payload) message code values h)
further-Lists (message ∷ (next ∷ messages)) payload code values h =
    subst
      (λ vs.
        Lists (subscript (text "error") (add_errors (message ∷ (next ∷ messages)) payload)) vs
          general_error)
      (append_items_step values (to_items (next ∷ messages)) message)
      (further-Lists (next ∷ messages) (add_error message payload) general_error
        (append_items values (cons message nil))
        (subst (λ e. Lists e (append_items values (cons message nil)) general_error)
          (sym (error_of_add_error message payload))
          (with_error-Lists (subscript (text "error") payload) message code values h)))

first_error-Lists :
    (message code shown : Json)
    → find_member (text "MessageId") (members_of message) ≡ some code
    → find_member (text "Message") (members_of message) ≡ some shown
    → Lists (first_error null message) (cons message nil) code
unfolding first_error annotate push_back forced_array append_items put_member subscript find_member
    text_ltb text_beq
first_error-Lists message code shown has_id has_text =
    let error : Fields = put_member (text "message") shown (field (text "code") code end) in
    (
      put_member message_annotation (push_back (subscript message_annotation error) message) error,
      rw (first_error, has_id, has_text) refl,
      refl,
      refl,
    )

other_of_add_errors :
    (key : Text) (messages : List Json) (payload : Fields)
    → (text "error" == key) ≡ false
    → subscript key (add_errors messages payload) ≡ subscript key payload
unfolding add_error
other_of_add_errors key [] payload h = refl
other_of_add_errors key (message ∷ messages) payload h =
    other_of_add_errors key messages (add_error message payload) h
    ∙ subscript-put_member (text "error") key
        (with_error (subscript (text "error") payload) message) payload
    ∙ rw h refl

-- Errors added to a payload without one, the first of them with an identifier and a text: the
-- error lists all their messages in the order in which they were added, its code is the one
-- message's identifier or else that of a general error, and every other member of the payload is
-- as before.
pub add_errors_lem :
    (payload : Fields) (message : Json) (messages : List Json) (code shown : Json) (key : Text)
    → find_member (text "error") payload ≡ none
    → find_member (text "MessageId") (members_of message) ≡ some code
    → find_member (text "Message") (members_of message) ≡ some shown
    → (text "error" == key) ≡ false
    → ((error : Fields) × (subscript (text "error") (add_errors (message ∷ messages) payload)
          ≡ obj error)
        × (subscript message_annotation error ≡ arr (to_items (message ∷ messages)))
        × (subscript (text "code") error ≡ last_code code messages))
      × (subscript key (add_errors (message ∷ messages) payload) ≡ subscript key payload)
unfolding with_error subscript append_items
add_errors_lem payload message messages code shown key fresh has_id has_text other =
    let first : subscript (text "error") (add_error message payload) ≡ first_error null message =
      error_of_add_error message payload ∙ rw (subscript, fresh, with_error) refl in
    (
      further-Lists messages (add_error message payload) code (cons message nil) (
          subst (λ e. Lists e (cons message nil) code) (sym first)
            (first_error-Lists message code shown has_id has_text)),
      other_of_add_errors key (message ∷ messages) payload other,
    )
