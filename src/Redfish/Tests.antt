-- ===== src/Redfish/Tests.antt =====
-- The theorems on the payload and the page, at a payload with two errors.
mod Nodes
mod Paths
use obmc_yadro_webapp.Prelude.{◌≡◌, refl, some, none, [], ◌∷◌, ◌==◌, text_eq}
use obmc_yadro_webapp.Prelude.Text.{text}
use obmc_yadro_webapp.Prelude.{text_beq}
use obmc_yadro_webapp.Prelude.{true, ◌⊎◌, ◌++◌, arith}
use obmc_yadro_webapp.Prelude.Text.{Text}
use obmc_yadro_webapp.Json.{Json, Fields, str, arr, obj, nil, cons, end, field}
use obmc_yadro_webapp.Response.{Response, new_response}
use obmc_yadro_webapp.Html.{done, overflow}
use obmc_yadro_webapp.Html.Page.Markup.{IsMarkup, IsBytes}
use obmc_yadro_webapp.Redfish.Payload.{
  subscript, add_error, with_error, first_error, annotate, push_back, forced_array, append_items,
  put_member, find_member, members_of, text_ltb, message_annotation, general_error, general_message,
}
use obmc_yadro_webapp.Redfish.Payload.Errors.{add_errors, add_errors_lem}
use obmc_yadro_webapp.Redfish.Payload.Flash.{flash, flash_page, head, footer}

-- Two errors and a property.
abbrev no_memory : Json
no_memory =
    obj (field (text "Message") (str (text "out")) (field (text "MessageId") (str (text "M")) end))

abbrev bare : Json
bare = obj end

abbrev named : Fields
named = field (text "Name") (str (text "<b>")) end

two_errors :
    subscript (text "error") (add_error bare (add_error no_memory named))
    ≡ obj (
        field message_annotation
          (arr (cons no_memory (cons bare nil)))
          (field (text "code") general_error (field (text "message") general_message end)))
unfolding subscript add_error with_error first_error annotate push_back forced_array append_items
    put_member find_member members_of text_ltb text_beq
two_errors = refl

add_errors_lem_example :
    ((error : Fields) × (subscript (text "error") (add_errors (no_memory ∷ (bare ∷ [])) named)
        ≡ obj error)
      × (subscript message_annotation error ≡ arr (cons no_memory (cons bare nil)))
      × (subscript (text "code") error ≡ general_error))
    × (subscript (text "Name") (add_errors (no_memory ∷ (bare ∷ [])) named)
        ≡ subscript (text "Name") named)
unfolding find_member members_of text_beq
add_errors_lem_example =
    add_errors_lem named no_memory (bare ∷ []) (str (text "M")) (str (text "out")) (text "Name")
      refl refl refl refl

flash_page_example :
    (flash (λ x. true) (λ x. text "0.5") (λ v. []) true named new_response ≡ overflow)
    ⊎ ((page : Text) × (shown : Response) × (flash
            (λ x. true)
            (λ x. text "0.5")
            (λ v. [])
            true
            named
            new_response
          ≡ done shown)
        × (shown.internal_buffer ≡ (head ++ page) ++ footer)
        × IsMarkup page)
unfolding IsBytes
flash_page_example =
    flash_page (λ x. true) (λ x. text "0.5") (λ v. []) named new_response (λ x. ground arith)
      (ground arith)
