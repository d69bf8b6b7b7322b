-- ===== src/Redfish/Payload/Flash.antt =====
-- The body of a Redfish answer: JSON text, or a page for a browser
-- (src/core/route/redfish/response.cpp).
use obmc_yadro_webapp.Prelude.{◌≡◌, ◌⊎◌, inl, inr, refl, Bool, true, [], ◌++◌, if◌then◌else◌, All}
use obmc_yadro_webapp.Prelude.Text.{Text, text}
use obmc_yadro_webapp.Json.{Json, Fields, obj}
use obmc_yadro_webapp.Response.{Response, clear, push, set_content_type}
use obmc_yadro_webapp.Html.{Outcome, done, overflow}
use obmc_yadro_webapp.Html.Safe.{IsHtmlByte}
use obmc_yadro_webapp.Html.Page.{and_then, dump}
use obmc_yadro_webapp.Html.Page.Markup.{IsMarkup, IsBytes}
use obmc_yadro_webapp.Html.Page.Safe.{dump-IsMarkup}

abbrev pub head : Text
head =
    text "<html>\n"
    ++ text "<head>\n"
    ++ text "<title>Redfish API</title>\n"
    ++ text "<link href=\"/redfish.css\" rel=\"stylesheet\">\n"
    ++ text "</head>\n"
    ++ text "<body>\n"
    ++ text "<div class=\"container\">\n"
    ++ text "<img src=\"/DMTF_Redfish_logo_2017.svg\" alt=\"redfish\" "
    ++ text "height=\"406px\" "
    ++ text "width=\"576px\">\n"
    ++ text "<div class=\"content\">\n"

abbrev pub footer : Text
footer = text "</div>\n" ++ text "</div>\n" ++ text "</body>\n" ++ text "</html>\n"

-- `print` is the JSON library's `dump(2)`.
module _ (is_finite : Text → Bool) (to_chars : Text → Text) (print : Json → Text) where
  unfoldable pub pretty_print_redfish : Fields → Response → Outcome Response
  unfolding and_then dump push set_content_type
  pretty_print_redfish payload response =
      and_then (dump is_finite to_chars [] (obj payload)) (λ page. done (
        set_content_type (text "text/html; charset=UTF-8")
          (push footer (push page (push head response)))))

  unfoldable pub flash : Bool → Fields → Response → Outcome Response
  unfolding pretty_print_redfish clear push
  flash pretty_output payload response =
      if pretty_output
      then pretty_print_redfish payload (clear response)
      else done (push (print (obj payload)) (clear response))

  -- A browser's answer has between its fixed head and footer only markup, whatever was in the
  -- buffer before, unless a string of the payload overflows the buffer of its escaping.
  pub flash_page :
      (payload : Fields) (response : Response)
      → ((x : Text) → All IsHtmlByte (to_chars x))
      → IsBytes (obj payload)
      → (flash true payload response ≡ overflow)
        ⊎ ((page : Text) × (shown : Response) × (flash true payload response ≡ done shown)
            × (shown.internal_buffer ≡ (head ++ page) ++ footer)
            × IsMarkup page)
  unfolding flash pretty_print_redfish push clear set_content_type
  flash_page payload response safe h =
      elim (dump-IsMarkup is_finite to_chars [] (obj payload) safe h) [
        | inl overflows ↦ inl (rw (flash, pretty_print_redfish, overflows, and_then) refl)
        | inr (page, dumped, markup) ↦ inr (
          page,
          set_content_type (text "text/html; charset=UTF-8")
              (push footer (push page (push head (clear response)))),
          rw (flash, pretty_print_redfish, dumped, and_then) refl,
          refl,
          markup,
        )
      ]
