-- ===== src/Html/Tests.antt =====
-- The theorems on the escaping of strings at concrete strings.
use obmc_yadro_webapp.Prelude.{
  true, inl, ◌≡◌, ◌≢◌, ◌<◌, ◌↔◌, text_beq, refl, [], ◌∷◌, ◌++◌, arith, lookup,
}
use obmc_yadro_webapp.Prelude.Text.{text, starts_with}
use obmc_yadro_webapp.Html.{
  repeat, done, overflow, out_of_fuel, dump_escaped, dump_loop, start, outcome, finish, turn,
  decoded, react, decode, utf8d, accept_point, flush, write, escaped, terminator, named_escapes,
  default_escape,
}
use obmc_yadro_webapp.Json.{Json, obj, field, str, int, end}
use obmc_yadro_webapp.Prelude.Int.{negsuc}
use obmc_yadro_webapp.Html.Integer.{
  dump_integer, append_number, number_buffer, count_digits, fill_digits, digits_to_99,
}
use obmc_yadro_webapp.Html.Page.{dump, and_then, in_a_tag, open_link, is_link, close_member}
use obmc_yadro_webapp.Html.Loop.{dump_escaped_total, dump_escaped-overflow_iff}
use obmc_yadro_webapp.Html.Encoding.{utf8_text}
use obmc_yadro_webapp.Html.Utf8.{escaped_text, dump_escaped-utf8}

tag_page : dump_escaped [] (text "<b>") ≡ done (text "\\lt;b\\gt;")
unfolding dump_escaped dump_loop start outcome finish turn decoded react decode utf8d repeat
    accept_point flush write escaped terminator named_escapes default_escape lookup starts_with
tag_page = refl

-- A member that is shown as a link, with a tag in its text.
abbrev linked : Json
linked = obj (field (text "Uri") (str (text "<b>")) (field (text "Size") (int (negsuc 4095)) end))

linked_page :
    dump (λ x. true) (λ x. text "0.5") [] linked
    ≡ done (
        text "{<div class=tab>&quotUri&quot: <a href=\"\\lt;b\\gt;\">\"\\lt;b\\gt;\"</a>,<br>"
        ++ text "&quotSize&quot: -4096<br></div>}")
unfolding dump dump_integer append_number number_buffer count_digits fill_digits digits_to_99
    and_then in_a_tag open_link is_link close_member text_beq dump_escaped dump_loop start outcome
    finish turn decoded react decode utf8d repeat accept_point flush write escaped terminator
    named_escapes default_escape lookup starts_with
linked_page = refl

dump_escaped_total_example : dump_escaped [] (0xE2 ∷ 0x28 ∷ []) ≢ out_of_fuel
dump_escaped_total_example = dump_escaped_total [] (0xE2 ∷ 0x28 ∷ [])

dump_escaped-overflow_iff_example : (dump_escaped [] (repeat 86 0xC0 []) ≡ overflow) ↔ (85 < 86)
dump_escaped-overflow_iff_example = dump_escaped-overflow_iff [] 86 0xC0 (inl (ground arith))

dump_escaped-utf8_example :
    dump_escaped [] (utf8_text (0x3C ∷ 0x1F600 ∷ []))
    ≡ done ([] ++ escaped_text (0x3C ∷ 0x1F600 ∷ []))
dump_escaped-utf8_example = dump_escaped-utf8 [] (0x3C ∷ 0x1F600 ∷ []) (ground arith)
