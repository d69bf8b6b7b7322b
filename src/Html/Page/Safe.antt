-- ===== src/Html/Page/Safe.antt =====
-- A JSON value cannot leave its place on the page (src/core/route/redfish/response.cpp).
use obmc_yadro_webapp.Prelude.{
  ◌≡◌, ◌⊎◌, ap, refl, inl, inr, Bool, true, false, ◌++◌, if◌then◌else◌, All, arith, Bool-cases,
}
use obmc_yadro_webapp.Prelude.Text.{Text, text}
use obmc_yadro_webapp.Json.{
  Json, Items, Fields, null, boolean, int, float, str, arr, obj, nil, cons, end, field,
}
use obmc_yadro_webapp.Html.{Outcome, done, overflow, out_of_fuel, dump_escaped}
use obmc_yadro_webapp.Html.Safe.{IsHtmlByte}
use obmc_yadro_webapp.Html.Integer.{dump_integer-IsHtmlByte}
use obmc_yadro_webapp.Html.Page.{
  and_then, in_a_tag, open_link, close_member, no_items, no_fields, dump_float, dump, dump_items,
  dump_fields,
}
use obmc_yadro_webapp.Html.Page.Markup.{
  IsMarkup, bytes-IsMarkup, tag-IsMarkup, IsBytes, AreBytes, MembersAreBytes, Adds, behind-Adds,
  after-Adds, and_then-Adds, escaped-Adds, plain-Adds, tag-Adds, nothing-Adds, open_link-Adds,
  close_member-Adds, separator-Adds, block-Adds,
}

dump_float-Adds :
    (is_finite : Text → Bool) (to_chars : Text → Text) (out x : Text)
    → All IsHtmlByte (to_chars x)
    → Adds out (done (dump_float is_finite to_chars out x))
unfolding dump_float
dump_float-Adds is_finite to_chars out x h = elim (Bool-cases (is_finite x)) [
  | inl number ↦ rw number (plain-Adds out (to_chars x) h)
  | inr missing ↦ rw missing (plain-Adds out (text "null") (ground arith))
]

added_page :
    (out : Text) (o : Outcome Text)
    → Adds out o
    → (o ≡ overflow) ⊎ ((added : Text) × (o ≡ done (out ++ added)) × IsMarkup added)
added_page out (done page) h = inr (h.0, ap done h.1, h.2)
added_page out overflow h = inl refl
added_page out out_of_fuel h = elim h [ ]

module _ (is_finite : Text → Bool) (to_chars : Text → Text)
    (to_chars-IsHtmlByte : (x : Text) → All IsHtmlByte (to_chars x)) where
  mutual
    unfolding dump dump_items dump_fields IsBytes AreBytes MembersAreBytes

    dump-Adds :
        (out : Text) (value : Json) → IsBytes value → Adds out (dump is_finite to_chars out value)
    dump-Adds out null h = plain-Adds out (text "null") (ground arith)
    dump-Adds out (boolean true) h = plain-Adds out (text "true") (ground arith)
    dump-Adds out (boolean false) h = plain-Adds out (text "false") (ground arith)
    dump-Adds out (int n) h =
        let (added, made, safe) = dump_integer-IsHtmlByte out n in
        (added, made, bytes-IsMarkup added safe)
    dump-Adds out (float x) h = dump_float-Adds is_finite to_chars out x (to_chars-IsHtmlByte x)
    dump-Adds out (str s) h =
        let quoted : Text = out ++ text "\"" in
        behind-Adds out (text "\"")
          (and_then (dump_escaped quoted s) (λ page. done (page ++ text "\"")))
          (tag-IsMarkup (text "\"") (inl refl))
          (and_then-Adds quoted (dump_escaped quoted s) (λ page. done (page ++ text "\""))
            (escaped-Adds quoted s h) (λ page. tag-Adds page (text "\"") (inl refl)))
    dump-Adds out (arr values) h = elim (Bool-cases (no_items values)) [
      | inl empty ↦ rw empty (plain-Adds out (text "[]") (ground arith))
      | inr more ↦ rw more (
          block-Adds out 91 93 (λ page. dump_items is_finite to_chars page values) (ground arith)
            (ground arith) (λ page. dump_items-Adds page values h))
    ]
    dump-Adds out (obj members) h = elim (Bool-cases (no_fields members)) [
      | inl empty ↦ rw empty (plain-Adds out (text "{}") (ground arith))
      | inr more ↦ rw more (
          block-Adds out 123 125 (λ page. dump_fields is_finite to_chars page members)
            (ground arith) (ground arith) (λ page. dump_fields-Adds page members h))
    ]

    dump_items-Adds :
        (out : Text) (values : Items)
        → AreBytes values
        → Adds out (dump_items is_finite to_chars out values)
    dump_items-Adds out nil h = nothing-Adds out
    dump_items-Adds out (cons value rest) h =
        and_then-Adds out (dump is_finite to_chars out value)
          (λ page.
            dump_items is_finite to_chars (if no_items rest then page else page ++ text ",<br>")
              rest)
          (dump-Adds out value h.0)
          (λ page.
            let separated : Text = if no_items rest then page else page ++ text ",<br>" in
            after-Adds page separated (dump_items is_finite to_chars separated rest)
              (separator-Adds (no_items rest) page) (dump_items-Adds separated rest h.1))

    dump_fields-Adds :
        (out : Text) (members : Fields)
        → MembersAreBytes members
        → Adds out (dump_fields is_finite to_chars out members)
    dump_fields-Adds out end h = nothing-Adds out
    dump_fields-Adds out (field key value rest) h =
        let begun : Text = out ++ text "&quot" in
        let shown_rest : Text → Outcome Text = λ shown.
          dump_fields is_finite to_chars (close_member (in_a_tag key value) (no_fields rest) shown)
            rest in
        let shown_value : Text → Outcome Text =
          λ linked. and_then (dump is_finite to_chars linked value) shown_rest in
        let shown_link : Text → Outcome Text =
          λ keyed. and_then (open_link (keyed ++ text "&quot: ") key value) shown_value in
        behind-Adds out (text "&quot") (and_then (dump_escaped begun key) shown_link)
          (bytes-IsMarkup (text "&quot") (ground arith))
          (and_then-Adds begun (dump_escaped begun key) shown_link (escaped-Adds begun key h.0)
            (λ keyed.
              behind-Adds keyed (text "&quot: ") (shown_link keyed)
                (bytes-IsMarkup (text "&quot: ") (ground arith))
                (and_then-Adds (keyed ++ text "&quot: ")
                  (open_link (keyed ++ text "&quot: ") key value) shown_value
                  (open_link-Adds (keyed ++ text "&quot: ") key value h.1)
                  (λ linked.
                    and_then-Adds linked (dump is_finite to_chars linked value) shown_rest
                      (dump-Adds linked value h.1)
                      (λ shown.
                        after-Adds shown (close_member (in_a_tag key value) (no_fields rest) shown)
                          (shown_rest shown)
                          (close_member-Adds (in_a_tag key value) (no_fields rest) shown)
                          (dump_fields-Adds
                            (close_member (in_a_tag key value) (no_fields rest) shown) rest
                            h.2))))))

-- Whatever the strings and the keys of a JSON value are, its page is the page before with text
-- behind it that is made of the fixed tags and of bytes that can open no tag and close no
-- attribute, unless a string overflows the buffer of its escaping; the loops end. The text that
-- `to_chars` makes of a floating number is taken to have only such bytes.
pub dump-IsMarkup :
    (is_finite : Text → Bool) (to_chars : Text → Text) (out : Text) (value : Json)
    → ((x : Text) → All IsHtmlByte (to_chars x))
    → IsBytes value
    → (dump is_finite to_chars out value ≡ overflow)
      ⊎ ((added : Text) × (dump is_finite to_chars out value ≡ done (out ++ added))
          × IsMarkup added)
dump-IsMarkup is_finite to_chars out value safe h =
    added_page out (dump is_finite to_chars out value)
      (dump-Adds is_finite to_chars safe out value h)
