-- ===== src/Html/Page.antt =====
-- The page of a JSON value (src/core/route/redfish/response.cpp).
pub mod Markup
pub mod Safe
use obmc_yadro_webapp.Prelude.{
  ℕ, zero, suc, ◌≡◌, Bool, true, false, ◌||◌, [], ◌∷◌, ◌++◌, if◌then◌else◌, ◌==◌, text_eq,
}
use obmc_yadro_webapp.Prelude.Int.{ℤ}
use obmc_yadro_webapp.Prelude.Text.{Text, text}
use obmc_yadro_webapp.Json.{
  Json, Items, Fields, null, boolean, int, float, str, arr, obj, nil, cons, end, field,
}
use obmc_yadro_webapp.Html.{Outcome, done, overflow, out_of_fuel, dump_escaped}
use obmc_yadro_webapp.Html.Integer.{dump_integer}

-- One step behind another.
unfoldable pub and_then {ℓ κ} : {A : Type ℓ} {B : Type κ} → Outcome A → (A → Outcome B) → Outcome B
and_then (done a) f = f a
and_then overflow f = overflow
and_then out_of_fuel f = out_of_fuel

-- The members whose values are shown as links.
unfoldable pub is_link : Text → Bool
is_link key =
    key == text "@odata.id"
    || key == text "@odata.context"
    || key == text "Members@odata.nextLink"
    || key == text "Uri"

-- Such a value is a link if it is a string.
unfoldable pub in_a_tag : Text → Json → Bool
unfolding is_link
in_a_tag key (str s) = is_link key
in_a_tag key value = false

unfoldable pub open_link : Text → Text → Json → Outcome Text
unfolding is_link
open_link out key (str s) =
    let link =
      and_then (dump_escaped (out ++ text "<a href=\"") s) (λ page. done (page ++ text "\">")) in
    if is_link key then link else done out
open_link out key value = done out

-- Behind a member: the end of its link, and a comma where another member follows.
unfoldable pub close_member : Bool → Bool → Text → Text
close_member linked last page =
    (if linked then page ++ text "</a>" else page) ++ (if last then [] else text ",") ++ text "<br>"

abbrev pub no_items : Items → Bool
no_items nil = true
no_items (cons value rest) = false

abbrev pub no_fields : Fields → Bool
no_fields end = true
no_fields (field key value rest) = false

-- A floating number: whether it is finite, and the text that `to_chars` makes of it, are the
-- libraries' part.
unfoldable pub dump_float : (Text → Bool) → (Text → Text) → Text → Text → Text
dump_float is_finite to_chars out x = out ++ (if is_finite x then to_chars x else text "null")

module _ (is_finite : Text → Bool) (to_chars : Text → Text) where
  unfoldable mutual
    unfolding dump_float and_then in_a_tag open_link close_member

    pub dump : Text → Json → Outcome Text
    dump out null = done (out ++ text "null")
    dump out (boolean true) = done (out ++ text "true")
    dump out (boolean false) = done (out ++ text "false")
    dump out (int n) = done (dump_integer out n)
    dump out (float x) = done (dump_float is_finite to_chars out x)
    dump out (str s) =
        and_then (dump_escaped (out ++ text "\"") s) (λ page. done (page ++ text "\""))
    dump out (arr values) =
        let page =
          and_then (dump_items (out ++ text "[" ++ text "<div class=tab>") values)
            (λ shown. done (shown ++ text "</div>" ++ text "]")) in
        if no_items values then done (out ++ text "[]") else page
    dump out (obj members) =
        let page =
          and_then (dump_fields (out ++ text "{" ++ text "<div class=tab>") members)
            (λ shown. done (shown ++ text "</div>" ++ text "}")) in
        if no_fields members then done (out ++ text "{}") else page

    -- A comma stands behind each element but the last.
    pub dump_items : Text → Items → Outcome Text
    dump_items out nil = done out
    dump_items out (cons value rest) =
        and_then (dump out value)
          (λ page. dump_items (if no_items rest then page else page ++ text ",<br>") rest)

    pub dump_fields : Text → Fields → Outcome Text
    dump_fields out end = done out
    dump_fields out (field key value rest) =
        and_then (dump_escaped (out ++ text "&quot") key) (λ keyed.
          and_then (open_link (keyed ++ text "&quot: ") key value) (λ linked.
            and_then (dump linked value) (λ shown.
              dump_fields (close_member (in_a_tag key value) (no_fields rest) shown) rest)))
