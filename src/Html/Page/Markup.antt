-- ===== src/Html/Page/Markup.antt =====
-- What a page can hold (src/core/route/redfish/response.cpp).
use obmc_yadro_webapp.Prelude.{
  ℕ, ◌≡◌, ◌≢◌, ◌∙◌, ◌<◌, ◌⊎◌, refl, sym, inl, inr, Bool, true, false, [], ◌∷◌, ◌++◌, append_assoc,
  append-nil, if◌then◌else◌, All, arith, Bool-cases,
}
use mathlib.Core.Path.{subst}
use obmc_yadro_webapp.Prelude.Text.{Text, text}
use obmc_yadro_webapp.Json.{Json, Items, Fields, str, arr, obj, nil, cons, end, field}
use obmc_yadro_webapp.Html.{Outcome, done, overflow, out_of_fuel, dump_escaped}
use obmc_yadro_webapp.Html.Append.{behind_page, dump_escaped-behind_page}
use obmc_yadro_webapp.Html.Safe.{IsHtmlByte, dump_escaped-IsHtmlByte}
use obmc_yadro_webapp.Html.Loop.{dump_escaped_total}
use obmc_yadro_webapp.Html.Page.{and_then, is_link, open_link, close_member}

-- The tags and quotation marks of a page; a link's address stands between two of them.
abbrev pub IsTag : Text → Type 0
IsTag t =
    (t ≡ text "\"")
    ⊎ (t ≡ text "<div class=tab>")
    ⊎ (t ≡ text "</div>")
    ⊎ (t ≡ text "<br>")
    ⊎ (t ≡ text "<a href=\"")
    ⊎ (t ≡ text "\">")
    ⊎ (t ≡ text "</a>")

-- A text of such tags and of bytes that can open no tag and close no attribute.
pub data IsMarkup : Text → Type 0 where
  blank : IsMarkup []
  byte : (b : ℕ) (rest : Text) → IsHtmlByte b → IsMarkup rest → IsMarkup (b ∷ rest)
  tag : (t rest : Text) → IsTag t → IsMarkup rest → IsMarkup (t ++ rest)

append-IsMarkup : (s t : Text) → IsMarkup s → IsMarkup t → IsMarkup (s ++ t)
append-IsMarkup _ t blank n = n
append-IsMarkup _ t (byte b rest h m) n = byte b (rest ++ t) h (append-IsMarkup rest t m n)
append-IsMarkup _ t (tag u rest h m) n =
    subst IsMarkup (sym (append_assoc u rest t)) (tag u (rest ++ t) h (append-IsMarkup rest t m n))

pub bytes-IsMarkup : (s : Text) → All IsHtmlByte s → IsMarkup s
bytes-IsMarkup [] h = blank
bytes-IsMarkup (b ∷ s) h = byte b s h.0 (bytes-IsMarkup s h.1)

pub tag-IsMarkup : (t : Text) → IsTag t → IsMarkup t
tag-IsMarkup t h = subst IsMarkup (append-nil t) (tag t [] h blank)

unfoldable mutual
  -- The strings of the value are strings of bytes.
  pub IsBytes : Json → Type 0
  IsBytes (str s) = All (λ c. c < 256) s
  IsBytes (arr values) = AreBytes values
  IsBytes (obj members) = MembersAreBytes members
  IsBytes value = Unit

  pub AreBytes : Items → Type 0
  AreBytes nil = Unit
  AreBytes (cons value rest) = IsBytes value × AreBytes rest

  pub MembersAreBytes : Fields → Type 0
  MembersAreBytes end = Unit
  MembersAreBytes (field key value rest) =
      All (λ c. c < 256) key × IsBytes value × MembersAreBytes rest

-- A run that comes to an end adds markup to the page, or writes behind the end of the buffer.
abbrev pub Adds : Text → Outcome Text → Type 0
Adds out (done page) = (added : Text) × (page ≡ out ++ added) × IsMarkup added
Adds out overflow = Unit
Adds out out_of_fuel = ⊥

done-Adds : (out added : Text) → IsMarkup added → Adds out (done (out ++ added))
done-Adds out added m = (added, refl, m)

pub behind-Adds :
    (out added : Text) (o : Outcome Text) → IsMarkup added → Adds (out ++ added) o → Adds out o
behind-Adds out added (done page) m h =
    (added ++ h.0, h.1 ∙ append_assoc out added h.0, append-IsMarkup added h.0 m h.2)
behind-Adds out added overflow m h = tt
behind-Adds out added out_of_fuel m h = elim h [ ]

pub and_then-Adds :
    (out : Text) (o : Outcome Text) (f : Text → Outcome Text)
    → Adds out o
    → ((page : Text) → Adds page (f page))
    → Adds out (and_then o f)
unfolding and_then
and_then-Adds out (done page) f h k =
    behind-Adds out h.0 (f page) h.2 (subst (λ p. Adds p (f page)) h.1 (k page))
and_then-Adds out overflow f h k = tt
and_then-Adds out out_of_fuel f h k = elim h [ ]

chunk-Adds :
    (out : Text) (o : Outcome Text)
    → o ≢ out_of_fuel
    → ((page : Text) → o ≡ done page → All IsHtmlByte page)
    → Adds out (behind_page out o)
unfolding behind_page
chunk-Adds out (done chunk) n h = done-Adds out chunk (bytes-IsMarkup chunk (h chunk refl))
chunk-Adds out overflow n h = tt
chunk-Adds out out_of_fuel n h = elim (n refl) [ ]

pub escaped-Adds : (out s : Text) → All (λ c. c < 256) s → Adds out (dump_escaped out s)
escaped-Adds out s l = subst (Adds out) (sym (dump_escaped-behind_page out s)) (
    chunk-Adds out (dump_escaped [] s) (dump_escaped_total [] s)
      (λ page e. dump_escaped-IsHtmlByte [] s page tt l e))

pub plain-Adds : (out t : Text) → All IsHtmlByte t → Adds out (done (out ++ t))
plain-Adds out t h = done-Adds out t (bytes-IsMarkup t h)

pub tag-Adds : (out t : Text) → IsTag t → Adds out (done (out ++ t))
tag-Adds out t h = done-Adds out t (tag-IsMarkup t h)

pub nothing-Adds : (out : Text) → Adds out (done out)
nothing-Adds out = ([], sym (append-nil out), blank)

link_open : IsTag (text "<a href=\"")
link_open = inr (inr (inr (inr (inl refl))))

link_end : IsTag (text "\">")
link_end = inr (inr (inr (inr (inr (inl refl)))))

pub open_link-Adds :
    (out key : Text) (value : Json) → IsBytes value → Adds out (open_link out key value)
unfolding open_link IsBytes
open_link-Adds out key (str s) h = elim (Bool-cases (is_link key)) [
  | inl link ↦
      let opened : Text = out ++ text "<a href=\"" in
      rw (open_link, link)
        (behind-Adds out (text "<a href=\"")
          (and_then (dump_escaped opened s) (λ page. done (page ++ text "\">")))
          (tag-IsMarkup (text "<a href=\"") link_open)
          (and_then-Adds opened (dump_escaped opened s) (λ page. done (page ++ text "\">"))
            (escaped-Adds opened s h) (λ page. tag-Adds page (text "\">") link_end)))
  | inr plain ↦ rw (open_link, plain) (nothing-Adds out)
]
open_link-Adds out key value h = nothing-Adds out

joined-Adds : (out a b : Text) → IsMarkup a → IsMarkup b → Adds out (done (out ++ a ++ b))
joined-Adds out a b m n = behind-Adds out a (done (out ++ a ++ b)) m (done-Adds (out ++ a) b n)

comma-IsMarkup : (last : Bool) → IsMarkup (if last then [] else text ",")
comma-IsMarkup true = blank
comma-IsMarkup false = bytes-IsMarkup (text ",") (ground arith)

line_end-IsMarkup : IsMarkup (text "<br>")
line_end-IsMarkup = tag-IsMarkup (text "<br>") (inr (inr (inr (inl refl))))

link_close-IsMarkup : IsMarkup (text "</a>")
link_close-IsMarkup = tag-IsMarkup (text "</a>") (inr (inr (inr (inr (inr (inr refl))))))

pub close_member-Adds :
    (linked last : Bool) (out : Text) → Adds out (done (close_member linked last out))
unfolding close_member
close_member-Adds true last out =
    behind-Adds out (text "</a>")
      (done (out ++ text "</a>" ++ (if last then [] else text ",") ++ text "<br>"))
      link_close-IsMarkup
      (joined-Adds (out ++ text "</a>") (if last then [] else text ",") (text "<br>")
        (comma-IsMarkup last) line_end-IsMarkup)
close_member-Adds false last out =
    joined-Adds out (if last then [] else text ",") (text "<br>") (comma-IsMarkup last)
      line_end-IsMarkup

pub separator-Adds :
    (last : Bool) (out : Text) → Adds out (done (if last then out else out ++ text ",<br>"))
separator-Adds true out = nothing-Adds out
separator-Adds false out =
    done-Adds out (text ",<br>") (byte 44 (text "<br>") (ground arith) line_end-IsMarkup)

byte-IsMarkup : (c : ℕ) → IsHtmlByte c → IsMarkup (c ∷ [])
byte-IsMarkup c h = byte c [] h blank

-- A run behind a page that was added to.
pub after-Adds :
    (out page : Text) (o : Outcome Text) → Adds out (done page) → Adds page o → Adds out o
after-Adds out page o h k = behind-Adds out h.0 o h.2 (subst (λ p. Adds p o) h.1 k)

closed-IsMarkup : IsMarkup (text "</div>")
closed-IsMarkup = tag-IsMarkup (text "</div>") (inr (inr (inl refl)))

-- A block of lines between two brackets.
pub block-Adds :
    (out : Text) (first last : ℕ) (o : Text → Outcome Text)
    → IsHtmlByte first
    → IsHtmlByte last
    → ((page : Text) → Adds page (o page))
    → Adds out (
        and_then
          (o (out ++ (first ∷ []) ++ text "<div class=tab>"))
          (λ shown. done (shown ++ text "</div>" ++ last ∷ [])))
block-Adds out first last o h k body =
    let opened : Text = out ++ (first ∷ []) ++ text "<div class=tab>" in
    let close : Text → Outcome Text = λ shown. done (shown ++ text "</div>" ++ last ∷ []) in
    after-Adds out opened (and_then (o opened) close)
      (joined-Adds out (first ∷ []) (text "<div class=tab>") (byte-IsMarkup first h)
        (tag-IsMarkup (text "<div class=tab>") (inr (inl refl))))
      (and_then-Adds opened (o opened) close (body opened) (λ shown.
        joined-Adds shown (text "</div>") (last ∷ []) closed-IsMarkup (byte-IsMarkup last k)))
