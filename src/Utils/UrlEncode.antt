-- ===== src/Utils/UrlEncode.antt =====
-- `urlEncode` can be undone, and gives no reserved byte (src/core/helpers/utils.hpp).
use obmc_yadro_webapp.Prelude.{
  ℕ, ◌+◌, ◌-◌, ◌*◌, ◌/◌, ◌%◌, ◌<◌, ◌≡◌, refl, ap, ◌∙◌, ◌≢◌, inl, inr, true, ◌||◌, [], ◌∷◌, arith,
  ltb, if◌then◌else◌, ◌==◌, nat_eq, All, Bool-cases,
}
use obmc_yadro_webapp.Prelude.Text.{Text}
use obmc_yadro_webapp.Utils.{isalnum, is_unreserved, hex_digit, url_encode}

-- The value of a hexadecimal digit.
hex_value : ℕ → ℕ
hex_value d = if ltb d b'A' then d - b'0' else d - b'A' + 10

-- Percent decoding, as a browser does it.
pub url_decode : Text → Text
unfolding hex_value
url_decode [] = []
url_decode (c ∷ []) = c ∷ []
url_decode (c ∷ d ∷ []) = c ∷ d ∷ []
url_decode (c ∷ d ∷ e ∷ s) =
    let coded = (hex_value d * 16 + hex_value e) ∷ url_decode s in
    let plain = c ∷ url_decode (d ∷ e ∷ s) in if c == b'%' then coded else plain

url_decode-plain : (c : ℕ) (s : Text) → c ≢ b'%' → url_decode (c ∷ s) ≡ c ∷ url_decode s
unfolding url_decode
url_decode-plain c [] h = refl
url_decode-plain c (d ∷ []) h = refl
url_decode-plain c (d ∷ e ∷ s) h = ground arith

hex_value-hex_digit : (n : ℕ) → n < 16 → hex_value (hex_digit n) ≡ n
unfolding hex_value hex_digit
hex_value-hex_digit n h = ground arith

ne_percent : (c : ℕ) → is_unreserved c ≡ true → c ≢ b'%'
unfolding is_unreserved isalnum
ne_percent c h = ground arith

url_decode-coded :
    (c : ℕ) (s : Text)
    → c < 256
    → url_decode (b'%' ∷ hex_digit (c / 16) ∷ hex_digit (c % 16) ∷ s) ≡ c ∷ url_decode s
unfolding url_decode
url_decode-coded c s h =
    ap (λ (n : ℕ). n ∷ url_decode s)
      (omega (
        arith,
        hex_value-hex_digit (c / 16) (omega arith),
        hex_value-hex_digit (c % 16) (omega arith),
      ))

-- Decoding gives back every text of bytes.
pub url_decode-url_encode : (s : Text) → All (λ c. c < 256) s → url_decode (url_encode s) ≡ s
unfolding url_encode
url_decode-url_encode [] h = unfold url_decode in refl
url_decode-url_encode (c ∷ s) h = elim (Bool-cases (is_unreserved c)) [
  | inl plain ↦ rw plain (
      url_decode-plain c (url_encode s) (ne_percent c plain)
      ∙ ap (◌∷◌ c) (url_decode-url_encode s h.1))
  | inr coded ↦
      rw coded (url_decode-coded c (url_encode s) h.0 ∙ ap (◌∷◌ c) (url_decode-url_encode s h.1))
]

-- A letter, a digit, or one of "-_.~%".
abbrev pub IsSafeByte : ℕ → Type 0
IsSafeByte c = (isalnum c || c == b'-' || c == b'_' || c == b'.' || c == b'~' || c == b'%') ≡ true

hex_digit-IsSafeByte : (n : ℕ) → n < 16 → IsSafeByte (hex_digit n)
unfolding isalnum hex_digit
hex_digit-IsSafeByte n h = ground arith

is_unreserved-IsSafeByte : (c : ℕ) → is_unreserved c ≡ true → IsSafeByte c
unfolding is_unreserved isalnum
is_unreserved-IsSafeByte c h = ground arith

-- Every byte of the result is a letter, a digit, or one of "-_.~%".
pub url_encode-IsSafeByte : (s : Text) → All (λ c. c < 256) s → All IsSafeByte (url_encode s)
unfolding url_encode isalnum
url_encode-IsSafeByte [] h = tt
url_encode-IsSafeByte (c ∷ s) h = elim (Bool-cases (is_unreserved c)) [
  | inl plain ↦ rw plain (is_unreserved-IsSafeByte c plain, url_encode-IsSafeByte s h.1)
  | inr coded ↦ rw coded (
    refl,
    (
      hex_digit-IsSafeByte (c / 16) (omega arith),
      (hex_digit-IsSafeByte (c % 16) (omega arith), url_encode-IsSafeByte s h.1),
    ),
  )
]

-- Encoding a text of bytes loses nothing, as decoding gives the text back, and every byte of the
-- result is a letter, a digit, or one of "-_.~%".
pub url_encode_lem :
    (s : Text)
    → All (λ c. c < 256) s
    → (url_decode (url_encode s) ≡ s) × All IsSafeByte (url_encode s)
url_encode_lem s h = (url_decode-url_encode s h, url_encode-IsSafeByte s h)
