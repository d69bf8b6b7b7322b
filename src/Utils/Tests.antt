-- ===== src/Utils/Tests.antt =====
-- The theorems on the helpers at concrete inputs.
use obmc_yadro_webapp.Prelude.{ℕ, ◌≡◌, ◌↔◌, refl, some, All, arith, if◌then◌else◌}
use obmc_yadro_webapp.Prelude.Text.{Text, text}
use obmc_yadro_webapp.Prelude.{text_beq, text_beq_iff, length}
use obmc_yadro_webapp.Utils.{Crypto, url_encode, get_netmask}
use obmc_yadro_webapp.Utils.UrlEncode.{url_decode, IsSafeByte, url_encode_lem}

-- A comparison by content, and a decoder that gives the text back.
unfoldable pub plain_memcmp : Text → Text → ℕ
plain_memcmp a b = if text_beq a b then 0 else 1

pub plain_memcmp_iff : (a b : Text) → length a ≡ length b → (plain_memcmp a b ≡ 0) ↔ (a ≡ b)
unfolding plain_memcmp
plain_memcmp_iff a b e = ground (arith, text_beq_iff a b)

abbrev pub plain_crypto : Crypto
plain_crypto = record { memcmp = plain_memcmp; memcmp_iff = plain_memcmp_iff; decode_block = some }

netmask : get_netmask 20 ≡ some (text "255.255.240.0")
unfolding get_netmask
netmask = refl

url_encode_lem_example :
    (url_decode (url_encode (text "/a b%")) ≡ text "/a b%")
    × All IsSafeByte (url_encode (text "/a b%"))
url_encode_lem_example = url_encode_lem (text "/a b%") (ground arith)
