-- ===== src/Utils.antt =====
-- The helpers of src/core/helpers/utils.hpp, over byte strings.
pub mod Laws
pub mod UrlEncode
pub mod Tests
use obmc_yadro_webapp.Prelude.{
  ℕ, zero, suc, ◌+◌, ◌-◌, ◌*◌, ◌/◌, ◌%◌, ◌^◌, ◌≤◌, ◌<◌, ◌≡◌, ◌↔◌, Bool, true, false, not, ◌&&◌,
  ◌||◌, Option, none, some, List, [], ◌∷◌, ◌++◌, map, reverse, arith, ltb, leb, if◌then◌else◌, Eq,
  ◌==◌, nat_eq, length, drop,
}
use obmc_yadro_webapp.Prelude.Text.{
  Text, text, is_empty, split_first, after_last, replace, to_string,
}

-- OpenSSL, as far as the program relies on it. `CRYPTO_memcmp` of two buffers of one size is 0
-- exactly if they are equal; `EVP_DecodeBlock` is `none` on an error, and otherwise gives the bytes
-- that it wrote.
pub record Crypto : Type 0 where
  pub memcmp : Text → Text → ℕ
  pub memcmp_iff : (a b : Text) → length a ≡ length b → (memcmp a b ≡ 0) ↔ (a ≡ b)
  pub decode_block : Text → Option Text

-- Leading entries that pass the test are dropped.
unfoldable pub drop_while : (ℕ → Bool) → Text → Text
drop_while p [] = []
drop_while p (c ∷ s) = if p c then drop_while p s else c ∷ s

-- Trailing entries that pass the test are dropped.
unfoldable pub drop_while_end : (ℕ → Bool) → Text → Text
drop_while_end p [] = []
drop_while_end p (c ∷ s) = elim (drop_while_end p s) [
  | [] ↦ if p c then [] else c ∷ []
  | d ∷ t ↦ c ∷ d ∷ t
]

-- `std::count`.
unfoldable pub count : ℕ → Text → ℕ
count c [] = 0
count c (x ∷ s) = (if x == c then 1 else 0) + count c s

unfoldable pub count_extra_segments_of_path : Text → Text → ℕ
unfolding drop_while drop_while_end count
count_extra_segments_of_path namespace_path path =
    let segments =
      drop_while_end (λ c. c == b'/')
        (drop_while (λ c. c == b'/') (drop (length namespace_path) path)) in
    if is_empty segments then 0 else count b'/' segments + 1

module _ (crypto : Crypto) where
  unfoldable pub constant_time_string_compare : Text → Text → Bool
  constant_time_string_compare a b = if length a == length b then crypto.memcmp a b == 0 else false

  -- The buffer is read back as a C string: up to its first zero byte.
  unfoldable pub until_nul : Text → Text
  until_nul [] = []
  until_nul (c ∷ s) = if c == 0 then [] else c ∷ until_nul s

  -- `none` is the exception.
  unfoldable pub base64_decode : Text → Option Text
  unfolding until_nul
  base64_decode input =
      let predicted_len = 3 * length input / 4 in
      elim (crypto.decode_block input) [
        | none ↦ none
        | some output ↦ if predicted_len == length output then some (until_nul output) else none
      ]

-- `isalnum` of the C locale.
unfoldable pub isalnum : ℕ → Bool
isalnum c = leb b'0' c && leb c b'9' || leb b'A' c && leb c b'Z' || leb b'a' c && leb c b'z'

is_unreserved : ℕ → Bool
unfolding isalnum
is_unreserved c = isalnum c || c == b'-' || c == b'_' || c == b'.' || c == b'~'

-- A hexadecimal digit under `std::uppercase`.
hex_digit : ℕ → ℕ
hex_digit n = if ltb n 10 then b'0' + n else b'A' + (n - 10)

unfoldable pub url_encode : Text → Text
unfolding is_unreserved hex_digit
url_encode [] = []
url_encode (c ∷ s) =
    (if is_unreserved c then c ∷ [] else b'%' ∷ hex_digit (c / 16) ∷ hex_digit (c % 16) ∷ [])
    ++ url_encode s

-- With `cleanup` each underscore becomes a space. A path without a slash is returned as it is.
unfoldable pub get_name_from_last_segment_object_path : Text → Bool → Text
unfolding after_last replace
get_name_from_last_segment_object_path object_path cleanup = elim (after_last b'/' object_path) [
  | none ↦ object_path
  | some name ↦ if cleanup then replace b'_' 32 name else name
]

lower : ℕ → ℕ
lower c = if leb b'A' c && leb c b'Z' then c + 32 else c

unfoldable pub to_lower : Text → Text
unfolding lower
to_lower s = map lower s

-- `std::isspace` of the C locale.
unfoldable pub isspace : ℕ → Bool
isspace c = c == 32 || leb 9 c && leb c 13

unfoldable pub ltrim : Text → Text
unfolding drop_while isspace
ltrim s = drop_while isspace s

unfoldable pub rtrim : Text → Text
unfolding drop_while_end isspace
rtrim s = drop_while_end isspace s

unfoldable pub trim : Text → Text
unfolding ltrim rtrim
trim s = rtrim (ltrim s)

-- `0xffffffff << (32 - bits)` on 32 bits. A shift by 32 or more is undefined in the source, as for
-- `bits` 0 or above 32: that is `none`.
netmask_value : ℕ → Option ℕ
netmask_value bits =
    if leb 1 bits && leb bits 32 then some (0xffffffff * 2 ^ (32 - bits) % 2 ^ 32) else none

octet : ℕ → ℕ → ℕ
octet value shift = value / 2 ^ shift % 256

unfoldable pub get_netmask : ℕ → Option Text
unfolding netmask_value octet to_string
get_netmask bits = elim (netmask_value bits) [
  | none ↦ none
  | some value ↦ some (
      to_string (octet value 24)
      ++ text "."
      ++ to_string (octet value 16)
      ++ text "."
      ++ to_string (octet value 8)
      ++ text "."
      ++ to_string (octet value 0))
]

-- `getline` until the stream ends: there is always a last part, which may be empty.
unfoldable pub split_to_vector : Text → ℕ → List Text
split_to_vector [] delimiter = [] ∷ []
split_to_vector (c ∷ s) delimiter =
    let rest = split_to_vector s delimiter in
    if c == delimiter
    then [] ∷ rest
    else elim rest [ [] ↦ (c ∷ []) ∷ [] | part ∷ parts ↦ (c ∷ part) ∷ parts ]

unfoldable pub split_to_pair : Text → ℕ → Text × Text
unfolding split_first
split_to_pair s delimiter = elim (split_first delimiter s) [ none ↦ (s, []) | some pair ↦ pair ]
