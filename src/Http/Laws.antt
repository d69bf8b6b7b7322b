-- ===== src/Http/Laws.antt =====
-- The classes of status codes, and the status line (src/http/headers.hpp).
use obmc_yadro_webapp.Prelude.{
  ℕ, ◌+◌, ◌≤◌, ◌<◌, ◌≡◌, ◌↔◌, refl, Bool, true, false, ◌||◌, Option, none, some, arith,
  if◌then◌else◌,
}
use obmc_yadro_webapp.Prelude.Text.{Text, text, of_digits, split_first, starts_with, is_empty}
use obmc_yadro_webapp.Http.{
  Code, to_int, is_informational, is_successful, is_redirection, is_client_error, is_server_error,
  is_error, header_status, continue,
}

-- How many of the five classes a number is in.
abbrev one : Bool → ℕ
one true = 1
one false = 0

pub class_count : ℕ → ℕ
class_count n =
    one (is_informational n)
    + one (is_successful n)
    + one (is_redirection n)
    + one (is_client_error n)
    + one (is_server_error n)

-- A number is in exactly one of the five classes exactly if it lies from 100 to 599.
class_count_lem : (n : ℕ) → (class_count n ≡ 1) ↔ ((100 ≤ n) × (n < 600))
unfolding class_count is_informational is_successful is_redirection is_client_error is_server_error
class_count_lem n = ground arith

Code_range : (c : Code) → (100 ≤ to_int c) × (to_int c < 600)
unfolding to_int
Code_range continue = omega arith
Code_range c = omega arith

-- Every code of the enumeration is an error exactly if it is a client or a server error.
pub is_error_iff :
    (c : Code) → is_error (to_int c) ≡ (is_client_error (to_int c) || is_server_error (to_int c))
unfolding is_error is_client_error is_server_error
is_error_iff c = ground (arith, Code_range c)

-- What a client reads off a status line: the number between the first two spaces, if the line
-- begins with the protocol's version and a phrase follows.
pub parse_status : Text → Option ℕ
parse_status line = elim (split_first 32 line) [
  | none ↦ none
  | some (version, rest) ↦ elim (split_first 32 rest) [
    | none ↦ none
    | some (number, phrase) ↦
        if is_empty phrase
        then none
        else if starts_with (text "HTTP/1.1") version
        then some (of_digits 0 number)
        else none
  ]
]

-- The status line of every code carries the protocol's version, the code's number and a phrase.
pub parse_status-header_status : (c : Code) → parse_status (header_status c) ≡ some (to_int c)
unfolding parse_status header_status split_first starts_with
parse_status-header_status continue = refl
parse_status-header_status c = refl
