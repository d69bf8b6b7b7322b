-- ===== src/Request.antt =====
-- The HTTP request (src/core/request.hpp and src/core/request.cpp). The environment is what the
-- fastcgi++ library has parsed.
use obmc_yadro_webapp.Prelude.{
  Bool, true, false, ◌||◌, Option, none, some, List, [], ◌∷◌, ◌++◌, if◌then◌else◌, ◌==◌, text_eq,
  any_of,
}
use obmc_yadro_webapp.Prelude.Text.{Text, text, is_empty}
use obmc_yadro_webapp.Utils.{split_to_vector}
use obmc_yadro_webapp.Session.Types.{UserSession}

-- `Fastcgipp::Http::RequestMethod`.
pub data RequestMethod : Type 0 where
  error head get post put delete trace options connect : RequestMethod

-- The members of `Fastcgipp::Http::Environment` that the program reads.
pub record Environment : Type 0 where
  pub request_method : RequestMethod
  pub others : List (Text × Text)
  pub cookies : List (Text × Text)
  pub authorization : Text
  pub user_agent : Text
  pub content_type : Text
  pub accept_content_types : Text
  pub path_info : List Text
  pub remote_address : Text

pub record Request : Type 0 where
  pub env : Environment
  pub user_session : Option UserSession

unfoldable pub validate : Request → Bool
validate r =
    is_empty r.env.content_type
    || any_of (λ t. t == r.env.content_type) (text "application/json" ∷ text "text/plain" ∷ [])

unfoldable pub set_session : Option UserSession → Request → Request
set_session session r = record r { user_session = session }

unfoldable pub is_session_empty : Request → Bool
is_session_empty r = elim r.user_session [ none ↦ true | some session ↦ false ]

-- The first of the two types that is listed decides.
prefers_html : List Text → Bool
prefers_html [] = false
prefers_html (encoding ∷ encodings) =
    if encoding == text "text/html"
    then true
    else if encoding == text "application/json"
    then false
    else prefers_html encodings

unfoldable pub is_browser_request : Request → Bool
unfolding prefers_html split_to_vector
is_browser_request r = prefers_html (split_to_vector r.env.accept_content_types b',')

slashed : List Text → Text
slashed [] = []
slashed (segment ∷ segments) = segment ++ (text "/" ++ slashed segments)

-- A slash, and one behind every segment.
unfoldable pub get_uri_path : Request → Text
unfolding slashed
get_uri_path r = text "/" ++ slashed r.env.path_info

unfoldable pub get_client_ip : Request → Text
get_client_ip r = r.env.remote_address
