-- ===== src/Response.antt =====
-- The HTTP response under construction (src/core/response.hpp and src/core/response.cpp).
use obmc_yadro_webapp.Prelude.{ℕ, [], ◌∷◌, ◌++◌, length}
use obmc_yadro_webapp.Prelude.Text.{Text, text}
use obmc_yadro_webapp.Http.{Code, not_found, header, header_status}

pub record Response : Type 0 where
  pub status : Code
  pub content_type : Text
  pub header_buffer : Text
  pub internal_buffer : Text

-- The answer as it is constructed.
abbrev pub new_response : Response
new_response = record {
  status = not_found;
  content_type = text "text/plain; charset=UTF-8";
  header_buffer = [];
  internal_buffer = [];
}

abbrev end_header_line : Text
end_header_line = 13 ∷ 10 ∷ []

unfoldable pub total_size : Response → ℕ
total_size r = length r.internal_buffer

unfoldable pub set_content_type : Text → Response → Response
set_content_type content_type r = record r { content_type = content_type }

unfoldable pub set_status : Code → Response → Response
set_status status r = record r { status = status }

unfoldable pub set_header : Text → Text → Response → Response
unfolding header
set_header name value r = record r {
  header_buffer = r.header_buffer ++ (header name value ++ end_header_line);
}

unfoldable pub get_head : Response → Text
unfolding header header_status
get_head r =
    header_status r.status
    ++ (end_header_line
        ++ ((header (text "Content-Type") r.content_type ++ end_header_line)
            ++ (r.header_buffer ++ end_header_line)))

unfoldable pub push : Text → Response → Response
push buffer r = record r { internal_buffer = r.internal_buffer ++ buffer }

unfoldable pub clear : Response → Response
clear r = record r { internal_buffer = [] }
