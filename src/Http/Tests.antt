-- ===== src/Http/Tests.antt =====
-- The theorems on status codes at concrete inputs.
use obmc_yadro_webapp.Prelude.{◌≡◌, refl}
use obmc_yadro_webapp.Prelude.Text.{text}
use obmc_yadro_webapp.Http.{not_found, header_status}

status_line : header_status not_found ≡ text "HTTP/1.1 404 Not Found"
unfolding header_status
status_line = refl
