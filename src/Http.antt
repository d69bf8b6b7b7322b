-- ===== src/Http.antt =====
-- The HTTP status codes, their classes, reason phrases and header lines (src/http/headers.hpp).
pub mod Laws
mod Tests
use obmc_yadro_webapp.Prelude.{
  ℕ, ◌≡◌, Bool, true, false, ◌&&◌, Option, none, some, List, [], ◌∷◌, ◌++◌, arith, ltb, leb,
  if◌then◌else◌, Eq, nat_eq, lookup,
}
use obmc_yadro_webapp.Prelude.Text.{Text, text, to_string}

-- `statuses::Code`.
pub data Code : Type 0 where
  continue switching_protocols processing early_hints ok created accepted : Code
  non_authoritative_information no_content reset_content partial_content multi_status : Code
  already_reported im_used multiple_choices moved_permanently found see_other not_modified : Code
  use_proxy temporary_redirect permanent_redirect bad_request unauthorized payment_required : Code
  forbidden not_found method_not_allowed not_acceptable proxy_authentication_required : Code
  request_timeout conflict gone length_required precondition_failed payload_too_large uri_too_long :
      Code
  unsupported_media_type range_not_satisfiable expectation_failed im_a_teapot unprocessable_entity :
      Code
  locked failed_dependency upgrade_required precondition_required too_many_requests : Code
  request_header_fields_too_large unavailable_for_legal_reasons internal_server_error : Code
  not_implemented bad_gateway service_unavailable gateway_timeout http_version_not_supported : Code
  variant_also_negotiates insufficient_storage loop_detected not_extended : Code
  network_authentication_required : Code

-- `toInt` and every `static_cast<int>` of a code.
unfoldable pub to_int : Code → ℕ
to_int continue = 100
to_int switching_protocols = 101
to_int processing = 102
to_int early_hints = 103
to_int ok = 200
to_int created = 201
to_int accepted = 202
to_int non_authoritative_information = 203
to_int no_content = 204
to_int reset_content = 205
to_int partial_content = 206
to_int multi_status = 207
to_int already_reported = 208
to_int im_used = 226
to_int multiple_choices = 300
to_int moved_permanently = 301
to_int found = 302
to_int see_other = 303
to_int not_modified = 304
to_int use_proxy = 305
to_int temporary_redirect = 307
to_int permanent_redirect = 308
to_int bad_request = 400
to_int unauthorized = 401
to_int payment_required = 402
to_int forbidden = 403
to_int not_found = 404
to_int method_not_allowed = 405
to_int not_acceptable = 406
to_int proxy_authentication_required = 407
to_int request_timeout = 408
to_int conflict = 409
to_int gone = 410
to_int length_required = 411
to_int precondition_failed = 412
to_int payload_too_large = 413
to_int uri_too_long = 414
to_int unsupported_media_type = 415
to_int range_not_satisfiable = 416
to_int expectation_failed = 417
to_int im_a_teapot = 418
to_int unprocessable_entity = 422
to_int locked = 423
to_int failed_dependency = 424
to_int upgrade_required = 426
to_int precondition_required = 428
to_int too_many_requests = 429
to_int request_header_fields_too_large = 431
to_int unavailable_for_legal_reasons = 451
to_int internal_server_error = 500
to_int not_implemented = 501
to_int bad_gateway = 502
to_int service_unavailable = 503
to_int gateway_timeout = 504
to_int http_version_not_supported = 505
to_int variant_also_negotiates = 506
to_int insufficient_storage = 507
to_int loop_detected = 508
to_int not_extended = 510
to_int network_authentication_required = 511

-- The overloads on numbers, and on codes through `to_int`.
unfoldable pub is_informational : ℕ → Bool
is_informational code = leb 100 code && ltb code 200

unfoldable pub is_successful : ℕ → Bool
is_successful code = leb 200 code && ltb code 300

unfoldable pub is_redirection : ℕ → Bool
is_redirection code = leb 300 code && ltb code 400

unfoldable pub is_client_error : ℕ → Bool
is_client_error code = leb 400 code && ltb code 500

unfoldable pub is_server_error : ℕ → Bool
is_server_error code = leb 500 code && ltb code 600

unfoldable pub is_error : ℕ → Bool
is_error code = leb 400 code

-- `reasonPhraseDict`, ordered by the code's number.
reason_phrase_dict : List (ℕ × Text)
unfolding to_int
reason_phrase_dict =
    (to_int continue, text "Continue")
    ∷ (to_int switching_protocols, text "Switching Protocols")
    ∷ (to_int processing, text "Processing")
    ∷ (to_int early_hints, text "Early Hints")
    ∷ (to_int ok, text "OK")
    ∷ (to_int created, text "Created")
    ∷ (to_int accepted, text "Accepted")
    ∷ (to_int non_authoritative_information, text "Non-Authoritative Information")
    ∷ (to_int no_content, text "No Content")
    ∷ (to_int reset_content, text "Reset Content")
    ∷ (to_int partial_content, text "Partial Content")
    ∷ (to_int multi_status, text "Multi-Status")
    ∷ (to_int already_reported, text "Already Reported")
    ∷ (to_int im_used, text "IM Used")
    ∷ (to_int multiple_choices, text "Multiple Choices")
    ∷ (to_int moved_permanently, text "Moved Permanently")
    ∷ (to_int found, text "Found")
    ∷ (to_int see_other, text "See Other")
    ∷ (to_int not_modified, text "Not Modified")
    ∷ (to_int use_proxy, text "Use Proxy")
    ∷ (to_int temporary_redirect, text "Temporary Redirect")
    ∷ (to_int permanent_redirect, text "Permanent Redirect")
    ∷ (to_int bad_request, text "Bad Request")
    ∷ (to_int unauthorized, text "Unauthorized")
    ∷ (to_int payment_required, text "Payment Required")
    ∷ (to_int forbidden, text "Forbidden")
    ∷ (to_int not_found, text "Not Found")
    ∷ (to_int method_not_allowed, text "Method Not Allowed")
    ∷ (to_int not_acceptable, text "Not Acceptable")
    ∷ (to_int proxy_authentication_required, text "Proxy Authentication Required")
    ∷ (to_int request_timeout, text "Request Timeout")
    ∷ (to_int conflict, text "Conflict")
    ∷ (to_int gone, text "Gone")
    ∷ (to_int length_required, text "Length Required")
    ∷ (to_int precondition_failed, text "Precondition Failed")
    ∷ (to_int payload_too_large, text "Payload Too Large")
    ∷ (to_int uri_too_long, text "URI Too Long")
    ∷ (to_int unsupported_media_type, text "Unsupported Media Type")
    ∷ (to_int range_not_satisfiable, text "Range Not Satisfiable")
    ∷ (to_int expectation_failed, text "Expectation Failed")
    ∷ (to_int im_a_teapot, text "I'm a teapot")
    ∷ (to_int unprocessable_entity, text "Unprocessable Entity")
    ∷ (to_int locked, text "Locked")
    ∷ (to_int failed_dependency, text "Failed Dependency")
    ∷ (to_int upgrade_required, text "Upgrade Required")
    ∷ (to_int precondition_required, text "Precondition Required")
    ∷ (to_int too_many_requests, text "Too Many Requests")
    ∷ (to_int request_header_fields_too_large, text "Request Header Fields Too Large")
    ∷ (to_int unavailable_for_legal_reasons, text "Unavailable For Legal Reasons")
    ∷ (to_int internal_server_error, text "Internal Server Error")
    ∷ (to_int not_implemented, text "Not Implemented")
    ∷ (to_int bad_gateway, text "Bad Gateway")
    ∷ (to_int service_unavailable, text "Service Unavailable")
    ∷ (to_int gateway_timeout, text "Gateway Time-out")
    ∷ (to_int http_version_not_supported, text "HTTP Version Not Supported")
    ∷ (to_int variant_also_negotiates, text "Variant Also Negotiates")
    ∷ (to_int insufficient_storage, text "Insufficient Storage")
    ∷ (to_int loop_detected, text "Loop Detected")
    ∷ (to_int not_extended, text "Not Extended")
    ∷ (to_int network_authentication_required, text "Network Authentication Required")
    ∷ []

-- `reasonPhrase`: the empty text for an unknown code.
unfoldable pub reason_phrase : ℕ → Text
unfolding reason_phrase_dict lookup
reason_phrase code = elim (lookup code reason_phrase_dict) [ none ↦ [] | some phrase ↦ phrase ]

-- `http::header`.
unfoldable pub header : Text → Text → Text
header name value = name ++ text ": " ++ value

-- `http::headerStatus`.
unfoldable pub header_status : Code → Text
unfolding to_string reason_phrase to_int
header_status code =
    text "HTTP/1.1"
    ++ text " "
    ++ to_string (to_int code)
    ++ text " "
    ++ reason_phrase (to_int code)
