-- ===== src/Authorization/Tests.antt =====
-- The theorems on authorization at concrete requests.
use obmc_yadro_webapp.Prelude.{
  ◌*◌, ◌≡◌, refl, true, false, none, some, [], ◌∷◌, lookup, if◌then◌else◌, text_beq, text_eq,
  insert_or_assign,
}
use obmc_yadro_webapp.Prelude.Text.{text}
use obmc_yadro_webapp.Http.{temporary_redirect, unauthorized}
use obmc_yadro_webapp.Utils.Tests.{plain_crypto, plain_memcmp}
use obmc_yadro_webapp.Utils.{constant_time_string_compare}
use obmc_yadro_webapp.Session.Types.{UserSession, World}
use obmc_yadro_webapp.Session.Store.{
  second, login_session_by_token, use_token, apply_session_timeouts, is_expired,
}
use obmc_yadro_webapp.Session.Tests.{
  token_a, alice, one_session, one_world, one_session-IsWellFormed,
}
use obmc_yadro_webapp.Request.{
  Request, get_uri_path, is_session_empty, set_session, get, post, is_browser_request,
}
use obmc_yadro_webapp.Response.{new_response}
use obmc_yadro_webapp.Authorization.{
  attempts, try_xtoken, try_cookie, try_authorization, perform_xtoken_auth, perform_cookie_auth,
  Services, pam_failure, x_xsrf_token, x_auth_token, is_on_whitelist, csrf_passes, authenticate,
}
use obmc_yadro_webapp.Authorization.Evidence.{Evidence}
use obmc_yadro_webapp.Authorization.Sound.{authenticate_sound}
use obmc_yadro_webapp.Authorization.Denied.{authenticate_denied}

-- PAM accepts nobody.
abbrev pub strict : Services
strict = record {
  crypto = plain_crypto;
  pam_authenticate_user = λ user pass. pam_failure 7;
  draws = λ i. (i, false);
  now = 6 * second;
}

abbrev pub plain_request : Request
plain_request = record {
  env = record {
    request_method = get;
    others = [];
    cookies = [];
    authorization = [];
    user_agent = text "curl";
    content_type = [];
    accept_content_types = text "*/*";
    path_info = text "redfish" ∷ text "v1" ∷ text "Chassis" ∷ [];
    remote_address = text "10.0.0.1";
  };
  user_session = none;
}

abbrev pub token_request : Request
token_request = record plain_request {
  env = record plain_request.env { others = (x_auth_token, token_a) ∷ [] };
}

abbrev post_request : Request
post_request = record plain_request {
  env = record plain_request.env {
    request_method = post;
    others = (x_xsrf_token, text "BBBBBBBBBBBBBBBBBBBB") ∷ [];
  };
}

abbrev closed_world : World
closed_world = record one_world {
  store = record one_session {
    auth_methods_config = record {
      xtoken = false;
      cookie = false;
      session_token = false;
      basic = false;
      tls = false;
    };
  };
}

pub not_listed : is_on_whitelist plain_request ≡ false
unfolding is_on_whitelist get_uri_path text_beq
not_listed = refl

token_not_listed : is_on_whitelist token_request ≡ false
unfolding is_on_whitelist get_uri_path text_beq
token_not_listed = refl

pub token_granted : (authenticate strict one_world token_request new_response).granted ≡ true
unfolding authenticate attempts try_xtoken try_cookie try_authorization is_session_empty set_session
    perform_xtoken_auth login_session_by_token use_token apply_session_timeouts is_expired lookup
    text_beq insert_or_assign is_on_whitelist get_uri_path
token_granted = refl

pub plain_denied : (authenticate strict one_world plain_request new_response).granted ≡ false
unfolding authenticate attempts try_xtoken try_cookie try_authorization is_session_empty set_session
    perform_xtoken_auth perform_cookie_auth lookup text_beq is_on_whitelist get_uri_path
plain_denied = refl

csrf_ok : csrf_passes strict post_request alice ≡ true
unfolding csrf_passes constant_time_string_compare plain_memcmp lookup text_beq
csrf_ok = refl

authenticate_sound_example :
    (u : UserSession) × ((authenticate strict one_world token_request
        new_response).request.user_session
      ≡ some u)
    × Evidence strict one_world token_request u
authenticate_sound_example =
    authenticate_sound strict one_world token_request new_response one_session-IsWellFormed refl
      token_not_listed token_granted

authenticate_denied_example :
    ((authenticate strict one_world plain_request new_response).request.user_session ≡ none)
    × ((authenticate strict one_world plain_request new_response).response.status
        ≡ (if is_browser_request plain_request then temporary_redirect else unauthorized))
    × ((authenticate strict one_world plain_request new_response).response.internal_buffer ≡ [])
    × ((authenticate strict one_world plain_request new_response).world.files ≡ one_world.files)
authenticate_denied_example =
    authenticate_denied strict one_world plain_request new_response plain_denied
