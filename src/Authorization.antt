-- ===== src/Authorization.antt =====
-- Who may proceed with a request: src/service/authorization.hpp, with CSRF prevention compiled in.
-- PAM and OpenSSL, the clock and the random generator are the parameter `Services`.
pub mod Evidence
pub mod Attempts
pub mod Sound
pub mod Denied
pub mod Tests
use obmc_yadro_webapp.Prelude.{
  ℕ, ◌≡◌, Bool, true, false, not, ◌&&◌, ◌||◌, Option, none, some, List, [], ◌∷◌, ◌++◌,
  if◌then◌else◌, Eq, ◌==◌, nat_eq, text_eq, any_of, length, drop, lookup,
}
use obmc_yadro_webapp.Prelude.Text.{Text, text, is_empty, starts_with, split_first}
use obmc_yadro_webapp.Http.{temporary_redirect, unauthorized}
use obmc_yadro_webapp.Utils.{Crypto, constant_time_string_compare, base64_decode, url_encode}
use obmc_yadro_webapp.Session.Types.{UserSession, SessionStore, World, session_token_size}
use obmc_yadro_webapp.Session.Config.{commit}
use obmc_yadro_webapp.Session.Store.{Draws, login_session_by_token, new_basic_auth_session}
use obmc_yadro_webapp.Request.{
  Request, RequestMethod, get, post, set_session, is_session_empty, is_browser_request,
  get_uri_path, get_client_ip,
}
use obmc_yadro_webapp.Response.{Response, set_status, set_header}

-- The codes of PAM that the program tells apart.
pub data PamCode : Type 0 where
  pam_success pam_new_authtok_reqd : PamCode
  pam_failure : ℕ → PamCode

-- `pam_authenticate_user` stands for the conversation with libpam.
pub record Services : Type 0 where
  pub crypto : Crypto
  pub pam_authenticate_user : Text → Text → PamCode
  pub draws : Draws
  pub now : ℕ

abbrev pub x_xsrf_token : Text
x_xsrf_token = text "HTTP_X_XSRF_TOKEN"

abbrev pub x_auth_token : Text
x_auth_token = text "HTTP_X_AUTH_TOKEN"

abbrev pub auth_basic : Text
auth_basic = text "Basic "

abbrev pub auth_token : Text
auth_token = text "Token "

abbrev pub cookie_session : Text
cookie_session = text "SESSION"

abbrev pub is_get : RequestMethod → Bool
is_get get = true
is_get _ = false

abbrev pub is_post : RequestMethod → Bool
is_post post = true
is_post _ = false

unfoldable pub is_on_whitelist : Request → Bool
is_on_whitelist r =
    if is_get r.env.request_method
    then any_of (λ uri. uri == get_uri_path r)
        (text "/redfish/" ∷ text "/redfish/v1/" ∷ text "/redfish/v1/odata/" ∷ [])
    else if is_post r.env.request_method
    then any_of (λ uri. uri == get_uri_path r)
        (text "/login/" ∷ text "/redfish/v1/SessionService/Sessions/" ∷ [])
    else false

-- The answer to a request with no session.
unfoldable pub deny : Request → Response → Response
deny r response =
    if is_browser_request r
    then set_header (text "Location") (text "/#/login?next=" ++ url_encode (get_uri_path r))
        (set_status temporary_redirect response)
    else if is_empty r.env.user_agent
    then set_header (text "WWW-Authenticate") auth_basic (set_status unauthorized response)
    else set_status unauthorized response

pub record Verdict : Type 0 where
  pub world : World
  pub request : Request
  pub response : Response
  pub granted : Bool

module _ (services : Services) where
  open services use {crypto, pam_authenticate_user, draws, now}

  unfoldable pub perform_token_auth : Text → SessionStore → SessionStore × Option UserSession
  perform_token_auth auth_header s =
      login_session_by_token now (drop (length auth_token) auth_header) s

  unfoldable pub perform_xtoken_auth : Request → SessionStore → SessionStore × Option UserSession
  perform_xtoken_auth r s = elim (lookup x_auth_token r.env.others) [
    | none ↦ (s, none)
    | some token ↦ if is_empty token then (s, none) else login_session_by_token now token s
  ]

  -- Whether the request's CSRF token is the session's. A GET needs none.
  unfoldable pub csrf_passes : Request → UserSession → Bool
  csrf_passes r session =
      if is_get r.env.request_method then true else elim (lookup x_xsrf_token r.env.others) [
        | none ↦ false
        | some csrf ↦
            if is_empty csrf || is_empty session.csrf_token
            then false
            else if length csrf == session_token_size
            then constant_time_string_compare crypto csrf session.csrf_token
            else false
      ]

  -- The login counts as a use of the session also where the CSRF token is wrong.
  unfoldable pub perform_cookie_auth : Request → SessionStore → SessionStore × Option UserSession
  perform_cookie_auth r s = elim (lookup cookie_session r.env.cookies) [
    | none ↦ (s, none)
    | some token ↦
        let (s', session) = login_session_by_token now token s in
        elim session [
          | none ↦ (s', none)
          | some u ↦ if csrf_passes r u then (s', some u) else (s', none)
        ]
  ]

  -- The user and the password, up to and behind the first colon.
  unfoldable pub credentials : Text → Option (Text × Text)
  credentials authorization = elim (base64_decode crypto (drop (length auth_basic) authorization)) [
    | none ↦ none
    | some auth_data ↦ split_first b':' auth_data
  ]

  unfoldable pub perform_basic_auth : Request → World → World × Option UserSession
  perform_basic_auth r w = elim (credentials r.env.authorization) [
    | none ↦ (w, none)
    | some (user, pass) ↦ elim (pam_authenticate_user user pass) [
      | pam_success ↦ new_basic_auth_session draws now user false (get_client_ip r) w
      | pam_new_authtok_reqd ↦ new_basic_auth_session draws now user true (get_client_ip r) w
      | pam_failure code ↦ (w, none)
    ]
  ]

  with_store : World → Request → SessionStore × Option UserSession → World × Request
  with_store w r (s, session) = (record w { store = s }, set_session session r)

  -- The X-Auth-Token header, if no session is set and the method is enabled.
  unfoldable pub try_xtoken : World × Request → World × Request
  unfolding with_store is_session_empty
  try_xtoken (w, r) =
      if is_session_empty r && w.store.auth_methods_config.xtoken
      then with_store w r (perform_xtoken_auth r w.store)
      else (w, r)

  unfoldable pub try_cookie : World × Request → World × Request
  unfolding with_store is_session_empty
  try_cookie (w, r) =
      if is_session_empty r && w.store.auth_methods_config.cookie
      then with_store w r (perform_cookie_auth r w.store)
      else (w, r)

  -- The Authorization header: a token or basic credentials, and nothing else.
  unfoldable pub try_authorization : World × Request → World × Request
  unfolding with_store is_session_empty
  try_authorization (w, r) =
      if is_session_empty r && not (is_empty r.env.authorization)
      then if starts_with auth_token r.env.authorization
          && w.store.auth_methods_config.session_token
        then with_store w r (perform_token_auth r.env.authorization w.store)
        else if starts_with auth_basic r.env.authorization && w.store.auth_methods_config.basic
        then (let (w', session) = perform_basic_auth r w in (w', set_session session r))
        else (w, r)
      else (w, r)

  unfoldable pub attempts : World × Request → World × Request
  attempts a = try_authorization (try_cookie (try_xtoken a))

  unfoldable pub authenticate : World → Request → Response → Verdict
  unfolding is_session_empty
  authenticate w r response =
      if is_on_whitelist r
      then record { world = w; request = r; response = response; granted = true }
      else let (w', r') = attempts (w, r) in
        if is_session_empty r'
        then record { world = w'; request = r'; response = deny r' response; granted = false }
        else record { world = commit w'; request = r'; response = response; granted = true }
