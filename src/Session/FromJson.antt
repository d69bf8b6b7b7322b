-- ===== src/Session/FromJson.antt =====
-- Loading a session and the authentication methods from JSON (src/service/session.cpp).
use obmc_yadro_webapp.Prelude.{
  ℕ, false, ◌||◌, Option, none, some, List, [], ◌∷◌, if◌then◌else◌, ◌==◌, text_eq,
}
use obmc_yadro_webapp.Prelude.Text.{Text, text, is_empty}
use obmc_yadro_webapp.Json.{Json, boolean, str, items}
use obmc_yadro_webapp.Session.Types.{
  UserSession, AuthConfigMethods, timeout, config_current_service_session,
}

-- `std::make_shared<UserSession>()`; the members with no initialiser are set before they are read.
abbrev pub empty_session : UserSession
empty_session = record {
  unique_id = [];
  session_token = [];
  username = [];
  csrf_token = [];
  client_id = [];
  client_ip = [];
  last_updated = 0;
  persistence = timeout;
  cookie_auth = false;
  is_configure_self_only = false;
  storage_type = config_current_service_session;
  obmc_session_id = [];
}

-- One round of the loop: a value that is no string and an unknown key are skipped.
read_element : UserSession → Text → Json → UserSession
read_element s key (str this_value) =
    if key == text "unique_id"
    then record s { unique_id = this_value }
    else if key == text "session_token"
    then record s { session_token = this_value }
    else if key == text "csrf_token"
    then record s { csrf_token = this_value }
    else if key == text "username"
    then record s { username = this_value }
    else if key == text "client_ip"
    then record s { client_ip = this_value }
    else s
read_element s key _ = s

read_elements : UserSession → List (Text × Json) → UserSession
read_elements s [] = s
read_elements s ((key, value) ∷ rest) = read_elements (read_element s key value) rest

-- `UserSession::fromJson`; `none` is the null pointer.
unfoldable pub session_from_json : ℕ → Json → Option UserSession
unfolding read_element read_elements
session_from_json now j =
    let s = read_elements empty_session (items j) in
    if is_empty s.unique_id
      || is_empty s.username
      || is_empty s.session_token
      || is_empty s.csrf_token
    then none
    else some (record s { last_updated = now; persistence = timeout })

-- One round of the loop: a value that is no Boolean and an unknown key are skipped.
read_method : AuthConfigMethods → Text → Json → AuthConfigMethods
read_method c key (boolean b) =
    if key == text "XToken"
    then record c { xtoken = b }
    else if key == text "Cookie"
    then record c { cookie = b }
    else if key == text "SessionToken"
    then record c { session_token = b }
    else if key == text "BasicAuth"
    then record c { basic = b }
    else if key == text "TLS"
    then record c { tls = b }
    else c
read_method c key _ = c

read_methods : AuthConfigMethods → List (Text × Json) → AuthConfigMethods
read_methods c [] = c
read_methods c ((key, value) ∷ rest) = read_methods (read_method c key value) rest

-- `AuthConfigMethods::fromJson`.
unfoldable pub auth_config_from_json : AuthConfigMethods → Json → AuthConfigMethods
unfolding read_method read_methods
auth_config_from_json c j = read_methods c (items j)
