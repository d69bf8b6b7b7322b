-- ===== src/Authorization/Denied.antt =====
-- What a request that is not granted sees and leaves (src/service/authorization.hpp,
-- `authenticate`).
use obmc_yadro_webapp.Prelude.{
  ℕ, ◌≡◌, refl, ap, ◌∙◌, inl, inr, Bool, true, false, not, ◌&&◌, none, some, arith, nat_eq, text_eq,
  beq_refl, if◌then◌else◌, lookup, lookup-emplace, Bool-cases, Option-cases,
}
use obmc_yadro_webapp.Prelude.Text.{Text, is_empty, starts_with}
use obmc_yadro_webapp.Http.{temporary_redirect, unauthorized}
use obmc_yadro_webapp.Session.Types.{UserSession, World, single_request, config_long_term_storage}
use obmc_yadro_webapp.Session.Store.{
  Draws, random_texts, store_auth_token, new_session, generate_user_session, new_basic_auth_session,
}
use obmc_yadro_webapp.Request.{Request, set_session, is_session_empty, is_browser_request}
use obmc_yadro_webapp.Response.{Response, set_status, set_header}
use obmc_yadro_webapp.Authorization.{
  Services, auth_token, auth_basic, credentials, is_on_whitelist, perform_basic_auth, try_xtoken,
  try_cookie, try_authorization, attempts, deny, authenticate,
}
use obmc_yadro_webapp.Authorization.Sound.{PamCode-cases}

try_xtoken-env :
    (services : Services) (a : World × Request) → (try_xtoken services a).1.env ≡ a.1.env
unfolding try_xtoken set_session
try_xtoken-env services (w, r) = ground arith

try_cookie-env :
    (services : Services) (a : World × Request) → (try_cookie services a).1.env ≡ a.1.env
unfolding try_cookie set_session
try_cookie-env services (w, r) = ground arith

try_authorization-env :
    (services : Services) (a : World × Request) → (try_authorization services a).1.env ≡ a.1.env
unfolding try_authorization set_session
try_authorization-env services (w, r) = ground arith

attempts-env : (services : Services) (a : World × Request) → (attempts services a).1.env ≡ a.1.env
unfolding attempts
attempts-env services a =
    try_authorization-env services _ ∙ try_cookie-env services _ ∙ try_xtoken-env services a

-- Once the random texts are drawn, there is a session.
store_auth_token-some :
    (token : Text) (session : UserSession) (w : World)
    → (u : UserSession) × ((store_auth_token token session w).1 ≡ some u)
unfolding store_auth_token
store_auth_token-some token session w = elim (Option-cases (lookup token w.store.auth_tokens)) [
  | inl missing ↦ (
    session,
    ground (arith, beq_refl token, lookup-emplace token token session w.store.auth_tokens),
  )
  | inr (old, found) ↦ (old, ground (arith, lookup-emplace token token session w.store.auth_tokens))
]

new_basic_auth_session-none :
    (draws : Draws) (now : ℕ) (username : Text) (self_only : Bool) (client_ip : Text) (w : World)
    → (new_basic_auth_session draws now username self_only client_ip w).1 ≡ none
    → (new_basic_auth_session draws now username self_only client_ip w).0 ≡ w
unfolding new_basic_auth_session generate_user_session
new_basic_auth_session-none draws now username self_only client_ip w e =
    elim (Option-cases (random_texts draws)) [
      | inl failed ↦ rw (failed, generate_user_session) refl
      | inr ((token, csrf, uid), drawn) ↦
          let session =
            new_session username single_request self_only client_ip client_ip
              config_long_term_storage now token csrf uid in
          let (u, stored) = store_auth_token-some token session w in
          let given : (new_basic_auth_session draws now username self_only client_ip w).1 ≡ some u =
            rw (drawn, generate_user_session) stored in
          absurd (ground arith)
    ]

perform_basic_auth-none :
    (services : Services) (r : Request) (w : World)
    → (perform_basic_auth services r w).1 ≡ none
    → (perform_basic_auth services r w).0 ≡ w
unfolding perform_basic_auth
perform_basic_auth-none services r w e =
    elim (Option-cases (credentials services r.env.authorization)) [
      | inl missing ↦ rw (missing, perform_basic_auth) refl
      | inr ((user, pass), found) ↦
          elim (PamCode-cases (services.pam_authenticate_user user pass)) [
            | inl (inl p) ↦
                let failed =
                  new_basic_auth_session-none services.draws services.now user false _ w in
                rw (found, p, perform_basic_auth) (failed (rw (found, p, perform_basic_auth) at e))
            | inl (inr p) ↦
                let failed =
                  new_basic_auth_session-none services.draws services.now user true _ w in
                rw (found, p, perform_basic_auth) (failed (rw (found, p, perform_basic_auth) at e))
            | inr (code, p) ↦ rw (found, p, perform_basic_auth) refl
          ]
    ]

-- The files after an attempt that gives no session.
try_authorization-files :
    (services : Services) (w : World) (r : Request)
    → (try_authorization services (w, r)).1.user_session ≡ none
    → (try_authorization services (w, r)).0.files ≡ w.files
unfolding try_authorization set_session
try_authorization-files services w r e =
    elim (Bool-cases (is_session_empty r && not (is_empty r.env.authorization))) [
      | inr off ↦ rw off refl
      | inl on ↦
          elim (Bool-cases (
            starts_with auth_token r.env.authorization
            && w.store.auth_methods_config.session_token)) [
              | inl token ↦ rw (on, token) refl
              | inr other ↦
                  elim (Bool-cases (
                    starts_with auth_basic r.env.authorization
                    && w.store.auth_methods_config.basic)) [
                      | inr neither ↦ rw (on, other, neither) refl
                      | inl basic ↦
                          rw (on, other, basic)
                            (ap (λ v. v.files)
                              (perform_basic_auth-none services r w (rw (on, other, basic) at e)))
                    ]
            ]
    ]

try_xtoken-files :
    (services : Services) (a : World × Request) → (try_xtoken services a).0.files ≡ a.0.files
unfolding try_xtoken
try_xtoken-files services (w, r) = ground arith

try_cookie-files :
    (services : Services) (a : World × Request) → (try_cookie services a).0.files ≡ a.0.files
unfolding try_cookie
try_cookie-files services (w, r) = ground arith

attempts-files :
    (services : Services) (w : World) (r : Request)
    → (attempts services (w, r)).1.user_session ≡ none
    → (attempts services (w, r)).0.files ≡ w.files
unfolding attempts
attempts-files services w r e =
    let a = try_cookie services (try_xtoken services (w, r)) in
    try_authorization-files services a.0 a.1 e
    ∙ try_cookie-files services _
    ∙ try_xtoken-files services (w, r)

is_browser_request-env :
    (r r' : Request) → r'.env ≡ r.env → is_browser_request r' ≡ is_browser_request r
unfolding is_browser_request
is_browser_request-env r r' e = rw e refl

deny-status :
    (r : Request) (response : Response)
    → (deny r response).status ≡ (if is_browser_request r then temporary_redirect else unauthorized)
unfolding deny set_status set_header
deny-status r response = ground arith

deny-body :
    (r : Request) (response : Response)
    → (deny r response).internal_buffer ≡ response.internal_buffer
unfolding deny set_status set_header
deny-body r response = ground arith

-- A request that is not granted has no session, is answered 307 if it is a browser's and 401
-- otherwise with the body as it was, and has written no file.
pub authenticate_denied :
    (services : Services) (w : World) (r : Request) (response : Response)
    → (authenticate services w r response).granted ≡ false
    → ((authenticate services w r response).request.user_session ≡ none)
      × ((authenticate services w r response).response.status
          ≡ (if is_browser_request r then temporary_redirect else unauthorized))
      × ((authenticate services w r response).response.internal_buffer ≡ response.internal_buffer)
      × ((authenticate services w r response).world.files ≡ w.files)
unfolding authenticate is_session_empty
authenticate_denied services w r response e =
    let a = attempts services (w, r) in
    elim (Bool-cases (is_on_whitelist r)) [
      | inl listed ↦ absurd (ground arith)
      | inr other ↦ elim (Option-cases a.1.user_session) [
        | inr (u, shown) ↦ absurd (ground arith)
        | inl denied ↦
            let empty : is_session_empty a.1 ≡ true = ground arith in
            rw (other, empty)
              (
                denied,
                deny-status a.1 response
                    ∙ ap (λ b. if b then temporary_redirect else unauthorized)
                        (is_browser_request-env r a.1 (attempts-env services (w, r))),
                deny-body a.1 response,
                attempts-files services w r denied,
              )
      ]
    ]

-- With every method off, a request without a session that is not on the whitelist is not granted,
-- and the state stays as it was.
pub authenticate_disabled :
    (services : Services) (w : World) (r : Request) (response : Response)
    → w.store.auth_methods_config.xtoken ≡ false
    → w.store.auth_methods_config.cookie ≡ false
    → w.store.auth_methods_config.session_token ≡ false
    → w.store.auth_methods_config.basic ≡ false
    → r.user_session ≡ none
    → is_on_whitelist r ≡ false
    → ((authenticate services w r response).granted ≡ false)
      × ((authenticate services w r response).world ≡ w)
unfolding authenticate attempts try_xtoken try_cookie try_authorization is_session_empty
authenticate_disabled services w r response x c t b fresh other = ground arith
