-- ===== src/Authorization/Attempts.antt =====
-- What each method of authorization shows where it finds a session (src/service/authorization.hpp).
use obmc_yadro_webapp.Prelude.{
  ◌≡◌, sym, ap, ◌∙◌, inl, inr, true, false, Option, some, arith, length, nat_eq, text_eq, lookup,
  drop, Bool-cases, Option-cases,
}
use obmc_yadro_webapp.Prelude.Text.{is_empty, starts_with, starts_with-drop}
use obmc_yadro_webapp.Utils.Laws.{constant_time_string_compare_iff}
use obmc_yadro_webapp.Session.Types.{UserSession, SessionStore, World}
use obmc_yadro_webapp.Session.Store.{login_session_by_token}
use obmc_yadro_webapp.Request.{Request}
use obmc_yadro_webapp.Authorization.{
  Services, x_auth_token, x_xsrf_token, cookie_session, auth_token, is_get, csrf_passes,
  perform_xtoken_auth, perform_cookie_auth, perform_token_auth,
}
use obmc_yadro_webapp.Authorization.Evidence.{
  Follows, login-Follows, login-Known, Evidence, by_xtoken, by_cookie, by_token,
}

-- A request other than a GET passes by its cookie only with the session's CSRF token in its
-- header: a text of twenty characters that equals the session's.
pub csrf_passes_sound :
    (services : Services) (r : Request) (u : UserSession)
    → is_get r.env.request_method ≡ false
    → csrf_passes services r u ≡ true
    → (lookup x_xsrf_token r.env.others ≡ some u.csrf_token) × (length u.csrf_token ≡ 20)
unfolding csrf_passes
csrf_passes_sound services r u writes e = elim (Option-cases (lookup x_xsrf_token r.env.others)) [
  | inl missing ↦ absurd (ground arith)
  | inr (csrf, found) ↦
      let same : csrf ≡ u.csrf_token =
        ground (arith, constant_time_string_compare_iff services.crypto csrf u.csrf_token) in
      (ground arith, ground arith)
]

-- What one attempt gives: a store that follows, and evidence where it gives a session.
unfoldable pub Attempt : Services → World → Request → SessionStore × Option UserSession → Type 0
Attempt services w r (s, session) =
    Follows services.now w.store s
    × ((u : UserSession) → session ≡ some u → Evidence services w r u)

pub xtoken-Attempt :
    (services : Services) (w : World) (r r' : Request) (t : SessionStore)
    → r'.env ≡ r.env
    → Follows services.now w.store t
    → t.auth_methods_config.xtoken ≡ true
    → Attempt services w r (perform_xtoken_auth services r' t)
unfolding Attempt perform_xtoken_auth
xtoken-Attempt services w r r' t env f enabled =
    elim (Option-cases (lookup x_auth_token r'.env.others)) [
      | inl missing ↦ rw (missing, perform_xtoken_auth) (f, λ u e. cc)
      | inr (token, found) ↦ elim (Bool-cases (is_empty token)) [
        | inl e ↦ rw (found, e, perform_xtoken_auth) (f, λ u e. cc)
        | inr e ↦
            rw (found, e, perform_xtoken_auth)
              (
                login-Follows services.now token w.store t f,
                (λ u logged.
                    by_xtoken token (ap (λ c. c.xtoken) (sym f.config) ∙ enabled)
                      (ap (λ v. lookup x_auth_token v.others) (sym env) ∙ found)
                      (login-Known services.now token w.store t u f logged)),
              )
      ]
    ]

csrf_passes-env :
    (services : Services) (r r' : Request) (u : UserSession)
    → r'.env ≡ r.env
    → csrf_passes services r' u ≡ true
    → csrf_passes services r u ≡ true
unfolding csrf_passes
csrf_passes-env services r r' u env e = rw (sym env) e

pub cookie-Attempt :
    (services : Services) (w : World) (r r' : Request) (t : SessionStore)
    → r'.env ≡ r.env
    → Follows services.now w.store t
    → t.auth_methods_config.cookie ≡ true
    → Attempt services w r (perform_cookie_auth services r' t)
unfolding Attempt perform_cookie_auth
cookie-Attempt services w r r' t env f enabled =
    elim (Option-cases (lookup cookie_session r'.env.cookies)) [
      | inl missing ↦ rw (missing, perform_cookie_auth) (f, λ u e. cc)
      | inr (token, found) ↦
          let g = login-Follows services.now token w.store t f in
          elim (Option-cases (login_session_by_token services.now token t).1) [
            | inl e ↦ rw (found, e, perform_cookie_auth) (g, λ u e. cc)
            | inr (u, logged) ↦ elim (Bool-cases (csrf_passes services r' u)) [
              | inr e ↦ rw (found, logged, e, perform_cookie_auth) (g, λ u e. cc)
              | inl passes ↦
                  rw (found, logged, passes, perform_cookie_auth)
                    (
                      g,
                      (λ v same.
                          let known =
                            login-Known services.now token w.store t v f (logged ∙ same) in
                          let here : u ≡ v = cc in
                          by_cookie token (ap (λ c. c.cookie) (sym f.config) ∙ enabled)
                            (ap (λ v. lookup cookie_session v.cookies) (sym env) ∙ found)
                            (ap (csrf_passes services r) (sym here)
                              ∙ csrf_passes-env services r r' u env passes)
                            known),
                    )
            ]
          ]
    ]

pub token-Attempt :
    (services : Services) (w : World) (r r' : Request) (t : SessionStore)
    → r'.env ≡ r.env
    → Follows services.now w.store t
    → t.auth_methods_config.session_token ≡ true
    → starts_with auth_token r'.env.authorization ≡ true
    → Attempt services w r (perform_token_auth services r'.env.authorization t)
unfolding Attempt perform_token_auth
token-Attempt services w r r' t env f enabled starts =
    let token = drop (length auth_token) r'.env.authorization in
    (
      login-Follows services.now token w.store t f,
      (λ u logged.
          by_token token (ap (λ c. c.session_token) (sym f.config) ∙ enabled)
            (ap (λ v. v.authorization) (sym env)
              ∙ starts_with-drop auth_token r'.env.authorization starts)
            (login-Known services.now token w.store t u f logged)),
    )
