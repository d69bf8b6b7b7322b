-- ===== src/Authorization/Sound.antt =====
-- A request that is granted has shown evidence (src/service/authorization.hpp, `authenticate`).
use obmc_yadro_webapp.Prelude.{
  ℕ, ◌≡◌, refl, sym, ap, ◌∙◌, ◌⊎◌, inl, inr, true, false, not, ◌&&◌, Option, none, some, arith,
  nat_eq, text_eq, Bool-cases, Option-cases,
}
use obmc_yadro_webapp.Prelude.Text.{is_empty, starts_with}
use obmc_yadro_webapp.Session.Types.{UserSession, SessionStore, World}
use obmc_yadro_webapp.Session.Step.{IsWellFormed}
use obmc_yadro_webapp.Request.{Request, set_session, is_session_empty}
use obmc_yadro_webapp.Response.{Response}
use obmc_yadro_webapp.Authorization.{
  Services, PamCode, pam_success, pam_new_authtok_reqd, pam_failure, auth_token, auth_basic,
  credentials, is_on_whitelist, perform_basic_auth, try_xtoken, try_cookie, try_authorization,
  attempts, authenticate,
}
use obmc_yadro_webapp.Authorization.Evidence.{Follows, Follows-refl, Evidence, by_basic}
use obmc_yadro_webapp.Authorization.Attempts.{
  Attempt, xtoken-Attempt, cookie-Attempt, token-Attempt,
}

-- Where the attempts have come to, from the world `w` and the request `r`.
record Progress (services : Services) (w : World) (r : Request) (a : World × Request) : Type 0 where
  env : a.1.env ≡ r.env
  follows : Follows services.now w.store a.0.store
  outcome :
      (a.1.user_session ≡ none)
      ⊎ ((u : UserSession) × (a.1.user_session ≡ some u) × Evidence services w r u)

new_session-Progress :
    (services : Services) (w : World) (r : Request) (a : World × Request)
    (o : SessionStore × Option UserSession)
    → Progress services w r a
    → Attempt services w r o
    → Progress services w r (record a.0 { store = o.0 }, set_session o.1 a.1)
unfolding Attempt set_session
new_session-Progress services w r a (s, none) p (f, g) = record {
  env = p.env;
  follows = f;
  outcome = inl refl;
}
new_session-Progress services w r a (s, some u) p (f, g) = record {
  env = p.env;
  follows = f;
  outcome = inr (u, refl, g u refl);
}

xtoken-Progress :
    (services : Services) (w : World) (r : Request) (a : World × Request)
    → Progress services w r a
    → Progress services w r (try_xtoken services a)
unfolding try_xtoken
xtoken-Progress services w r (w', r') p =
    elim (Bool-cases (is_session_empty r' && w'.store.auth_methods_config.xtoken)) [
      | inr off ↦ rw off p
      | inl on ↦ rw on (
          new_session-Progress services w r (w', r') _ p
            (xtoken-Attempt services w r r' w'.store p.env p.follows (ground arith)))
    ]

cookie-Progress :
    (services : Services) (w : World) (r : Request) (a : World × Request)
    → Progress services w r a
    → Progress services w r (try_cookie services a)
unfolding try_cookie
cookie-Progress services w r (w', r') p =
    elim (Bool-cases (is_session_empty r' && w'.store.auth_methods_config.cookie)) [
      | inr off ↦ rw off p
      | inl on ↦ rw on (
          new_session-Progress services w r (w', r') _ p
            (cookie-Attempt services w r r' w'.store p.env p.follows (ground arith)))
    ]

pub PamCode-cases :
    (c : PamCode)
    → ((c ≡ pam_success) ⊎ (c ≡ pam_new_authtok_reqd)) ⊎ ((code : ℕ) × (c ≡ pam_failure code))
PamCode-cases pam_success = inl (inl refl)
PamCode-cases pam_new_authtok_reqd = inl (inr refl)
PamCode-cases (pam_failure code) = inr (code, refl)

basic-Evidence :
    (services : Services) (w w' : World) (r r' : Request) (u : UserSession)
    → r'.env ≡ r.env
    → Follows services.now w.store w'.store
    → w'.store.auth_methods_config.basic ≡ true
    → starts_with auth_basic r'.env.authorization ≡ true
    → (perform_basic_auth services r' w').1 ≡ some u
    → Evidence services w r u
unfolding perform_basic_auth
basic-Evidence services w w' r r' u env f enabled starts e =
    let allowed = ap (λ c. c.basic) (sym f.config) ∙ enabled in
    let header : r'.env.authorization ≡ r.env.authorization = ap (λ v. v.authorization) env in
    elim (Option-cases (credentials services r'.env.authorization)) [
      | inl missing ↦ absurd (ground arith)
      | inr ((user, pass), found) ↦
          elim (PamCode-cases (services.pam_authenticate_user user pass)) [
            | inl accepted ↦
                by_basic user pass allowed (rw (sym header) starts) (rw (sym header) found) accepted
            | inr (code, refused) ↦
                let nothing : (perform_basic_auth services r' w').1 ≡ none =
                  rw (found, refused, perform_basic_auth) refl in
                absurd (ground arith)
          ]
    ]

-- What the last attempt leaves.
Outcome : Services → World → Request → World × Request → Type 0
Outcome services w r a =
    (a.1.user_session ≡ none)
    ⊎ ((u : UserSession) × (a.1.user_session ≡ some u) × Evidence services w r u)

try_authorization-Outcome :
    (services : Services) (w : World) (r : Request) (a : World × Request)
    → Progress services w r a
    → Outcome services w r (try_authorization services a)
unfolding Outcome try_authorization set_session
try_authorization-Outcome services w r (w', r') p =
    elim (Bool-cases (is_session_empty r' && not (is_empty r'.env.authorization))) [
      | inr off ↦ rw off p.outcome
      | inl on ↦
          elim (Bool-cases (
            starts_with auth_token r'.env.authorization
            && w'.store.auth_methods_config.session_token)) [
              | inl token ↦
                  let q =
                    new_session-Progress services w r (w', r') _ p
                      (token-Attempt services w r r' w'.store p.env p.follows (ground arith)
                        (ground arith)) in
                  rw (on, token) q.outcome
              | inr other ↦
                  elim (Bool-cases (
                    starts_with auth_basic r'.env.authorization
                    && w'.store.auth_methods_config.basic)) [
                      | inr neither ↦ rw (on, other, neither) p.outcome
                      | inl basic ↦ elim (Option-cases (perform_basic_auth services r' w').1) [
                        | inl failed ↦ rw (on, other, basic) (inl failed)
                        | inr (u, granted) ↦
                            rw (on, other, basic)
                              (inr (
                                u,
                                granted,
                                basic-Evidence services w w' r r' u p.env p.follows (ground arith)
                                    (ground arith) granted,
                              ))
                      ]
                    ]
            ]
    ]

attempts-Outcome :
    (services : Services) (w : World) (r : Request)
    → IsWellFormed w.store
    → r.user_session ≡ none
    → Outcome services w r (attempts services (w, r))
unfolding attempts
attempts-Outcome services w r v fresh =
    let start : Progress services w r (w, r) = record {
      env = refl;
      follows = Follows-refl services.now w.store v;
      outcome = inl fresh;
    } in
    try_authorization-Outcome services w r _
      (cookie-Progress services w r _ (xtoken-Progress services w r _ start))

-- In a well-formed store, a request without a session that is granted, other than by the whitelist, has a session
-- afterwards and has shown evidence for it: a token or a cookie of a session of the store, or
-- credentials that PAM accepts, by a method that is enabled.
pub authenticate_sound :
    (services : Services) (w : World) (r : Request) (response : Response)
    → IsWellFormed w.store
    → r.user_session ≡ none
    → is_on_whitelist r ≡ false
    → (authenticate services w r response).granted ≡ true
    → (u : UserSession) × ((authenticate services w r response).request.user_session ≡ some u)
      × Evidence services w r u
unfolding authenticate Outcome is_session_empty
authenticate_sound services w r response v fresh listed granted =
    elim (attempts-Outcome services w r v fresh) [
      | inl denied ↦ absurd (ground arith)
      | inr (u, shown, evidence) ↦ (u, ground arith, evidence)
    ]
