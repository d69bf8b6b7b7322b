-- ===== src/Authorization/Evidence.antt =====
-- What a login proves about the token that was presented, also after other attempts
-- (src/service/authorization.hpp and src/service/session.cpp).
use obmc_yadro_webapp.Prelude.{
  ℕ, ◌≡◌, refl, ap, ◌∙◌, ◌⊎◌, inl, inr, true, some, ◌++◌, arith, length, ◌==◌, text_eq,
  text_beq_iff, nat_eq, lookup, lookup-insert_or_assign, Bool-cases, Option-cases,
}
use obmc_yadro_webapp.Prelude.Text.{Text, starts_with}
use obmc_yadro_webapp.Session.Types.{UserSession, SessionStore, World}
use obmc_yadro_webapp.Session.Store.{login_session_by_token, use_token, apply_session_timeouts}
use obmc_yadro_webapp.Session.Step.{
  IsWellFormed, use_token-IsWellFormed, apply_session_timeouts-IsWellFormed,
}
use obmc_yadro_webapp.Session.Expiry.{login_sound, lookup_of_swept}
use obmc_yadro_webapp.Request.{Request}
use obmc_yadro_webapp.Authorization.{
  Services, pam_success, pam_new_authtok_reqd, x_auth_token, cookie_session, auth_token, auth_basic,
  csrf_passes, credentials,
}

-- The session with the time of its use set.
abbrev pub used_at : ℕ → UserSession → UserSession
used_at now u = record u { last_updated = now }

-- The token has twenty characters and names a session of the store, which `u` is but for its time.
pub Known : ℕ → SessionStore → Text → UserSession → Type 0
Known now s token u =
    (length token ≡ 20)
    × ((old : UserSession) × (lookup token s.auth_tokens ≡ some old) × (u ≡ used_at now old))

-- Each session of the second store stands in the first under the same token, but for its time.
pub Kept : ℕ → SessionStore → SessionStore → Type 0
Kept now s t =
    (token : Text) (u : UserSession)
    → lookup token t.auth_tokens ≡ some u
    → (old : UserSession) × (lookup token s.auth_tokens ≡ some old)
      × (used_at now u ≡ used_at now old)

use_token-Kept : (now : ℕ) (token : Text) (s : SessionStore) → Kept now s (use_token now token s).0
unfolding Kept use_token
use_token-Kept now token s key u e = elim (Option-cases (lookup token s.auth_tokens)) [
  | inl missing ↦ (u, ground arith, refl)
  | inr (old, found) ↦ elim (Bool-cases (token == key)) [
    | inl same ↦ elim (Bool-cases (length token == 20)) [
      | inl size ↦
          let assigned = lookup-insert_or_assign token key (used_at now old) s.auth_tokens in
          let here : u ≡ used_at now old = ground (arith, text_beq_iff token key, assigned) in
          (old, ground (arith, text_beq_iff token key), ap (used_at now) here)
      | inr size ↦ (u, ground arith, refl)
    ]
    | inr other ↦
        (u, ground (arith, lookup-insert_or_assign token key (used_at now old) s.auth_tokens), refl)
  ]
]

login-Kept :
    (now : ℕ) (token : Text) (s : SessionStore)
    → IsWellFormed s
    → Kept now s (login_session_by_token now token s).0
unfolding Kept login_session_by_token
login-Kept now token s v key u e =
    let (swept, found, same) = use_token-Kept now token (apply_session_timeouts now s) key u e in
    let (before, live) = lookup_of_swept now key s swept v found in (swept, before, same)

pub Kept-trans : (now : ℕ) (r s t : SessionStore) → Kept now r s → Kept now s t → Kept now r t
unfolding Kept
Kept-trans now r s t h k token u e =
    let (mid, found, same) = k token u e in
    let (old, first, before) = h token mid found in (old, first, same ∙ before)

config-apply_session_timeouts :
    (now : ℕ) (s : SessionStore)
    → (apply_session_timeouts now s).auth_methods_config ≡ s.auth_methods_config
unfolding apply_session_timeouts
config-apply_session_timeouts now s = ground arith

config-use_token :
    (now : ℕ) (token : Text) (s : SessionStore)
    → (use_token now token s).0.auth_methods_config ≡ s.auth_methods_config
unfolding use_token
config-use_token now token s = elim (Option-cases (lookup token s.auth_tokens)) [
  | inl missing ↦ ground arith
  | inr (old, found) ↦ ground arith
]

-- What holds of a store that logins have made of another.
pub record Follows (now : ℕ) (s t : SessionStore) : Type 0 where
  pub well_formed : IsWellFormed t
  pub config : t.auth_methods_config ≡ s.auth_methods_config
  pub kept : Kept now s t

pub Follows-refl : (now : ℕ) (s : SessionStore) → IsWellFormed s → Follows now s s
unfolding Kept
Follows-refl now s v = record { well_formed = v; config = refl; kept = λ token u e. (u, e, refl) }

pub login-Follows :
    (now : ℕ) (token : Text) (s t : SessionStore)
    → Follows now s t
    → Follows now s (login_session_by_token now token t).0
unfolding login_session_by_token
login-Follows now token s t f = record {
  well_formed =
      use_token-IsWellFormed now token _ (apply_session_timeouts-IsWellFormed now f.well_formed);
  config =
      config-use_token now token (apply_session_timeouts now t)
      ∙ config-apply_session_timeouts now t
      ∙ f.config;
  kept = Kept-trans now s t _ f.kept (login-Kept now token t f.well_formed);
}

-- A login after others is with a session of the first store.
pub login-Known :
    (now : ℕ) (token : Text) (s t : SessionStore) (u : UserSession)
    → Follows now s t
    → (login_session_by_token now token t).1 ≡ some u
    → Known now s token u
unfolding Known Kept
login-Known now token s t u f e =
    let (size, known) = login_sound now token t u f.well_formed e in
    let (mid, found, same, keyed, live) = known in
    let (old, first, before) = f.kept token mid found in (size, (old, first, same ∙ before))

-- Why a request may proceed with a session: the method is enabled, and the request carries a known
-- token (a cookie's also with the session's CSRF token) or credentials that PAM accepts.
pub data Evidence (services : Services) (w : World) (r : Request) (u : UserSession) : Type 0 where
  by_xtoken :
      (token : Text)
      → w.store.auth_methods_config.xtoken ≡ true
      → lookup x_auth_token r.env.others ≡ some token
      → Known services.now w.store token u
      → Evidence services w r u
  by_cookie :
      (token : Text)
      → w.store.auth_methods_config.cookie ≡ true
      → lookup cookie_session r.env.cookies ≡ some token
      → csrf_passes services r u ≡ true
      → Known services.now w.store token u
      → Evidence services w r u
  by_token :
      (token : Text)
      → w.store.auth_methods_config.session_token ≡ true
      → r.env.authorization ≡ auth_token ++ token
      → Known services.now w.store token u
      → Evidence services w r u
  by_basic :
      (user pass : Text)
      → w.store.auth_methods_config.basic ≡ true
      → starts_with auth_basic r.env.authorization ≡ true
      → credentials services r.env.authorization ≡ some (user, pass)
      → (services.pam_authenticate_user user pass ≡ pam_success)
        ⊎ (services.pam_authenticate_user user pass ≡ pam_new_authtok_reqd)
      → Evidence services w r u
