-- ===== src/Session/Expiry.antt =====
-- Which tokens log in, and until when (src/service/session.cpp, `loginSessionByToken`).
use obmc_yadro_webapp.Prelude.{
  ℕ, ◌+◌, ◌*◌, ◌<◌, ◌≡◌, ◌∙◌, inl, inr, false, ◌&&◌, ◌↔◌, none, some, arith, ltb, text_eq, beq_refl,
  nat_eq, length, Bool-cases, Option-cases, lookup, lookup-insert_or_assign, lookup-erase,
}
use obmc_yadro_webapp.Prelude.Text.{Text}
use obmc_yadro_webapp.Prelude.Int.{pos}
use obmc_yadro_webapp.Session.Types.{UserSession, SessionStore, World}
use obmc_yadro_webapp.Session.Store.{
  second, is_expired, apply_session_timeouts, use_token, login_session_by_token, remove_session,
}
use obmc_yadro_webapp.Session.Step.{
  Step-IsWellFormed, removes, use_token-IsWellFormed, IsWellFormed,
  apply_session_timeouts-IsWellFormed, store-commit, lookup-keyed,
}
use obmc_yadro_webapp.Session.Sweep.{IsDue, lookup-apply_session_timeouts}

-- The session that a successful sweep hands over was in the store before.
pub lookup_of_swept :
    (now : ℕ) (token : Text) (s : SessionStore) (u : UserSession)
    → IsWellFormed s
    → lookup token (apply_session_timeouts now s).auth_tokens ≡ some u
    → (lookup token s.auth_tokens ≡ some u)
      × (IsDue now s → is_expired now s.timeout_in_seconds u ≡ false)
lookup_of_swept now token s u v e =
    let (due, early) = lookup-apply_session_timeouts now token s v in
    elim (Bool-cases (ltb (s.last_timeout_update + second) now)) [
      | inl d ↦
          let (swept, at) = due (ground arith) in
          elim (Option-cases (lookup token s.auth_tokens)) [
            | inl missing ↦ ground arith
            | inr (old, found) ↦ ground arith
          ]
      | inr n ↦
          let same : apply_session_timeouts now s ≡ s = early (ground arith) in
          (rw same at e, (λ d. ground arith))
    ]

use_token-some :
    (now : ℕ) (token : Text) (s : SessionStore) (old : UserSession)
    → length token ≡ 20
    → lookup token s.auth_tokens ≡ some old
    → (use_token now token s).1 ≡ some (record old { last_updated = now })
unfolding use_token
use_token-some now token s old size found = ground arith

use_token_sound :
    (now : ℕ) (token : Text) (s : SessionStore) (u : UserSession)
    → (use_token now token s).1 ≡ some u
    → (length token ≡ 20)
      × ((old : UserSession) × (lookup token s.auth_tokens ≡ some old)
          × (u ≡ record old { last_updated = now }))
unfolding use_token
use_token_sound now token s u e = elim (Option-cases (lookup token s.auth_tokens)) [
  | inl missing ↦ ground arith
  | inr (old, found) ↦ (ground arith, (old, found, ground arith))
]

-- A token that logs in has twenty characters and names a session of the store that stands under
-- it. The session's time of use becomes now; nothing else of it changes. If a sweep was due, the
-- session had not expired.
pub login_sound :
    (now : ℕ) (token : Text) (s : SessionStore) (u : UserSession)
    → IsWellFormed s
    → (login_session_by_token now token s).1 ≡ some u
    → (length token ≡ 20)
      × ((old : UserSession) × (lookup token s.auth_tokens ≡ some old)
          × (u ≡ record old { last_updated = now })
          × (token ≡ old.session_token)
          × (IsDue now s → is_expired now s.timeout_in_seconds old ≡ false))
unfolding login_session_by_token
login_sound now token s u v e =
    let (size, used) = use_token_sound now token (apply_session_timeouts now s) u e in
    let (old, found, same) = used in
    let (before, live) = lookup_of_swept now token s old v found in
    (size, (old, before, same, lookup-keyed token old s.auth_tokens v.keyed before, live))

lookup_of_live :
    (now : ℕ) (token : Text) (s : SessionStore) (u : UserSession)
    → IsWellFormed s
    → lookup token s.auth_tokens ≡ some u
    → is_expired now s.timeout_in_seconds u ≡ false
    → lookup token (apply_session_timeouts now s).auth_tokens ≡ some u
lookup_of_live now token s u v found live =
    let (due, early) = lookup-apply_session_timeouts now token s v in
    elim (Bool-cases (ltb (s.last_timeout_update + second) now)) [
      | inl d ↦ let (swept, at) = due (ground arith) in ground arith
      | inr n ↦ let same : apply_session_timeouts now s ≡ s = early (ground arith) in rw same found
    ]

lookup_of_kept :
    (now : ℕ) (token : Text) (s : SessionStore) (u : UserSession)
    → IsWellFormed s
    → lookup token s.auth_tokens ≡ some u
    → (ltb (s.last_timeout_update + second) now && is_expired now s.timeout_in_seconds u) ≡ false
    → lookup token (apply_session_timeouts now s).auth_tokens ≡ some u
lookup_of_kept now token s u v found live =
    let (due, early) = lookup-apply_session_timeouts now token s v in
    elim (Bool-cases (ltb (s.last_timeout_update + second) now)) [
      | inl d ↦ let (swept, at) = due (ground arith) in ground arith
      | inr n ↦ let same : apply_session_timeouts now s ≡ s = early (ground arith) in rw same found
    ]

-- A token of twenty characters whose session has not expired logs in.
pub login_complete :
    (now : ℕ) (token : Text) (s : SessionStore) (old : UserSession)
    → IsWellFormed s
    → length token ≡ 20
    → lookup token s.auth_tokens ≡ some old
    → is_expired now s.timeout_in_seconds old ≡ false
    → (login_session_by_token now token s).1 ≡ some (record old { last_updated = now })
unfolding login_session_by_token
login_complete now token s old v size found live =
    use_token-some now token _ old size (lookup_of_live now token s old v found live)

-- In a well-formed store a token logs in exactly if it has twenty characters and names a session
-- that a due sweep does not find expired. The session's time of use becomes now; nothing else of it changes.
pub login_iff :
    (now : ℕ) (token : Text) (s : SessionStore) (u : UserSession)
    → IsWellFormed s
    → ((login_session_by_token now token s).1 ≡ some u) ↔ (
        (length token ≡ 20)
        × ((old : UserSession) × (lookup token s.auth_tokens ≡ some old)
            × (u ≡ record old { last_updated = now })
            × ((ltb (s.last_timeout_update + second) now && is_expired now s.timeout_in_seconds old)
                ≡ false)))
unfolding login_session_by_token
login_iff now token s u v = (
  (λ e.
      let (size, known) = login_sound now token s u v e in
      let (old, before, same, keyed, live) = known in
      (size, (old, before, same, ground (arith, live)))),
  (λ h.
      let (size, known) = h in
      let (old, found, same, live) = known in
      rw same (use_token-some now token _ old size (lookup_of_kept now token s old v found live))),
)

lookup-use_token :
    (now : ℕ) (token : Text) (s : SessionStore) (u : UserSession)
    → (use_token now token s).1 ≡ some u
    → (lookup token (use_token now token s).0.auth_tokens ≡ some u)
      × ((use_token now token s).0.timeout_in_seconds ≡ s.timeout_in_seconds)
unfolding use_token
lookup-use_token now token s u e = elim (Option-cases (lookup token s.auth_tokens)) [
  | inl missing ↦ absurd (ground arith)
  | inr (old, found) ↦ ground (
    arith,
    beq_refl token,
    lookup-insert_or_assign token token (record old { last_updated = now }) s.auth_tokens,
  )
]

timeout-apply_session_timeouts :
    (now : ℕ) (s : SessionStore)
    → (apply_session_timeouts now s).timeout_in_seconds ≡ s.timeout_in_seconds
unfolding apply_session_timeouts
timeout-apply_session_timeouts now s = ground arith

-- In a well-formed store each login restarts the session's idle timer: after a login at `now` the same token logs in
-- again at any later time before `now` plus the timeout.
pub login_again :
    (now later seconds : ℕ) (token : Text) (s : SessionStore) (u : UserSession)
    → IsWellFormed s
    → s.timeout_in_seconds ≡ pos seconds
    → (login_session_by_token now token s).1 ≡ some u
    → later < now + seconds * second
    → (login_session_by_token later token (login_session_by_token now token s).0).1
      ≡ some (record u { last_updated = later })
unfolding login_session_by_token is_expired
login_again now later seconds token s u v timeout e soon =
    let swept = apply_session_timeouts now s in
    let (size, used) = use_token_sound now token swept u e in
    let (old, found, same) = used in
    let (kept, as_set) = lookup-use_token now token swept u e in
    let limit : (use_token now token swept).0.timeout_in_seconds ≡ pos seconds =
      as_set ∙ timeout-apply_session_timeouts now s ∙ timeout in
    login_complete later token (use_token now token swept).0 u
      (use_token-IsWellFormed now token swept (apply_session_timeouts-IsWellFormed now v)) size kept
      (rw (limit, is_expired, same) (ground arith))

lookup-remove_session :
    (session : UserSession) (w : World)
    → IsWellFormed w.store
    → lookup session.session_token (remove_session session w).store.auth_tokens ≡ none
unfolding remove_session
lookup-remove_session session w v = rw store-commit (
    ground (
      arith,
      beq_refl session.session_token,
      lookup-erase session.session_token session.session_token w.store.auth_tokens v.dict,
    ))

-- In a well-formed store a removed session's token no longer logs in.
pub login-remove_session :
    (now : ℕ) (session : UserSession) (w : World)
    → IsWellFormed w.store
    → (login_session_by_token now session.session_token (remove_session session w).store).1 ≡ none
login-remove_session now session w v =
    elim (Option-cases
      (login_session_by_token now session.session_token (remove_session session w).store).1) [
        | inl e ↦ e
        | inr (u, e) ↦
            let (size, known) =
              login_sound now session.session_token _ u (Step-IsWellFormed (removes w session) v)
                e in
            let (old, found, same, keyed, live) = known in
            absurd (ground (arith, lookup-remove_session session w v))
      ]
