-- ===== src/Session/Sweep.antt =====
-- Which sessions a sweep keeps (src/service/session.cpp, `applySessionTimeouts`).
use obmc_yadro_webapp.Prelude.{
  ℕ, ◌+◌, ◌*◌, ◌≤◌, ◌<◌, ◌≡◌, refl, ◌∙◌, inl, inr, false, not, ◌↔◌, ◌⊎◌, Option, none, some, arith,
  ltb, lt→ltb, if◌then◌else◌, text_eq, nat_eq, Bool-cases, lookup, lookup-keep,
}
use obmc_yadro_webapp.Prelude.Text.{Text}
use obmc_yadro_webapp.Prelude.Int.{ℤ, pos, negsuc}
use mathlib.Core.Path.{subst, sym}
use obmc_yadro_webapp.Session.Types.{UserSession, SessionStore}
use obmc_yadro_webapp.Session.Store.{second, is_expired, apply_session_timeouts}
use obmc_yadro_webapp.Session.Step.{IsWellFormed}

-- A sweep is due more than a second after the last one.
abbrev pub IsDue : ℕ → SessionStore → Type 0
IsDue now s = s.last_timeout_update + second < now

-- A sweep that is due keeps exactly the sessions that have not expired, and notes its time; one
-- that is not due changes nothing.
pub lookup-apply_session_timeouts :
    (now : ℕ) (token : Text) (s : SessionStore)
    → IsWellFormed s
    → (IsDue now s
        → (lookup token (apply_session_timeouts now s).auth_tokens
            ≡ elim (lookup token s.auth_tokens) [
              | none ↦ none
              | some u ↦ if not (is_expired now s.timeout_in_seconds u) then some u else none
            ])
          × ((apply_session_timeouts now s).last_timeout_update ≡ now))
      × (now ≤ s.last_timeout_update + second → apply_session_timeouts now s ≡ s)
unfolding apply_session_timeouts
lookup-apply_session_timeouts now token s v = (
  (λ due. rw (lt→ltb (s.last_timeout_update + second) now due) (
    lookup-keep (λ u. not (is_expired now s.timeout_in_seconds u)) token s.auth_tokens v.dict,
    refl,
  )),
  (λ early. ground arith),
)

-- A session is in time while less than the timeout has passed since its last use. A timeout of
-- -(n + 1) seconds lies before that.
unfoldable pub IsInTime : ℕ → ℤ → UserSession → Type 0
IsInTime now (pos seconds) u = now < u.last_updated + seconds * second
IsInTime now (negsuc n) u = now + (n + 1) * second < u.last_updated

is_expired_iff :
    (now : ℕ) (limit : ℤ) (u : UserSession)
    → (is_expired now limit u ≡ false) ↔ IsInTime now limit u
unfolding is_expired IsInTime
is_expired_iff now (pos seconds) u = ground arith
is_expired_iff now (negsuc n) u = ground arith

-- What a sweep leaves under a token, of a store that it sweeps or leaves alone.
pub Swept : ℕ → Text → UserSession → SessionStore → SessionStore → Type 0
Swept now token u s after =
    (IsDue now s
      × (after.last_timeout_update ≡ now)
      × ((lookup token after.auth_tokens ≡ some u)
          ↔ ((lookup token s.auth_tokens ≡ some u) × IsInTime now s.timeout_in_seconds u)))
    ⊎ ((now ≤ s.last_timeout_update + second) × (after ≡ s))

kept_iff :
    (now : ℕ) (limit : ℤ) (u : UserSession) (listed : Option UserSession)
    → (elim listed as (λ o. Option UserSession) [
      | none ↦ none
      | some old ↦ if not (is_expired now limit old) then some old else none
    ]
        ≡ some u)
      ↔ ((listed ≡ some u) × IsInTime now limit u)
kept_iff now limit u none = (λ e. absurd (ground arith), λ h. absurd (ground arith))
kept_iff now limit u (some old) = (
  λ e. elim (Bool-cases (is_expired now limit old)) [
    | inl gone ↦ absurd (ground arith)
    | inr live ↦
        let same : some old ≡ some u = rw live at e in
        (same, subst (IsInTime now limit) (ground arith) ((is_expired_iff now limit old).0 live))
  ],
  λ h.
      let live : is_expired now limit old ≡ false =
        (is_expired_iff now limit old).1 (subst (IsInTime now limit) (ground arith) h.1) in
      rw live h.0,
)

sweep_again :
    (now : ℕ) (s : SessionStore)
    → apply_session_timeouts now (apply_session_timeouts now s) ≡ apply_session_timeouts now s
unfolding apply_session_timeouts
sweep_again now s = elim (Bool-cases (ltb (s.last_timeout_update + second) now)) [
  | inl due ↦ rw due (ground arith)
  | inr early ↦ rw early (rw early refl)
]

-- In a well-formed store a sweep that is due, more than a second after the last, keeps exactly the
-- sessions that are in time and notes its own time; one that is not due changes nothing. A sweep at
-- the same time again changes nothing more.
pub apply_session_timeouts_lem :
    (now : ℕ) (token : Text) (u : UserSession) (s : SessionStore)
    → IsWellFormed s
    → Swept now token u s (apply_session_timeouts now s)
      × (apply_session_timeouts now (apply_session_timeouts now s) ≡ apply_session_timeouts now s)
unfolding Swept
apply_session_timeouts_lem now token u s v =
    let swept = lookup-apply_session_timeouts now token s v in
    (
      elim (Bool-cases (ltb (s.last_timeout_update + second) now)) [
        | inl due ↦
            let after = swept.0 (ground arith) in
            let kept = kept_iff now s.timeout_in_seconds u (lookup token s.auth_tokens) in
            inl (ground arith, after.1, (λ e. kept.0 (sym after.0 ∙ e), λ h. after.0 ∙ kept.1 h))
        | inr early ↦ inr (ground arith, swept.1 (ground arith))
      ],
      sweep_again now s,
    )
