-- ===== src/Session/Tokens.antt =====
-- Sessions that the server hands out (src/service/session.cpp, `generateUserSession`).
use native.Mathlib.Nat.{add-zero, zero-add}
use obmc_yadro_webapp.Prelude.{
  ℕ, zero, suc, ◌+◌, ◌*◌, ◌<◌, ◌≡◌, refl, ap, ◌∙◌, inl, inr, Bool, true, false, ◌&&◌, Option, none,
  some, [], ◌∷◌, arith, text_eq, beq_refl, nat_eq, All, length, get_elem?, Option-cases, lookup,
  emplace, lookup-emplace,
}
use obmc_yadro_webapp.Prelude.Text.{Text}
use obmc_yadro_webapp.Prelude.Int.{pos}
use obmc_yadro_webapp.Utils.{isalnum}
use obmc_yadro_webapp.Session.Types.{UserSession, World, PersistenceType, ConfigFileStorageType}
use obmc_yadro_webapp.Session.Store.{
  Draws, second, is_expired, alphanum, alphanum_at, random_text, random_texts,
  generate_user_session, new_session, store_auth_token, login_session_by_token,
}
use obmc_yadro_webapp.Session.Step.{IsWellFormed, Step-IsWellFormed, generates, store-commit}
use obmc_yadro_webapp.Session.Expiry.{login_complete}

all_isalnum : Text → Bool
all_isalnum [] = true
all_isalnum (c ∷ s) = isalnum c && all_isalnum s

get_elem?-isalnum :
    (s : Text) (i c : ℕ) → all_isalnum s ≡ true → get_elem? s i ≡ some c → isalnum c ≡ true
unfolding all_isalnum
get_elem?-isalnum [] i c h e = cc
get_elem?-isalnum (d ∷ s) zero c h e = ground arith
get_elem?-isalnum (d ∷ s) (suc i) c h e = get_elem?-isalnum s i c (ground arith) e

alphanum-all_isalnum : all_isalnum alphanum ≡ true
unfolding all_isalnum alphanum isalnum
alphanum-all_isalnum = refl

alphanum_at-isalnum : (i : ℕ) → isalnum (alphanum_at i) ≡ true
unfolding alphanum_at
alphanum_at-isalnum i = elim (Option-cases (get_elem? alphanum i)) [
  | inl e ↦ rw e (unfold isalnum in refl)
  | inr (c, e) ↦ rw e (get_elem?-isalnum alphanum i c alphanum-all_isalnum e)
]

-- The text of a successful draw: its size, and that it holds letters and digits only.
abbrev pub IsToken : ℕ → Text → Type 0
IsToken size s = (length s ≡ size) × All (λ c. isalnum c ≡ true) s

random_text-IsToken :
    (draws : Draws) (first size : ℕ) (s : Text)
    → random_text draws first size ≡ some s
    → IsToken size s
unfolding random_text
random_text-IsToken draws first zero s e = ground arith
random_text-IsToken draws first (suc size) s e =
    elim (Option-cases (random_text draws (suc first) size)) [
      | inl missing ↦ absurd (ground arith)
      | inr (rest, found) ↦
          let (same, all) = random_text-IsToken draws (suc first) size rest found in
          let eq : s ≡ alphanum_at (draws first).0 ∷ rest = ground arith in
          rw eq (ap suc same, (alphanum_at-isalnum (draws first).0, all))
    ]

-- No draw of the range has failed.
abbrev pub AllDrawn : Draws → ℕ → ℕ → Type 0
AllDrawn draws first size = (i : ℕ) → i < size → (draws (first + i)).1 ≡ false

random_text_total :
    (draws : Draws) (first size : ℕ)
    → AllDrawn draws first size
    → (s : Text) × (random_text draws first size ≡ some s)
unfolding random_text
random_text_total draws first zero h = ([], refl)
random_text_total draws first (suc size) h =
    let now : (draws first).1 ≡ false = rw add-zero at (h 0 (omega arith)) in
    let (s, e) =
      random_text_total draws (suc first) size
        (λ i l. rw (shift first i) (h (suc i) (omega arith))) in
    (alphanum_at (draws first).0 ∷ s, ground arith)
  where
    shift : (a i : ℕ) → suc a + i ≡ a + suc i
    shift a i = omega arith

random_texts-IsToken :
    (draws : Draws) (token csrf uid : Text)
    → random_texts draws ≡ some (token, csrf, uid)
    → IsToken 20 token × IsToken 20 csrf × IsToken 10 uid
unfolding random_texts
random_texts-IsToken draws token csrf uid e = ground (
  arith,
  random_text-IsToken draws 0 20 token,
  random_text-IsToken draws 20 20 csrf,
  random_text-IsToken draws 40 10 uid,
)

random_texts_total :
    (draws : Draws)
    → AllDrawn draws 0 50
    → (token csrf uid : Text) × (random_texts draws ≡ some (token, csrf, uid))
unfolding random_texts
random_texts_total draws h =
    let (token, d) = random_text_total draws 0 20 (λ i l. h i (omega arith)) in
    let (csrf, e) =
      random_text_total draws 20 20 (λ i l. rw zero-add at (h (20 + i) (omega arith))) in
    let (uid, f) =
      random_text_total draws 40 10 (λ i l. rw zero-add at (h (40 + i) (omega arith))) in
    (token, csrf, uid, ground arith)

-- The dictionary holds at the token what the call returns.
store_auth_token_lem :
    (token : Text) (session : UserSession) (w : World)
    → (s : UserSession) × ((store_auth_token token session w).1 ≡ some s)
      × (lookup token (store_auth_token token session w).0.store.auth_tokens ≡ some s)
      × (lookup token w.store.auth_tokens ≡ none → s ≡ session)
unfolding store_auth_token
store_auth_token_lem token session w =
    let law = lookup-emplace token token session w.store.auth_tokens in
    elim (Option-cases (lookup token w.store.auth_tokens)) [
      | inl free ↦
          let found : lookup token (emplace token session w.store.auth_tokens) ≡ some session =
            ground (arith, law, beq_refl token) in
          (session, found, rw store-commit found, (λ e. refl))
      | inr (old, taken) ↦
          let found : lookup token (emplace token session w.store.auth_tokens) ≡ some old =
            ground (arith, law) in
          (old, found, rw store-commit found, (λ e. absurd (ground arith)))
    ]

timeout-store_auth_token :
    (token : Text) (session : UserSession) (w : World)
    → (store_auth_token token session w).0.store.timeout_in_seconds ≡ w.store.timeout_in_seconds
unfolding store_auth_token
timeout-store_auth_token token session w = rw store-commit

module _ (draws : Draws) (now : ℕ) (username : Text) (persistence : PersistenceType)
    (self_only : Bool) (client_id client_ip : Text) (storage_type : ConfigFileStorageType)
    (w : World) where
  -- The call under study.
  abbrev pub Generated : World × Option UserSession
  Generated =
      generate_user_session draws now username persistence self_only client_id client_ip
        storage_type w

  made : Text → Text → Text → UserSession
  made = new_session username persistence self_only client_id client_ip storage_type now

  generated :
      (token csrf uid : Text)
      → random_texts draws ≡ some (token, csrf, uid)
      → Generated ≡ store_auth_token token (made token csrf uid) w
  unfolding generate_user_session made
  generated token csrf uid drawn = rw (drawn, generate_user_session)

  -- As long as none of the fifty draws fails, a session is returned, and it is in the store under
  -- a token of twenty letters and digits.
  pub generate_total :
      AllDrawn draws 0 50
      → (session : UserSession) × (token : Text) × (Generated.1 ≡ some session)
        × (lookup token Generated.0.store.auth_tokens ≡ some session)
        × IsToken 20 token
  generate_total h =
      let (token, csrf, uid, drawn) = random_texts_total draws h in
      let (s, e, found, own) = store_auth_token_lem token (made token csrf uid) w in
      let call = generated token csrf uid drawn in
      (s, token, rw call e, rw call found, (random_texts-IsToken draws token csrf uid drawn).0)

  -- A token that is not yet in use in a well-formed store names the new session: it belongs to the given user and address,
  -- its token, CSRF token and identifier are letters and digits, 20, 20 and 10 of them, and the
  -- token logs in until the timeout has passed.
  pub generate-login :
      (token csrf uid : Text) (later seconds : ℕ)
      → IsWellFormed w.store
      → random_texts draws ≡ some (token, csrf, uid)
      → lookup token w.store.auth_tokens ≡ none
      → w.store.timeout_in_seconds ≡ pos seconds
      → later < now + seconds * second
      → ((login_session_by_token later token Generated.0.store).1
          ≡ some (
              new_session username persistence self_only client_id client_ip storage_type later
                token csrf uid))
        × IsToken 20 token
        × IsToken 20 csrf
        × IsToken 10 uid
  unfolding new_session is_expired made
  generate-login token csrf uid later seconds v drawn free limit soon =
      let (s, e, found, own) = store_auth_token_lem token (made token csrf uid) w in
      let call = generated token csrf uid drawn in
      let kept : IsWellFormed Generated.0.store =
        Step-IsWellFormed
          (generates w draws now username persistence self_only client_id client_ip storage_type)
          v in
      let good = random_texts-IsToken draws token csrf uid drawn in
      let as_set : (store_auth_token token (made token csrf uid) w).0.store.timeout_in_seconds
          ≡ pos seconds =
        timeout-store_auth_token token (made token csrf uid) w ∙ limit in
      (
        rw call (
            login_complete later token _ (made token csrf uid) (rw call at kept) good.0.0
              (rw (own free) at found) (rw (as_set, is_expired) (ground arith))),
        good.0,
        good.1,
        good.2,
      )
