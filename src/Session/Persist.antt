-- ===== src/Session/Persist.antt =====
-- What survives a restart: the files that `commit` writes, read back by `readData`
-- (src/service/session.cpp).
use obmc_yadro_webapp.Prelude.{
  ℕ, ◌≡◌, refl, ap, ◌∙◌, inl, inr, false, Option, none, some, List, [], ◌∷◌, map, arith,
  if◌then◌else◌, ◌==◌, text_eq, text_beq, text_beq_iff, All, keep, Bool-cases, Option-cases, lookup,
  IsDict, lookup-emplace, lookup_of_IsAbsent, insert_or_assign,
}
use obmc_yadro_webapp.Prelude.Text.{Text, is_empty}
use obmc_yadro_webapp.Json.{Json, items, values, item_list-to_items}
use obmc_yadro_webapp.Session.Types.{
  UserSession, SessionStore, World, ConfigFileStorageType, config_long_term_storage,
  config_current_service_session, timeout,
}
use obmc_yadro_webapp.Session.FromJson.{session_from_json, auth_config_from_json}
use obmc_yadro_webapp.Session.Config.{session_to_json, is_stored, written}
use obmc_yadro_webapp.Session.Store.{restore}
use obmc_yadro_webapp.Session.Read.{restore_sessions, read_item, read_items}
use obmc_yadro_webapp.Session.Step.{IsWellFormed}

-- The four fields without which a session is not loaded.
abbrev pub IsComplete : UserSession → Type 0
IsComplete s =
    (is_empty s.unique_id ≡ false)
    × (is_empty s.username ≡ false)
    × (is_empty s.session_token ≡ false)
    × (is_empty s.csrf_token ≡ false)

-- What is left of a session after a restart: its names and tokens. The idle timer starts anew, and
-- the client's identifier and the restriction to one's own account are lost.
abbrev pub restored : ℕ → ConfigFileStorageType → UserSession → UserSession
restored now storage_type s = record {
  unique_id = s.unique_id;
  session_token = s.session_token;
  username = s.username;
  csrf_token = s.csrf_token;
  client_id = [];
  client_ip = s.client_ip;
  last_updated = now;
  persistence = timeout;
  cookie_auth = false;
  is_configure_self_only = false;
  storage_type = storage_type;
  obmc_session_id = [];
}

read_back :
    (now : ℕ) (s : UserSession)
    → IsComplete s
    → session_from_json now (session_to_json s)
      ≡ some (restored now config_current_service_session s)
unfolding session_from_json session_to_json items text_beq
read_back now s (a, b, c, d) = rw (a, b, c, d)

module _ (now : ℕ) (type : ConfigFileStorageType) (token : Text) where
  -- What the store holds at the token after loading: the loaded session, if nothing was there.
  abbrev pub loaded : Option UserSession → Option UserSession → Option UserSession
  loaded (some w) s = some w
  loaded none none = none
  loaded none (some s) = if is_stored type s then some (restored now type s) else none

  loaded-none : (o : Option UserSession) → o ≡ loaded o none
  loaded-none none = refl
  loaded-none (some w) = refl

  restore_sessions-nil :
      (acc : SessionStore)
      → lookup token (restore_sessions now type [] acc).auth_tokens
        ≡ loaded (lookup token acc.auth_tokens) none
  unfolding restore_sessions
  restore_sessions-nil acc = loaded-none (lookup token acc.auth_tokens)

  restore_sessions-cons :
      (s : UserSession) (elems : List Json) (acc : SessionStore)
      → IsComplete s
      → restore_sessions now type (session_to_json s ∷ elems) acc
        ≡ restore_sessions now type elems (restore (restored now type s) acc)
  unfolding restore_sessions
  restore_sessions-cons s elems acc c = rw (read_back now s c, restore_sessions)

  lookup-restore :
      (s : UserSession) (acc : SessionStore)
      → lookup token (restore (restored now type s) acc).auth_tokens
        ≡ elim (lookup token acc.auth_tokens) [
          | some w ↦ some w
          | none ↦ if s.session_token == token then some (restored now type s) else none
        ]
  unfolding restore
  lookup-restore s acc = lookup-emplace s.session_token token (restored now type s) acc.auth_tokens

  lookup-restore_sessions :
      (m : List (Text × UserSession)) (acc : SessionStore)
      → IsDict m
      → All (λ p. p.0 ≡ p.1.session_token) m
      → All (λ p. IsComplete p.1) m
      → lookup token
          (restore_sessions now type
            (map (λ p. session_to_json p.1) (keep (λ p. is_stored type p.1) m))
            acc).auth_tokens
        ≡ loaded (lookup token acc.auth_tokens) (lookup token m)
  unfolding lookup
  lookup-restore_sessions [] acc d k c = restore_sessions-nil acc
  lookup-restore_sessions ((j, s) ∷ m) acc d k c = elim (Bool-cases (is_stored type s)) [
    | inl stored ↦ rw stored (
        ap (λ (t : SessionStore). lookup token t.auth_tokens) (restore_sessions-cons s _ acc c.0)
        ∙ ground (
          arith,
          lookup-restore_sessions m (restore (restored now type s) acc) d.1 k.1 c.1,
          lookup-restore s acc,
          k.0,
          text_beq_iff j token,
          lookup_of_IsAbsent j m d.0,
        ))
    | inr skipped ↦ rw skipped (
        ground (
          arith,
          lookup-restore_sessions m acc d.1 k.1 c.1,
          text_beq_iff j token,
          lookup_of_IsAbsent j m d.0,
        ))
  ]

restore_sessions-config :
    (now : ℕ) (type : ConfigFileStorageType) (elems : List Json) (s : SessionStore)
    → ((restore_sessions now type elems s).auth_methods_config ≡ s.auth_methods_config)
      × ((restore_sessions now type elems s).timeout_in_seconds ≡ s.timeout_in_seconds)
unfolding restore_sessions restore
restore_sessions-config now type [] s = (refl, refl)
restore_sessions-config now type (elem ∷ elems) s =
    elim (Option-cases (session_from_json now elem)) [
      | inl e ↦ rw (e, restore_sessions) (restore_sessions-config now type elems s)
      | inr (session, e) ↦
          rw (e, restore_sessions)
            (restore_sessions-config now type elems
              (restore (record session { storage_type = type }) s))
    ]

-- The long-term file of a well-formed store whose sessions are all complete, read into a store with
-- no sessions, gives back the UUID, the authentication
-- methods and the timeout of the world that wrote it. It gives back every session that was
-- stored for the long term, in its restored form, and no other: none of those for a single request,
-- and none of another storage type.
pub read_items-written :
    (now : ℕ) (token : Text) (w fresh : World)
    → IsWellFormed w.store
    → All (λ p. IsComplete p.1) w.store.auth_tokens
    → fresh.store.auth_tokens ≡ []
    → let loaded_world =
        read_items now config_long_term_storage
          (items (written config_long_term_storage w))
          fresh in
      (loaded_world.system_uuid ≡ w.system_uuid)
      × (loaded_world.store.auth_methods_config ≡ w.store.auth_methods_config)
      × (loaded_world.store.timeout_in_seconds ≡ w.store.timeout_in_seconds)
      × (lookup token loaded_world.store.auth_tokens
          ≡ loaded now config_long_term_storage token none (lookup token w.store.auth_tokens))
unfolding read_items read_item written items values insert_or_assign lookup text_beq
    auth_config_from_json
read_items-written now token w fresh v c empty =
    let configured : SessionStore = record fresh.store {
      auth_methods_config = w.store.auth_methods_config;
      timeout_in_seconds = w.store.timeout_in_seconds;
    } in
    (
      refl,
      (restore_sessions-config now config_long_term_storage _ configured).0,
      (restore_sessions-config now config_long_term_storage _ configured).1,
      ap
            (λ (elems : List Json).
              lookup token
                (restore_sessions now config_long_term_storage elems configured).auth_tokens)
            (item_list-to_items _)
          ∙ lookup-restore_sessions now config_long_term_storage token w.store.auth_tokens
              configured v.dict v.keyed c
          ∙ ap
              (λ (m : List (Text × UserSession)).
                loaded now config_long_term_storage token (lookup token m)
                  (lookup token w.store.auth_tokens))
              empty,
    )
