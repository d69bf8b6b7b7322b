-- ===== src/Session/Step.antt =====
-- Every way in which the program changes the session store, as a step relation, and the invariant
-- that all of them keep (src/service/session.cpp).
use obmc_yadro_webapp.Prelude.{
  ℕ, ◌≡◌, refl, inl, inr, Bool, not, Option, none, some, List, [], ◌∷◌, arith, text_eq,
  text_beq_iff, nat_eq, All, keep, Bool-cases, Option-cases, lookup, erase, insert_or_assign,
  IsDict, emplace-IsDict, erase-IsDict, insert_or_assign-IsDict, keep-IsDict, All-emplace,
}
use obmc_yadro_webapp.Prelude.Text.{Text, is_empty}
use obmc_yadro_webapp.Prelude.Int.{ℤ}
use obmc_yadro_webapp.Json.{Json, items, values}
use obmc_yadro_webapp.Session.Types.{
  PersistenceType, ConfigFileStorageType, UserSession, AuthConfigMethods, SessionStore, World, File,
  discarded, parsed,
}
use obmc_yadro_webapp.Session.FromJson.{session_from_json}
use obmc_yadro_webapp.Session.Config.{config_file_path_dict, file_path, commit}
use obmc_yadro_webapp.Session.Store.{
  Draws, is_expired, apply_session_timeouts, store_auth_token, generate_user_session, random_texts,
  new_session, use_token, remove_session, login_session_by_token, get_session_by_uid,
  get_unique_ids, update_auth_methods_config, update_session_timeout, restore,
}
use obmc_yadro_webapp.Session.Read.{
  restore_sessions, generate_uuid, read_all, read_item, read_items, read_file, read_data,
}

-- No token stands twice, and each session stands under its own token.
pub record IsWellFormed (s : SessionStore) : Type 0 where
  pub dict : IsDict s.auth_tokens
  pub keyed : All (λ p. p.0 ≡ p.1.session_token) s.auth_tokens

pub data Step : World → World → Type 0 where
  generates :
      (w : World) (draws : Draws) (now : ℕ) (username : Text) (persistence : PersistenceType)
      (self_only : Bool) (client_id client_ip : Text) (storage_type : ConfigFileStorageType)
      → Step w
          (generate_user_session draws now username persistence self_only client_id client_ip
            storage_type w).0
  removes : (w : World) (session : UserSession) → Step w (remove_session session w)
  logins :
      (w : World) (now : ℕ) (token : Text)
      → Step w (record w { store = (login_session_by_token now token w.store).0 })
  gets_by_uid :
      (w : World) (now : ℕ) (uid : Text)
      → Step w (record w { store = (get_session_by_uid now uid w.store).0 })
  gets_ids :
      (w : World) (now : ℕ) (get_all : Bool) (type : PersistenceType)
      → Step w (record w { store = (get_unique_ids now get_all type w.store).0 })
  configures :
      (w : World) (config : AuthConfigMethods)
      → Step w (record w { store = update_auth_methods_config config w.store })
  sets_timeout :
      (w : World) (seconds : ℤ)
      → Step w (record w { store = update_session_timeout seconds w.store })
  reads : (w : World) (now : ℕ) (uuid : Text) → Step w (read_data now uuid w)
  commits : (w : World) → Step w (commit w)

pub data Reach (w : World) : World → Type 0 where
  here : Reach w w
  next : {u v : World} → Reach w u → Step u v → Reach w v

-- `commit` writes files only.
pub store-commit : (w : World) → (commit w).store ≡ w.store
unfolding commit
store-commit w = refl

keep-keyed :
    (p : Text × UserSession → Bool) (m : List (Text × UserSession))
    → All (λ b. b.0 ≡ b.1.session_token) m
    → All (λ b. b.0 ≡ b.1.session_token) (keep p m)
keep-keyed p [] h = tt
keep-keyed p (b ∷ m) h = ground (arith, keep-keyed p m h.1)

erase-keyed :
    (k : Text) (m : List (Text × UserSession))
    → All (λ b. b.0 ≡ b.1.session_token) m
    → All (λ b. b.0 ≡ b.1.session_token) (erase k m)
unfolding erase
erase-keyed k [] h = tt
erase-keyed k (b ∷ m) h = ground (arith, erase-keyed k m h.1)

assign-keyed :
    (k : Text) (s : UserSession) (m : List (Text × UserSession))
    → k ≡ s.session_token
    → All (λ b. b.0 ≡ b.1.session_token) m
    → All (λ b. b.0 ≡ b.1.session_token) (insert_or_assign k s m)
unfolding insert_or_assign
assign-keyed k s [] e h = (e, tt)
assign-keyed k s (b ∷ m) e h = ground (arith, assign-keyed k s m e h.1, text_beq_iff b.0 k)

pub lookup-keyed :
    (k : Text) (s : UserSession) (m : List (Text × UserSession))
    → All (λ b. b.0 ≡ b.1.session_token) m
    → lookup k m ≡ some s
    → k ≡ s.session_token
unfolding lookup
lookup-keyed k s [] h e = cc
lookup-keyed k s (b ∷ m) h e = ground (arith, lookup-keyed k s m h.1, text_beq_iff b.0 k)

pub apply_session_timeouts-IsWellFormed :
    (now : ℕ) {s : SessionStore} → IsWellFormed s → IsWellFormed (apply_session_timeouts now s)
unfolding apply_session_timeouts
apply_session_timeouts-IsWellFormed now {s} v =
    let live = λ (p : Text × UserSession). not (is_expired now s.timeout_in_seconds p.1) in
    ground (arith, keep-IsDict live s.auth_tokens v.dict, keep-keyed live s.auth_tokens v.keyed)

restore-IsWellFormed :
    (session : UserSession) (s : SessionStore) → IsWellFormed s → IsWellFormed (restore session s)
unfolding restore
restore-IsWellFormed session s v = record {
  dict = emplace-IsDict session.session_token session s.auth_tokens v.dict;
  keyed =
      All-emplace (λ b. b.0 ≡ b.1.session_token) session.session_token session s.auth_tokens refl
        v.keyed;
}

pub use_token-IsWellFormed :
    (now : ℕ) (token : Text) (s : SessionStore)
    → IsWellFormed s
    → IsWellFormed (use_token now token s).0
unfolding use_token
use_token-IsWellFormed now token s v = elim (Option-cases (lookup token s.auth_tokens)) [
  | inl missing ↦ ground arith
  | inr (session, found) ↦
      let used = record session { last_updated = now } in
      ground (
        arith,
        insert_or_assign-IsDict token used s.auth_tokens v.dict,
        assign-keyed token used s.auth_tokens
            (lookup-keyed token session s.auth_tokens v.keyed found) v.keyed,
      )
]

store_auth_token-IsWellFormed :
    (token : Text) (session : UserSession) (w : World)
    → token ≡ session.session_token
    → IsWellFormed w.store
    → IsWellFormed (store_auth_token token session w).0.store
unfolding store_auth_token
store_auth_token-IsWellFormed token session w e v = rw store-commit (record {
  dict = emplace-IsDict token session w.store.auth_tokens v.dict;
  keyed = All-emplace (λ b. b.0 ≡ b.1.session_token) token session w.store.auth_tokens e v.keyed;
})

generate-IsWellFormed :
    (draws : Draws) (now : ℕ) (username : Text) (persistence : PersistenceType) (self_only : Bool)
    (client_id client_ip : Text) (storage_type : ConfigFileStorageType) (w : World)
    → IsWellFormed w.store
    → IsWellFormed
        (generate_user_session draws now username persistence self_only client_id client_ip
          storage_type w).0.store
unfolding generate_user_session new_session
generate-IsWellFormed draws now username persistence self_only client_id client_ip storage_type w
      v =
    elim (Option-cases (random_texts draws)) [
      | inl e ↦ rw (e, generate_user_session) v
      | inr ((token, csrf, uid), e) ↦
          rw (e, generate_user_session) (store_auth_token-IsWellFormed token _ w refl v)
    ]

restore_sessions-IsWellFormed :
    (now : ℕ) (storage_type : ConfigFileStorageType) (elems : List Json) (s : SessionStore)
    → IsWellFormed s
    → IsWellFormed (restore_sessions now storage_type elems s)
unfolding restore_sessions
restore_sessions-IsWellFormed now storage_type [] s v = v
restore_sessions-IsWellFormed now storage_type (elem ∷ elems) s v =
    elim (Option-cases (session_from_json now elem)) [
      | inl e ↦ rw e (restore_sessions-IsWellFormed now storage_type elems s v)
      | inr (session, e) ↦ rw e (
          restore_sessions-IsWellFormed now storage_type elems _
            (restore-IsWellFormed (record session { storage_type = storage_type }) s v))
    ]

read_item-IsWellFormed :
    (now : ℕ) (storage_type : ConfigFileStorageType) (key : Text) (value : Json) (w : World)
    → IsWellFormed w.store
    → IsWellFormed (read_item now storage_type key value w).store
unfolding read_item
read_item-IsWellFormed now storage_type key value w v =
    ground (arith, restore_sessions-IsWellFormed now storage_type (values value) w.store v)

read_items-IsWellFormed :
    (now : ℕ) (storage_type : ConfigFileStorageType) (items : List (Text × Json)) (w : World)
    → IsWellFormed w.store
    → IsWellFormed (read_items now storage_type items w).store
unfolding read_items
read_items-IsWellFormed now storage_type [] w v = v
read_items-IsWellFormed now storage_type ((key, value) ∷ rest) w v =
    read_items-IsWellFormed now storage_type rest _
      (read_item-IsWellFormed now storage_type key value w v)

generate_uuid-IsWellFormed :
    (uuid : Text) (w : World) → IsWellFormed w.store → IsWellFormed (generate_uuid uuid w).store
unfolding generate_uuid
generate_uuid-IsWellFormed uuid w v = elim (Bool-cases (is_empty w.system_uuid)) [
  | inl e ↦ rw (e, store-commit) v
  | inr e ↦ rw e v
]

read_file-IsWellFormed :
    (now : ℕ) (uuid : Text) (storage_type : ConfigFileStorageType) (file : Option File) (w : World)
    → IsWellFormed w.store
    → IsWellFormed (read_file now uuid storage_type file w).store
unfolding read_file
read_file-IsWellFormed now uuid storage_type none w v = generate_uuid-IsWellFormed uuid w v
read_file-IsWellFormed now uuid storage_type (some discarded) w v = v
read_file-IsWellFormed now uuid storage_type (some (parsed json)) w v =
    generate_uuid-IsWellFormed uuid _ (read_items-IsWellFormed now storage_type (items json) w v)

read_all-IsWellFormed :
    (now : ℕ) (uuid : Text) (dict : List (ConfigFileStorageType × Text × Text)) (w : World)
    → IsWellFormed w.store
    → IsWellFormed (read_all now uuid dict w).store
unfolding read_all
read_all-IsWellFormed now uuid [] w v = v
read_all-IsWellFormed now uuid ((storage_type, path, name) ∷ rest) w v =
    read_all-IsWellFormed now uuid rest _
      (read_file-IsWellFormed now uuid storage_type (lookup (file_path path name) w.files) w v)

-- Every step keeps the store well formed.
pub Step-IsWellFormed : {w v : World} → Step w v → IsWellFormed w.store → IsWellFormed v.store
unfolding login_session_by_token get_session_by_uid get_unique_ids update_auth_methods_config
    update_session_timeout remove_session read_data
Step-IsWellFormed (generates w draws now username persistence self_only client_id client_ip type)
      v =
    generate-IsWellFormed draws now username persistence self_only client_id client_ip type w v
Step-IsWellFormed (removes w session) v = rw store-commit (record {
  dict = erase-IsDict session.session_token w.store.auth_tokens v.dict;
  keyed = erase-keyed session.session_token w.store.auth_tokens v.keyed;
})
Step-IsWellFormed (logins w now token) v =
    use_token-IsWellFormed now token _ (apply_session_timeouts-IsWellFormed now v)
Step-IsWellFormed (gets_by_uid w now uid) v = apply_session_timeouts-IsWellFormed now v
Step-IsWellFormed (gets_ids w now get_all type) v = apply_session_timeouts-IsWellFormed now v
Step-IsWellFormed (configures w config) v = record { dict = v.dict; keyed = v.keyed }
Step-IsWellFormed (sets_timeout w seconds) v = record { dict = v.dict; keyed = v.keyed }
Step-IsWellFormed (reads w now uuid) v = read_all-IsWellFormed now uuid config_file_path_dict w v
Step-IsWellFormed (commits w) v = rw store-commit v

-- After any history of steps from a well-formed store, no token stands twice in the store and each
-- session stands under its own token.
pub Reach-IsWellFormed : {w v : World} → Reach w v → IsWellFormed w.store → IsWellFormed v.store
Reach-IsWellFormed here v = v
Reach-IsWellFormed (next r st) v = Step-IsWellFormed st (Reach-IsWellFormed r v)
