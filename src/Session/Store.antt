-- ===== src/Session/Store.antt =====
-- The operations of `SessionStore` (src/service/session.cpp). The clock's reading `now`, in
-- nanoseconds, and the random generator are arguments. Times do not wrap.
use obmc_yadro_webapp.Prelude.{
  ℕ, zero, suc, ◌+◌, ◌*◌, Bool, false, not, ◌||◌, Option, none, some, List, [], ◌∷◌, ltb, leb,
  if◌then◌else◌, ◌==◌, nat_eq, text_eq, keep, length, get_elem?, lookup, emplace, insert_or_assign,
  erase,
}
use mathlib.Core.Option
use obmc_yadro_webapp.Prelude.Text.{Text, text}
use obmc_yadro_webapp.Prelude.Int.{ℤ, pos, negsuc}
use obmc_yadro_webapp.Session.Types.{
  PersistenceType, timeout, single_request, ConfigFileStorageType, config_long_term_storage,
  config_current_bmc_session, UserSession, AuthConfigMethods, SessionStore, World,
  session_token_size, persistence_beq,
}
use obmc_yadro_webapp.Session.Config.{commit}

abbrev pub second : ℕ
second = 1000000000

-- `timeNow - lastUpdated >= timeoutInSeconds`.
unfoldable pub is_expired : ℕ → ℤ → UserSession → Bool
is_expired now (pos seconds) s = leb (s.last_updated + seconds * second) now
is_expired now (negsuc n) s = leb s.last_updated (now + suc n * second)

unfoldable pub apply_session_timeouts : ℕ → SessionStore → SessionStore
apply_session_timeouts now s =
    if ltb (s.last_timeout_update + second) now
    then record s {
      last_timeout_update = now;
      auth_tokens = keep (λ p. not (is_expired now s.timeout_in_seconds p.1)) s.auth_tokens;
    }
    else s

unfoldable pub alphanum : Text
alphanum = text "0123456789ABCDEFGHIJKLMNOPQRSTUVWXYZabcdefghijklmnopqrstuvwxyz"

-- What the generator gives from one draw to the next: an index that is uniform below 62, and
-- whether `gen.error()` holds after the draw.
abbrev pub Draws : Type 0
Draws = ℕ → ℕ × Bool

-- `alphanum[index]`; an index out of range does not occur.
unfoldable pub alphanum_at : ℕ → ℕ
unfolding alphanum
alphanum_at index = elim (get_elem? alphanum index) [ none ↦ b'0' | some c ↦ c ]

-- `size` characters from the draw `first` on; `none` once the generator has failed.
unfoldable pub random_text : Draws → ℕ → ℕ → Option Text
unfolding alphanum_at
random_text draws first zero = some []
random_text draws first (suc size) =
    let rest = random_text draws (suc first) size in
    if (draws first).1 then none else Option.map (λ s. alphanum_at (draws first).0 ∷ s) rest

-- The session that `storeAuthToken` returns is the one that the dictionary holds at the token.
unfoldable pub store_auth_token : Text → UserSession → World → World × Option UserSession
store_auth_token token session w =
    let tokens = emplace token session w.store.auth_tokens in
    (commit (record w { store = record w.store { auth_tokens = tokens } }), lookup token tokens)

unfoldable pub new_session :
    Text
    → PersistenceType
    → Bool
    → Text
    → Text
    → ConfigFileStorageType
    → ℕ
    → Text
    → Text
    → Text
    → UserSession
new_session username persistence self_only client_id client_ip storage_type now token csrf uid =
    record {
      unique_id = uid;
      session_token = token;
      username = username;
      csrf_token = csrf;
      client_id = client_id;
      client_ip = client_ip;
      last_updated = now;
      persistence = persistence;
      cookie_auth = false;
      is_configure_self_only = self_only;
      storage_type = storage_type;
      obmc_session_id = [];
    }

infixl 5 ◌>>=◌
abbrev ◌>>=◌ : {A B : Type 0} → Option A → (A → Option B) → Option B
none >>= f = none
some a >>= f = f a

-- The session token, the CSRF token and the identifier, drawn in this order.
unfoldable pub random_texts : Draws → Option (Text × Text × Text)
random_texts draws = do
  session_token ← random_text draws 0 session_token_size
  csrf_token ← random_text draws session_token_size session_token_size
  unique_id ← random_text draws (session_token_size + session_token_size) 10
  some (session_token, csrf_token, unique_id)

-- `none` is the null pointer.
unfoldable pub generate_user_session :
    Draws
    → ℕ
    → Text
    → PersistenceType
    → Bool
    → Text
    → Text
    → ConfigFileStorageType
    → World
    → World × Option UserSession
generate_user_session draws now username persistence self_only client_id client_ip storage_type w =
    elim (random_texts draws) [
      | none ↦ (w, none)
      | some (token, csrf, uid) ↦
          store_auth_token token
            (new_session username persistence self_only client_id client_ip storage_type now token
              csrf uid)
            w
    ]

unfoldable pub new_basic_auth_session :
    Draws → ℕ → Text → Bool → Text → World → World × Option UserSession
new_basic_auth_session draws now username self_only client_ip w =
    generate_user_session draws now username single_request self_only client_ip client_ip
      config_long_term_storage w

unfoldable pub new_standard_login_session :
    Draws → ℕ → Text → Bool → Text → World → World × Option UserSession
new_standard_login_session draws now username self_only client_ip w =
    generate_user_session draws now username timeout self_only client_ip client_ip
      config_current_bmc_session w

unfoldable pub remove_session : UserSession → World → World
remove_session session w = commit (record w {
  store = record w.store { auth_tokens = erase session.session_token w.store.auth_tokens };
})

-- The token's session in a store without expired ones. The session is shared: its new time of use
-- is seen in the store.
unfoldable pub use_token : ℕ → Text → SessionStore → SessionStore × Option UserSession
use_token now token s =
    if length token == session_token_size
    then elim (lookup token s.auth_tokens) [
      | none ↦ (s, none)
      | some session ↦
          let used = record session { last_updated = now } in
          (record s { auth_tokens = insert_or_assign token used s.auth_tokens }, some used)
    ]
    else (s, none)

unfoldable pub login_session_by_token : ℕ → Text → SessionStore → SessionStore × Option UserSession
login_session_by_token now token s = use_token now token (apply_session_timeouts now s)

unfoldable pub find_uid : Text → List (Text × UserSession) → Option UserSession
find_uid uid [] = none
find_uid uid ((token, s) ∷ rest) = if s.unique_id == uid then some s else find_uid uid rest

unfoldable pub get_session_by_uid : ℕ → Text → SessionStore → SessionStore × Option UserSession
unfolding apply_session_timeouts find_uid
get_session_by_uid now uid store =
    let s = apply_session_timeouts now store in (s, find_uid uid s.auth_tokens)

collect_ids : Bool → PersistenceType → List (Text × UserSession) → List Text
collect_ids get_all type [] = []
collect_ids get_all type ((token, s) ∷ rest) =
    let ids = collect_ids get_all type rest in
    if get_all || persistence_beq type s.persistence then s.unique_id ∷ ids else ids

unfoldable pub get_unique_ids : ℕ → Bool → PersistenceType → SessionStore → SessionStore × List Text
unfolding apply_session_timeouts collect_ids
get_unique_ids now get_all type store =
    let s = apply_session_timeouts now store in (s, collect_ids get_all type s.auth_tokens)

unfoldable pub update_auth_methods_config : AuthConfigMethods → SessionStore → SessionStore
update_auth_methods_config config s = record s { auth_methods_config = config }

unfoldable pub update_session_timeout : ℤ → SessionStore → SessionStore
update_session_timeout seconds s = record s { timeout_in_seconds = seconds }

unfoldable pub restore : UserSession → SessionStore → SessionStore
restore session s = record s { auth_tokens = emplace session.session_token session s.auth_tokens }
