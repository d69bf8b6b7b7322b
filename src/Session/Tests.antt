-- ===== src/Session/Tests.antt =====
-- The theorems on sessions at a store with one session.
use obmc_yadro_webapp.Prelude.{
  ◌+◌, ◌*◌, ◌≡◌, ◌↔◌, refl, false, ◌&&◌, none, some, [], ◌∷◌, arith, length, lookup, ltb, text_beq,
  text_eq,
}
use obmc_yadro_webapp.Prelude.Text.{Text, text}
use obmc_yadro_webapp.Prelude.Int.{pos}
use obmc_yadro_webapp.Json.{items}
use obmc_yadro_webapp.Session.Types.{
  UserSession, SessionStore, World, timeout, config_long_term_storage, default_auth_config,
}
use obmc_yadro_webapp.Session.FromJson.{empty_session}
use obmc_yadro_webapp.Session.Config.{written, commit}
use obmc_yadro_webapp.Session.Store.{
  second, is_expired, apply_session_timeouts, login_session_by_token, remove_session, Draws,
  random_texts, random_text, alphanum, alphanum_at, new_session,
}
use obmc_yadro_webapp.Session.Read.{read_items}
use obmc_yadro_webapp.Session.Step.{
  IsWellFormed, logins, removes, commits, here, next, Reach-IsWellFormed,
}
use obmc_yadro_webapp.Session.Sweep.{Swept, apply_session_timeouts_lem}
use obmc_yadro_webapp.Session.Expiry.{login_iff, login_again, login-remove_session}
use obmc_yadro_webapp.Session.Tokens.{AllDrawn, IsToken, Generated, generate_total, generate-login}
use obmc_yadro_webapp.Session.Persist.{loaded, read_items-written}

abbrev pub token_a : Text
token_a = text "AAAAAAAAAAAAAAAAAAAA"

abbrev pub alice : UserSession
alice = record empty_session {
  unique_id = text "0123456789";
  session_token = token_a;
  username = text "alice";
  csrf_token = text "BBBBBBBBBBBBBBBBBBBB";
  last_updated = 5 * second;
  storage_type = config_long_term_storage;
}

abbrev pub one_session : SessionStore
one_session = record {
  last_timeout_update = 0;
  timeout_in_seconds = pos 3600;
  auth_methods_config = default_auth_config;
  auth_tokens = (token_a, alice) ∷ [];
}

abbrev pub one_world : World
one_world = record { store = one_session; system_uuid = text "U"; json_revision = 1; files = [] }

abbrev pub no_world : World
no_world = record one_world { store = record one_session { auth_tokens = [] } }

pub one_session-IsWellFormed : IsWellFormed one_session
one_session-IsWellFormed = record { dict = (tt, tt); keyed = (refl, tt) }

no_session-IsWellFormed : IsWellFormed no_world.store
no_session-IsWellFormed = record { dict = tt; keyed = tt }

pub token_a-found : lookup token_a one_session.auth_tokens ≡ some alice
unfolding lookup text_beq
token_a-found = refl

-- A generator whose draws are 0, 1, 2 and so on.
abbrev counting : Draws
counting i = (i, false)

counting_ok : AllDrawn counting 0 50
counting_ok i l = refl

Reach-IsWellFormed_example :
    IsWellFormed
      (commit (
        remove_session alice (record one_world {
          store = (login_session_by_token (6 * second) token_a one_session).0;
        }))).store
Reach-IsWellFormed_example =
    Reach-IsWellFormed
      (next (next (next here (logins one_world (6 * second) token_a)) (removes _ alice))
        (commits _))
      one_session-IsWellFormed

apply_session_timeouts_lem_example :
    Swept
      (4000 * second)
      token_a
      alice
      one_session
      (apply_session_timeouts (4000 * second) one_session)
    × (apply_session_timeouts (4000 * second) (apply_session_timeouts (4000 * second) one_session)
        ≡ apply_session_timeouts (4000 * second) one_session)
apply_session_timeouts_lem_example =
    apply_session_timeouts_lem (4000 * second) token_a alice one_session one_session-IsWellFormed

login_iff_example :
    ((login_session_by_token (6 * second) token_a one_session).1
      ≡ some (record alice { last_updated = 6 * second }))
    ↔ ((length token_a ≡ 20)
        × ((old : UserSession) × (lookup token_a one_session.auth_tokens ≡ some old)
            × (record alice { last_updated = 6 * second }
                ≡ record old { last_updated = 6 * second })
            × ((ltb (one_session.last_timeout_update + second) (6 * second)
                  && is_expired (6 * second) one_session.timeout_in_seconds old)
                ≡ false)))
login_iff_example =
    login_iff (6 * second) token_a one_session (record alice { last_updated = 6 * second })
      one_session-IsWellFormed

logged_in :
    (login_session_by_token (6 * second) token_a one_session).1
    ≡ some (record alice { last_updated = 6 * second })
logged_in = login_iff_backward
  where
    login_iff_backward :
        (login_session_by_token (6 * second) token_a one_session).1
        ≡ some (record alice { last_updated = 6 * second })
    login_iff_backward =
        (login_iff (6 * second) token_a one_session (record alice { last_updated = 6 * second })
            one_session-IsWellFormed).1
          (refl, (alice, token_a-found, refl, unfold is_expired in refl))

login_again_example :
    (login_session_by_token
      (3000 * second)
      token_a
      (login_session_by_token (6 * second) token_a one_session).0).1
    ≡ some (record alice { last_updated = 3000 * second })
login_again_example =
    login_again (6 * second) (3000 * second) 3600 token_a one_session
      (record alice { last_updated = 6 * second }) one_session-IsWellFormed refl logged_in
      (omega arith)

login-remove_session_example :
    (login_session_by_token (6 * second) token_a (remove_session alice one_world).store).1 ≡ none
login-remove_session_example =
    login-remove_session (6 * second) alice one_world one_session-IsWellFormed

generate_total_example :
    let made =
      Generated counting 7 (text "bob") timeout false [] [] config_long_term_storage one_world in
    (session : UserSession) × (token : Text) × (made.1 ≡ some session)
    × (lookup token made.0.store.auth_tokens ≡ some session)
    × IsToken 20 token
generate_total_example =
    generate_total counting 7 (text "bob") timeout false [] [] config_long_term_storage one_world
      counting_ok

token_c : Text
token_c = text "0123456789ABCDEFGHIJ"

csrf_c : Text
csrf_c = text "KLMNOPQRSTUVWXYZabcd"

uid_c : Text
uid_c = text "efghijklmn"

drawn : random_texts counting ≡ some (token_c, csrf_c, uid_c)
unfolding random_texts random_text alphanum_at alphanum token_c csrf_c uid_c
drawn = refl

generate-login_example :
    ((login_session_by_token 9 token_c
        (Generated counting 7
          (text "bob")
          timeout
          false
          []
          []
          config_long_term_storage
          no_world).0.store).1
      ≡ some (
          new_session
            (text "bob")
            timeout
            false
            []
            []
            config_long_term_storage
            9
            token_c
            csrf_c
            uid_c))
    × IsToken 20 token_c
    × IsToken 20 csrf_c
    × IsToken 10 uid_c
generate-login_example =
    generate-login counting 7 (text "bob") timeout false [] [] config_long_term_storage no_world
      token_c csrf_c uid_c 9 3600 no_session-IsWellFormed drawn (unfold lookup in refl) refl
      (omega arith)

read_items-written_example :
    let loaded_world =
      read_items 9 config_long_term_storage
        (items (written config_long_term_storage one_world))
        no_world in
    (loaded_world.system_uuid ≡ one_world.system_uuid)
    × (loaded_world.store.auth_methods_config ≡ one_world.store.auth_methods_config)
    × (loaded_world.store.timeout_in_seconds ≡ one_world.store.timeout_in_seconds)
    × (lookup token_a loaded_world.store.auth_tokens
        ≡ loaded 9 config_long_term_storage token_a none
            (lookup token_a one_world.store.auth_tokens))
read_items-written_example =
    read_items-written 9 token_a one_world no_world one_session-IsWellFormed
      ((refl, refl, refl, refl), tt) refl
