-- ===== src/Session/Config.antt =====
-- Writing the configuration files (src/service/session.cpp, class `ConfigFile`). Creating the
-- directory and setting permissions is left out, and the write is taken to succeed.
use obmc_yadro_webapp.Prelude.{
  Bool, not, ◌&&◌, List, [], ◌∷◌, ◌++◌, map, text_eq, keep, insert_or_assign,
}
use obmc_yadro_webapp.Prelude.Text.{Text, text}
use obmc_yadro_webapp.Prelude.Int.{pos}
use obmc_yadro_webapp.Json.{Json, boolean, int, str, arr, obj, to_fields, to_items}
use obmc_yadro_webapp.Session.Types.{
  ConfigFileStorageType, config_long_term_storage, config_current_bmc_session,
  config_current_service_session, UserSession, World, parsed, persistence_beq, single_request,
  storage_beq,
}

-- `configFilePathDict`.
abbrev pub config_file_path_dict : List (ConfigFileStorageType × Text × Text)
config_file_path_dict =
    (config_long_term_storage, text "/home/root", text "bmcweb_persistent_data.json")
    ∷ (config_current_bmc_session, text "/tmp/bmcweb_metadata", text "sessions.json")
    ∷ []

abbrev pub file_path : Text → Text → Text
file_path config_path config_file_name = config_path ++ (text "/" ++ config_file_name)

-- The entries of the JSON object under construction.
abbrev pub Config : Type 0
Config = List (Text × Json)

unfoldable pub populate_revision : World → Config → Config
unfolding insert_or_assign
populate_revision w = insert_or_assign (text "revision") (int (pos w.json_revision))

unfoldable pub populate_system_uuid : World → Config → Config
unfolding insert_or_assign
populate_system_uuid w = insert_or_assign (text "system_uuid") (str w.system_uuid)

unfoldable pub populate_auth_config : World → Config → Config
unfolding insert_or_assign
populate_auth_config w = insert_or_assign (text "auth_config") (
    obj (
      to_fields (
        (text "XToken", boolean methods.xtoken)
        ∷ (text "Cookie", boolean methods.cookie)
        ∷ (text "SessionToken", boolean methods.session_token)
        ∷ (text "BasicAuth", boolean methods.basic)
        ∷ (text "TLS", boolean methods.tls)
        ∷ [])))
  where
    open w.store use {auth_methods_config as methods}

unfoldable pub populate_timeout : World → Config → Config
unfolding insert_or_assign
populate_timeout w = insert_or_assign (text "timeout") (int w.store.timeout_in_seconds)

unfoldable pub session_to_json : UserSession → Json
session_to_json s = obj (
    to_fields (
      (text "unique_id", str s.unique_id)
      ∷ (text "session_token", str s.session_token)
      ∷ (text "username", str s.username)
      ∷ (text "csrf_token", str s.csrf_token)
      ∷ (text "client_ip", str s.client_ip)
      ∷ []))

-- Which sessions are written to the file of a storage type.
abbrev pub is_stored : ConfigFileStorageType → UserSession → Bool
is_stored storage_type s =
    not (persistence_beq s.persistence single_request) && storage_beq s.storage_type storage_type

unfoldable pub populate_sessions : ConfigFileStorageType → World → Config → Config
unfolding insert_or_assign
populate_sessions storage_type w = insert_or_assign (text "sessions") (
    arr (
      to_items (
        map (λ p. session_to_json p.1)
          (keep (λ p. is_stored storage_type p.1) w.store.auth_tokens))))

-- `configPopulatHandlersDict`. It has no row for the last type, of which `commit` writes no file.
unfoldable pub config_populate_handlers : ConfigFileStorageType → List (World → Config → Config)
config_populate_handlers config_long_term_storage =
    populate_revision
    ∷ populate_auth_config
    ∷ populate_system_uuid
    ∷ populate_timeout
    ∷ populate_sessions config_long_term_storage
    ∷ []
config_populate_handlers config_current_bmc_session =
    populate_revision ∷ populate_sessions config_current_bmc_session ∷ []
config_populate_handlers config_current_service_session = []

run_handlers : World → List (World → Config → Config) → Config → Config
run_handlers w [] config = config
run_handlers w (handler ∷ handlers) config = run_handlers w handlers (handler w config)

-- The JSON value that `writeData` stores.
unfoldable pub written : ConfigFileStorageType → World → Json
unfolding run_handlers config_populate_handlers populate_revision populate_auth_config
    populate_system_uuid populate_timeout populate_sessions session_to_json
written storage_type w = obj (to_fields (run_handlers w (config_populate_handlers storage_type) []))

unfoldable pub write_data : ConfigFileStorageType → Text → Text → World → World
write_data storage_type config_path config_file_name w = record w {
  files =
      insert_or_assign (file_path config_path config_file_name) (parsed (written storage_type w))
        w.files;
}

write_all : List (ConfigFileStorageType × Text × Text) → World → World
unfolding write_data
write_all [] w = w
write_all ((storage_type, config_path, config_file_name) ∷ rest) w =
    write_all rest (write_data storage_type config_path config_file_name w)

-- `ConfigFile::commit`.
unfoldable pub commit : World → World
unfolding write_all
commit w = write_all config_file_path_dict w
