-- ===== src/Session/Read.antt =====
-- Loading the configuration files (src/service/session.cpp, `ConfigFile::readData`). The UUID that
-- libuuid would generate is an argument.
use obmc_yadro_webapp.Prelude.{
  ℕ, Option, none, some, List, [], ◌∷◌, if◌then◌else◌, ◌==◌, text_eq, lookup,
}
use obmc_yadro_webapp.Prelude.Text.{Text, text, is_empty}
use obmc_yadro_webapp.Json.{Json, int, str, items, values}
use obmc_yadro_webapp.Session.Types.{
  ConfigFileStorageType, SessionStore, World, File, discarded, parsed,
}
use obmc_yadro_webapp.Session.FromJson.{session_from_json, auth_config_from_json}
use obmc_yadro_webapp.Session.Config.{config_file_path_dict, file_path, commit}
use obmc_yadro_webapp.Session.Store.{restore, update_session_timeout}

-- The loop over the stored sessions: one that cannot be read is skipped.
unfoldable pub restore_sessions :
    ℕ → ConfigFileStorageType → List Json → SessionStore → SessionStore
restore_sessions now storage_type [] s = s
restore_sessions now storage_type (elem ∷ elems) s =
    restore_sessions now storage_type elems (elim (session_from_json now elem) [
      | none ↦ s
      | some session ↦ restore (record session { storage_type = storage_type }) s
    ])

read_uuid : Json → World → World
read_uuid (str uuid) w = record w { system_uuid = uuid }
read_uuid _ w = w

read_timeout : Json → World → World
unfolding update_session_timeout
read_timeout (int seconds) w = record w { store = update_session_timeout seconds w.store }
read_timeout _ w = w

-- One item of the file. Unknown keys are left alone.
unfoldable pub read_item : ℕ → ConfigFileStorageType → Text → Json → World → World
unfolding read_uuid read_timeout
read_item now storage_type key value w =
    if key == text "system_uuid"
    then read_uuid value w
    else if key == text "auth_config"
    then record w {
      store = record w.store {
        auth_methods_config = auth_config_from_json w.store.auth_methods_config value;
      };
    }
    else if key == text "sessions"
    then record w { store = restore_sessions now storage_type (values value) w.store }
    else if key == text "timeout"
    then read_timeout value w
    else w

unfoldable pub read_items : ℕ → ConfigFileStorageType → List (Text × Json) → World → World
read_items now storage_type [] w = w
read_items now storage_type ((key, value) ∷ rest) w =
    read_items now storage_type rest (read_item now storage_type key value w)

-- A system with no UUID gets one, and the files are written.
unfoldable pub generate_uuid : Text → World → World
generate_uuid uuid w =
    if is_empty w.system_uuid then commit (record w { system_uuid = uuid }) else w

-- One file: text that does not parse ends the call, a missing file does not.
unfoldable pub read_file : ℕ → Text → ConfigFileStorageType → Option File → World → World
read_file now uuid storage_type none w = generate_uuid uuid w
read_file now uuid storage_type (some discarded) w = w
read_file now uuid storage_type (some (parsed json)) w =
    generate_uuid uuid (read_items now storage_type (items json) w)

unfoldable pub read_all : ℕ → Text → List (ConfigFileStorageType × Text × Text) → World → World
read_all now uuid [] w = w
read_all now uuid ((storage_type, config_path, config_file_name) ∷ rest) w =
    read_all now uuid rest
      (read_file now uuid storage_type (lookup (file_path config_path config_file_name) w.files) w)

-- `ConfigFile::readData`, which every request begins with.
unfoldable pub read_data : ℕ → Text → World → World
unfolding read_all
read_data now uuid w = read_all now uuid config_file_path_dict w
