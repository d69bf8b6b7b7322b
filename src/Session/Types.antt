-- ===== src/Session/Types.antt =====
-- The state of the session store and of the configuration files (src/service/session.hpp).
use obmc_yadro_webapp.Prelude.{ℕ, Bool, true, false, List}
use obmc_yadro_webapp.Prelude.Text.{Text}
use obmc_yadro_webapp.Prelude.Int.{ℤ}
use obmc_yadro_webapp.Json.{Json}

abbrev pub session_token_size : ℕ
session_token_size = 20

pub data PersistenceType : Type 0 where
  timeout single_request : PersistenceType

abbrev pub persistence_beq : PersistenceType → PersistenceType → Bool
persistence_beq timeout timeout = true
persistence_beq single_request single_request = true
persistence_beq _ _ = false

pub data ConfigFileStorageType : Type 0 where
  config_long_term_storage : ConfigFileStorageType
  config_current_bmc_session : ConfigFileStorageType
  config_current_service_session : ConfigFileStorageType

abbrev pub storage_beq : ConfigFileStorageType → ConfigFileStorageType → Bool
storage_beq config_long_term_storage config_long_term_storage = true
storage_beq config_current_bmc_session config_current_bmc_session = true
storage_beq config_current_service_session config_current_service_session = true
storage_beq _ _ = false

-- `last_updated` is a time of the steady clock in nanoseconds.
pub record UserSession : Type 0 where
  pub unique_id : Text
  pub session_token : Text
  pub username : Text
  pub csrf_token : Text
  pub client_id : Text
  pub client_ip : Text
  pub last_updated : ℕ
  pub persistence : PersistenceType
  pub cookie_auth : Bool
  pub is_configure_self_only : Bool
  pub storage_type : ConfigFileStorageType
  pub obmc_session_id : Text

pub record AuthConfigMethods : Type 0 where
  pub xtoken : Bool
  pub cookie : Bool
  pub session_token : Bool
  pub basic : Bool
  pub tls : Bool

-- The initialisers of the class.
abbrev pub default_auth_config : AuthConfigMethods
default_auth_config = record {
  xtoken = true;
  cookie = true;
  session_token = true;
  basic = true;
  tls = false;
}

-- The tokens' dictionary compares keys by `ConstantTimeCompare`, which decides equality. The order
-- in which an unordered map is walked is not fixed: here it is the order of insertion.
pub record SessionStore : Type 0 where
  pub last_timeout_update : ℕ
  pub timeout_in_seconds : ℤ
  pub auth_methods_config : AuthConfigMethods
  pub auth_tokens : List (Text × UserSession)

-- What stands in a file: text that the parser rejects, or a value.
pub data File : Type 0 where
  discarded : File
  parsed : Json → File

-- The store, the fields of `ConfigFile`, and the files by path.
pub record World : Type 0 where
  pub store : SessionStore
  pub system_uuid : Text
  pub json_revision : ℕ
  pub files : List (Text × File)
