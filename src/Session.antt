-- ===== src/Session.antt =====
-- Login sessions: src/service/session.hpp and src/service/session.cpp. `Types` holds the state,
-- `FromJson` and `Config` the configuration files, `Store` the operations, `Read` the loading of
-- the files; the other children prove their properties.
pub mod Types
pub mod FromJson
pub mod Config
pub mod Store
pub mod Read
pub mod Step
pub mod Sweep
pub mod Expiry
pub mod Tokens
pub mod Persist
pub mod Tests
