-- ===== src/Redfish.antt =====
-- The Redfish service (src/core/route/redfish): contexts and their payload, the actions that fill it,
-- the node of a path, and how a request is answered.
pub mod Payload
pub mod Context
pub mod Messages
pub mod Actions
pub mod Resolver
pub mod Matched
pub mod Resolved
pub mod Laws
pub mod Router
mod Tests
