-- ===== src/Server.antt =====
-- `Server` of object_database/server.py, part by part.
pub mod TypeMap
pub mod Messages
pub mod State
pub mod Versions
pub mod Routing
pub mod Request
pub mod Growth
pub mod Commit
pub mod Transactions
pub mod Connections
pub mod Subscriptions
pub mod Dispatch
mod Tests
