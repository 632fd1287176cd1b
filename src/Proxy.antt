-- ===== src/Proxy.antt =====
-- object_database/proxy_server.py: the server that stands between the main server and clients, and
-- subscribes to whole types for them.
pub mod Schemas
pub mod State
pub mod Reads
pub mod Departure
pub mod Received
pub mod Subscriptions
pub mod Values
pub mod Transactions
pub mod Broadcast
pub mod Registry
pub mod Server
pub mod Tests
