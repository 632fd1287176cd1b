-- ===== src/MessageBus.antt =====
-- object_database/message_bus.py.
pub mod Struct
pub mod Buffer
mod Tests
