-- ===== src/Registry.antt =====
-- worker_agent/registry: the records of the tool registry and its clients.
pub mod Base
pub mod Schemas
pub mod Client
pub mod Live
