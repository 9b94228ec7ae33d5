-- ===== src/Dispatch.antt =====
-- worker_agent/dispatch: the adapters through which steps of a plan reach the workers.
pub mod Base
pub mod Postgres
pub mod Queues
pub mod Locks
pub mod Repo
