-- ===== src/Evolution.antt =====
-- worker_agent/evolution: suggestions for playbooks out of the plans that have succeeded.
pub mod Patterns
pub mod Job
