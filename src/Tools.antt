-- ===== src/Tools.antt =====
-- worker_agent/tools: the resolution of secret references, and the dispatch of a call of a tool.
pub mod Texts
pub mod Credentials
pub mod Base
pub mod Aws
pub mod Executors
pub mod Mcp
pub mod Dispatcher
