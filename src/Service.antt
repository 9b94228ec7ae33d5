-- ===== src/Service.antt =====
-- worker_agent/main.py: the service around the graph. LangGraph, the model and Redis are outside: what
-- they do is an argument of each function.
pub mod Stream
pub mod Events
pub mod Endpoints
pub mod Demo
pub mod Turns
pub mod Plans
pub mod Start
