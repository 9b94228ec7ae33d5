-- ===== src/Graph.antt =====
-- agent/graph: the state of the conversation, the route functions and the graph that joins the
-- nodes.
pub mod State
pub mod Routes
pub mod Builder
