-- ===== src/Nodes.antt =====
-- agent/nodes: the nodes of the graph. A node takes the state and what it asks of the outside (the
-- model, the tools, the human's answer to an interrupt) and returns the state with its updates
-- merged; none stands for an exception that it lets through. The metrics that it ships to the
-- collector come with the result.
pub mod Metrics
pub mod Review
pub mod Fix
pub mod Loop
pub mod Think
pub mod Thoughts
pub mod Intents
pub mod Clarify
pub mod Cache
pub mod Report
pub mod Chain
