-- ===== src/Graph/Builder.antt =====
-- agent/graph/builder.py: the nodes of the graph and its edges, as `build_graph` adds them. A name
-- of a node is a constructor; an edge map is the dictionary that the source writes.
pub mod Steps
pub mod Runs
mod Tests
use chat_aiagent.Prelude.{String, Option, none, some, List, [], ◌∷◌, Dict, lookup}
use chat_aiagent.Graph.State.{AgentState}
use chat_aiagent.Graph.Routes.{
  route_intent, route_cache, route_hitl_step_review, route_analysis_summary, route_propose_fix,
}

pub data Node : Type 0 where
  manage_context extract_intent clarify check_plan_cache think hitl_step_review : Node
  act observe analysis_summary propose_fix report chain_remediate : Node

-- A node, or END.
pub data Target : Type 0 where
  node : Node → Target
  finish : Target

abbrev pub entry_point : Target
entry_point = node Node.manage_context

abbrev intent_edges : Dict Target
intent_edges =
    ("clarify", node clarify) ∷ ("check_plan_cache", node check_plan_cache) ∷ ("end", finish) ∷ []

abbrev cache_edges : Dict Target
cache_edges = ("think", node think) ∷ ("propose_fix", node propose_fix) ∷ []

abbrev review_edges : Dict Target
review_edges =
    ("act", node act)
    ∷ ("think", node think)
    ∷ ("analysis_summary", node analysis_summary)
    ∷ ("report", node report)
    ∷ ("end", finish)
    ∷ []

abbrev summary_edges : Dict Target
summary_edges = ("propose_fix", node propose_fix) ∷ ("end", finish) ∷ []

abbrev fix_edges : Dict Target
fix_edges =
    ("report", node report)
    ∷ ("think", node think)
    ∷ ("propose_fix", node propose_fix)
    ∷ ("end", finish)
    ∷ []

-- Where the graph goes from a node, in the state that the node leaves; none is the KeyError of a
-- label that the edge map lacks.
unfoldable pub next : Node → AgentState → Option Target
next manage_context s = some (node extract_intent)
next extract_intent s = lookup (route_intent s) intent_edges
next clarify s = some (node extract_intent)
next check_plan_cache s = lookup (route_cache s) cache_edges
next think s = some (node hitl_step_review)
next hitl_step_review s = lookup (route_hitl_step_review s) review_edges
next act s = some (node observe)
next observe s = some (node think)
next analysis_summary s = lookup (route_analysis_summary s) summary_edges
next propose_fix s = lookup (route_propose_fix s) fix_edges
next report s = some (node chain_remediate)
next chain_remediate s = some finish
