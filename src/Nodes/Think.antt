-- ===== src/Nodes/Think.antt =====
-- agent/nodes/think.py: the node that asks the model for the next thought. Its prompt is built in
-- the child Prompt; the collector that evaluates the retrieval gets the chunks of context.
pub mod Gather
pub mod Prompt
use chat_aiagent.Prelude.{String, Option, none, some, List, [], Text, or_else}
use chat_aiagent.Prelude.Json.{Json}
use chat_aiagent.Graph.State.{AgentState, Message, Thought, Phase, analysis}
use chat_aiagent.Nodes.Think.Gather.{Context}
use chat_aiagent.Nodes.Think.Prompt.{build_prompt}

abbrev pub thought_produced : Thought → AgentState → AgentState
thought_produced thought s = record s {
  phase = some (or_else s.phase analysis);
  current_thought = some thought;
  hitl_feedback = none;
}

-- `llm` is the model with structured output, the validators of Thought applied; it may raise.
unfoldable pub think :
    (Json → Text)
    → (String → Text → Option Context)
    → (Text → List Message → Option Thought)
    → AgentState
    → Option AgentState
think render ask llm s = elim (build_prompt render ask s) [
  | none ↦ none
  | some (system, tools, playbook) ↦ elim (llm system s.messages) [
    | none ↦ none
    | some thought ↦ some (thought_produced thought s)
  ]
]
