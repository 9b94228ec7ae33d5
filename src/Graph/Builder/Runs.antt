-- ===== src/Graph/Builder/Runs.antt =====
-- The runs of the graph: what a node does to the state, and where the graph goes on. The answers of
-- the model, of the human, of the tools, of the registry and of the database are any at each step.
-- ContextManager and PolicyGate are plugins of another package: the first may leave any messages,
-- and the second may write the keys of the policy and stand a result of its own for that of `act`.
mod Frame
pub mod Invariant
pub mod Questions
use chat_aiagent.Prelude.{ℕ, String, Bool, ◌≡◌, Option, some, List, Text, Dict}
use chat_aiagent.Prelude.Json.{Json}
use chat_aiagent.Graph.State.{AgentState, Message, Intent, Thought, ActResult, initial}
use chat_aiagent.Graph.Builder.{
  Node, manage_context, extract_intent, clarify, check_plan_cache, think, hitl_step_review, act,
  observe, analysis_summary, propose_fix, report, chain_remediate, Target, node, next, entry_point,
}
use chat_aiagent.History.{PlanHistory}
use chat_aiagent.Nodes.Metrics.{Metric}
use chat_aiagent.Nodes.Clarify
use chat_aiagent.Nodes.Cache
use chat_aiagent.Nodes.Cache.{ConfigValue}
use chat_aiagent.Nodes.Intents
use chat_aiagent.Nodes.Intents.{Answers}
use chat_aiagent.Nodes.Intents.Prompt.{Example}
use chat_aiagent.Nodes.Think
use chat_aiagent.Nodes.Think.Gather.{Context}
use chat_aiagent.Nodes.Review
use chat_aiagent.Nodes.Review.{Payload}
use chat_aiagent.Nodes.Fix
use chat_aiagent.Nodes.Fix.{Proposal}
use chat_aiagent.Nodes.Loop
use chat_aiagent.Nodes.Loop.{Dispatched}
use chat_aiagent.Nodes.Report
use chat_aiagent.Nodes.Chain
use chat_aiagent.Nodes.Chain.{Response}

-- `Runs n s s'`: the node n takes the state s to s'.
pub data Runs : Node → AgentState → AgentState → Type 0 where
  manages :
      (s : AgentState) (ms : List Message) → Runs manage_context s (record s { messages = ms })
  extracts :
      (reg : Answers) (examples : List Example) (ratio : Text → Text → ℕ)
      (llm : ℕ → Text → List Message → Option Intent) (s s' : AgentState)
      → Intents.extract_intent reg examples ratio llm s ≡ some s'
      → Runs extract_intent s s'
  clarifies : (answer : Text → Text) (s : AgentState) → Runs clarify s (Clarify.clarify answer s)
  checks :
      (order_desc : List PlanHistory → List PlanHistory) (show_date : ℕ → Text) (now ttl_days : ℕ)
      (enabled : Option Text) (cfg : Dict ConfigValue) (s : AgentState)
      → Runs check_plan_cache s
          (Cache.check_plan_cache order_desc show_date now ttl_days enabled cfg s)
  thinks :
      (render : Json → Text) (ask : String → Text → Option Context)
      (llm : Text → List Message → Option Thought) (s s' : AgentState)
      → Think.think render ask llm s ≡ some s'
      → Runs think s s'
  reviews :
      (auto_approve collector : Bool) (human : Payload → Text) (s : AgentState)
      → Runs hitl_step_review s (Review.hitl_step_review auto_approve collector human s).0
  acts :
      (dispatch : Option (Option Text → Json → Dispatched)) (s : AgentState)
      → Runs act s (Loop.act dispatch s)
  gates :
      (decision : Option String) (step : Option Json) (result : Option ActResult) (s : AgentState)
      → Runs act s
          (record s { policy_decision = decision; policy_step = step; last_act_result = result })
  observes :
      (render : Json → Text) (llm : String → Text → Option Text) (s s' : AgentState)
      → Loop.observe render llm s ≡ some s'
      → Runs observe s s'
  summarises :
      (cached : Text → Option Text) (llm : String → Text → Option Text)
      (human : Text → List Text → Text) (s s' : AgentState)
      → Review.analysis_summary cached llm human s ≡ some s'
      → Runs analysis_summary s s'
  proposes :
      (llm : String → Text → Option Text) (collector : Bool) (human : Proposal → Text)
      (s s' : AgentState) (ms : List Metric)
      → Fix.propose_fix llm collector human s ≡ some (s', ms)
      → Runs propose_fix s s'
  reports :
      (llm : String → Text → Option Text) (s s' : AgentState)
      → Report.report llm s ≡ some s'
      → Runs report s s'
  chains :
      (redis : ℕ → Bool) (loads : Text → Option Json) (thread_id : String)
      (exchange : Text → Option Text) (token : Text) (r : Response) (before : Option Chain.Payload)
      (s : AgentState)
      → Runs chain_remediate s
          (Chain.chain_remediate redis loads thread_id s exchange token r before).0

-- What a thread that starts with some messages can come to: the target, and the state in which the
-- graph goes there.
pub data Reaches (ms : List Message) : Target → AgentState → Type 0 where
  start : Reaches ms entry_point (initial ms)
  step :
      (n : Node) (s s' : AgentState) (t : Target)
      → Reaches ms (node n) s
      → Runs n s s'
      → next n s' ≡ some t
      → Reaches ms t s'
