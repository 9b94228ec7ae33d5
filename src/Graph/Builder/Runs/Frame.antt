-- ===== src/Graph/Builder/Runs/Frame.antt =====
-- What each node leaves of the two keys that count: how often the user was asked, and the steps
-- that were taken.
use chat_aiagent.Prelude.{
  ℕ, ◌+◌, ◌≡◌, inl, inr, refl, String, Bool, Option, none, some, List, Text, Dict, arith,
  Option-cases,
}
use chat_aiagent.Prelude.Json.{Json}
use chat_aiagent.Graph.State.{AgentState, Message, Intent, Thought}
use chat_aiagent.History.{PlanHistory}
use chat_aiagent.Nodes.Metrics.{Metric}
use chat_aiagent.Nodes.Clarify.{clarify}
use chat_aiagent.Nodes.Cache.{ConfigValue, check_plan_cache, query_cache}
use chat_aiagent.Nodes.Intents.{Answers, extract_intent, conclude}
use chat_aiagent.Nodes.Intents.Prompt.{Example}
use chat_aiagent.Nodes.Think.{think}
use chat_aiagent.Nodes.Think.Gather.{Context}
use chat_aiagent.Nodes.Chain.{Response, chain_remediate}
use chat_aiagent.Nodes.Chain
use chat_aiagent.Nodes.Review.{Payload, hitl_step_review, review_reply, analysis_summary}
use chat_aiagent.Nodes.Fix.{Proposal, propose_fix, fix_reply}
use chat_aiagent.Nodes.Loop.{Dispatched, act, observe, finding_of, observed}
use chat_aiagent.Nodes.Report.{report}

pub record Kept (s s' : AgentState) : Type 0 where
  pub attempts : s'.clarification_attempts ≡ s.clarification_attempts
  pub history : s'.step_history ≡ s.step_history

pub extract_intent-Kept :
    (reg : Answers) (examples : List Example) (ratio : Text → Text → ℕ)
    (llm : ℕ → Text → List Message → Option Intent) (s s' : AgentState)
    → extract_intent reg examples ratio llm s ≡ some s'
    → Kept s s'
unfolding extract_intent conclude
extract_intent-Kept reg examples ratio llm s s' h = record {
  attempts = ground arith;
  history = ground arith;
}

pub check_plan_cache-Kept :
    (order_desc : List PlanHistory → List PlanHistory) (show_date : ℕ → Text) (now ttl_days : ℕ)
    (enabled : Option Text) (cfg : Dict ConfigValue) (s : AgentState)
    → Kept s (check_plan_cache order_desc show_date now ttl_days enabled cfg s)
unfolding check_plan_cache query_cache
check_plan_cache-Kept order_desc show_date now ttl_days enabled cfg s = record {
  attempts = ground arith;
  history = ground arith;
}

pub think-Kept :
    (render : Json → Text) (ask : String → Text → Option Context)
    (llm : Text → List Message → Option Thought) (s s' : AgentState)
    → think render ask llm s ≡ some s'
    → Kept s s'
unfolding think
think-Kept render ask llm s s' h = record { attempts = ground arith; history = ground arith }

pub hitl_step_review-Kept :
    (auto_approve collector : Bool) (human : Payload → Text) (s : AgentState)
    → Kept s (hitl_step_review auto_approve collector human s).0
unfolding hitl_step_review review_reply
hitl_step_review-Kept auto_approve collector human s = record {
  attempts = ground arith;
  history = ground arith;
}

pub analysis_summary-Kept :
    (cached : Text → Option Text) (llm : String → Text → Option Text)
    (human : Text → List Text → Text) (s s' : AgentState)
    → analysis_summary cached llm human s ≡ some s'
    → Kept s s'
unfolding analysis_summary
analysis_summary-Kept cached llm human s s' h = record {
  attempts = ground arith;
  history = ground arith;
}

pub propose_fix-Kept :
    (llm : String → Text → Option Text) (collector : Bool) (human : Proposal → Text)
    (s s' : AgentState) (ms : List Metric)
    → propose_fix llm collector human s ≡ some (s', ms)
    → Kept s s'
unfolding propose_fix fix_reply
propose_fix-Kept llm collector human s s' ms h = record {
  attempts = ground arith;
  history = ground arith;
}

pub report-Kept :
    (llm : String → Text → Option Text) (s s' : AgentState) → report llm s ≡ some s' → Kept s s'
unfolding report
report-Kept llm s s' h = record { attempts = ground arith; history = ground arith }

pub act-Kept :
    (dispatch : Option (Option Text → Json → Dispatched)) (s : AgentState) → Kept s (act dispatch s)
unfolding act
act-Kept none s = record { attempts = refl; history = refl }
act-Kept (some d) s = record { attempts = refl; history = refl }

pub chain_remediate-Kept :
    (redis : ℕ → Bool) (loads : Text → Option Json) (thread_id : String)
    (exchange : Text → Option Text) (token : Text) (r : Response) (before : Option Chain.Payload)
    (s : AgentState)
    → Kept s (chain_remediate redis loads thread_id s exchange token r before).0
unfolding chain_remediate
chain_remediate-Kept redis loads thread_id exchange token r before s = record {
  attempts = refl;
  history = refl;
}

-- A question counts the attempts up.
pub attempts-clarify :
    (answer : Text → Text) (s : AgentState)
    → ((clarify answer s).clarification_attempts ≡ s.clarification_attempts + 1)
      × ((clarify answer s).step_history ≡ s.step_history)
unfolding clarify
attempts-clarify answer s = (ground arith, ground arith)

-- An observation that is made is `observed`.
pub observe_lem :
    (render : Json → Text) (llm : String → Text → Option Text) (s s' : AgentState)
    → observe render llm s ≡ some s'
    → (finding : Text) × (s' ≡ observed render finding s)
unfolding observe
observe_lem render llm s s' h = elim (Option-cases (finding_of render llm s)) [
  | inl e ↦ absurd (ground arith)
  | inr (finding, e) ↦ (finding, ground arith)
]
