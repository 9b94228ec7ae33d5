-- ===== src/Graph/State.antt =====
-- agent/graph/state.py, agent/schemas/intent.py, and the Thought and ThoughtActObserve records of
-- worker_agent/schemas/react.py. A key that may be missing or None is an Option; the two keys that
-- LangGraph adds up (`operator.add`) are lists, empty at first.
use chat_aiagent.Prelude.{ℕ, String, Bool, Option, none, List, [], Text, Dict}
use chat_aiagent.Prelude.Json.{Json}

pub data Role : Type 0 where
  human ai system : Role

pub record Message : Type 0 where
  pub role : Role
  pub content : Text

-- `confidence` is a float in [0, 1], counted here in millionths.
pub record Intent : Type 0 where
  pub action : String
  pub domain : String
  pub confidence : ℕ
  pub ambiguous : Bool
  pub ambiguity_reason : Text

pub data Phase : Type 0 where
  analysis remediation : Phase

pub data Signal : Type 0 where
  analysis_done remediation_done : Signal

pub record Thought : Type 0 where
  pub reasoning : Text
  pub tool_name : Option Text
  pub inputs : Json
  pub signal : Option Signal

-- One record of `step_history`.
pub record ThoughtActObserve : Type 0 where
  pub step_number : ℕ
  pub reasoning : Text
  pub tool_name : Option Text
  pub inputs : Json
  pub tool_output : Text
  pub finding : Text

-- `last_act_result`: what `act` returns, with `status` "completed" or "failed".
pub record ActResult : Type 0 where
  pub status : String
  pub output : Option Json
  pub error : Option Text
  pub api_url : Option String

pub record RemediationResponse : Type 0 where
  pub opa_decision : String
  pub plan : Json

pub record AgentState : Type 0 where
  pub messages : List Message
  pub intent : Option Intent
  pub clarification_attempts : ℕ
  pub report : Option Text
  pub playbook_version_pin : Dict String
  pub plan_cache_hit : Option Bool
  pub cached_plan_proposal : Option Text
  pub hitl_feedback : Option Text
  pub hitl_response : Option Text
  pub phase : Option Phase
  pub current_thought : Option Thought
  pub step_history : List ThoughtActObserve
  pub analysis_findings : List Text
  pub last_act_result : Option ActResult
  pub remediation_plan : Option Text
  pub policy_decision : Option String
  pub policy_step : Option Json
  pub remediation_response : Option RemediationResponse

-- The state that a new thread starts from: the messages of the request, and nothing else.
abbrev pub initial : List Message → AgentState
initial messages = record {
  messages = messages;
  intent = none;
  clarification_attempts = 0;
  report = none;
  playbook_version_pin = [];
  plan_cache_hit = none;
  cached_plan_proposal = none;
  hitl_feedback = none;
  hitl_response = none;
  phase = none;
  current_thought = none;
  step_history = [];
  analysis_findings = [];
  last_act_result = none;
  remediation_plan = none;
  policy_decision = none;
  policy_step = none;
  remediation_response = none;
}

-- The truth value of an optional text: None and "" are false.
abbrev pub truthy : Option Text → Bool
truthy none = Bool.false
truthy (Option.some []) = Bool.false
truthy (Option.some (List.◌∷◌ c s)) = Bool.true
