-- ===== src/Graph/Routes.antt =====
-- agent/graph/routes.py. A route returns the label of an edge, as the string of the source.
use chat_aiagent.Prelude.{
  ℕ, String, Bool, true, false, ◌&&◌, ◌||◌, Option, none, some, List, [], ◌∷◌, Text, codes, is_in,
  strip, lower, ltb, or_else, if◌then◌else◌,
}
use chat_aiagent.Graph.State.{AgentState, Thought, Signal, analysis_done, remediation_done, truthy}

abbrev pub approvals : List Text
approvals =
    codes "yes"
    ∷ codes "y"
    ∷ codes "approve"
    ∷ codes "approved"
    ∷ codes "ok"
    ∷ codes "okay"
    ∷ codes "proceed"
    ∷ codes "sure"
    ∷ codes "go"
    ∷ codes "go ahead"
    ∷ []

abbrev pub rejections : List Text
rejections =
    codes "no"
    ∷ codes "n"
    ∷ codes "reject"
    ∷ codes "rejected"
    ∷ codes "cancel"
    ∷ codes "stop"
    ∷ codes "abort"
    ∷ []

-- `(state.get("hitl_response") or "").strip().lower()`
abbrev pub response : AgentState → Text
response s = lower (strip (or_else s.hitl_response []))

-- `thought.get("signal")`, where a missing thought is an empty dict
abbrev pub signal_of : Option Thought → Option Signal
signal_of none = none
signal_of (some t) = t.signal

-- 0.7, in millionths
abbrev pub min_confidence : ℕ
min_confidence = 700000

unfoldable pub route_intent : AgentState → String
route_intent s = elim s.intent [
  | none ↦ "end"
  | some intent ↦
      if (intent.ambiguous || ltb intent.confidence min_confidence)
        && ltb s.clarification_attempts 2
      then "clarify"
      else "check_plan_cache"
]

unfoldable pub route_cache : AgentState → String
route_cache s = if or_else s.plan_cache_hit false then "propose_fix" else "think"

abbrev pub route_signal : Option Signal → String
route_signal (some analysis_done) = "analysis_summary"
route_signal (some remediation_done) = "report"
route_signal none = "act"

unfoldable pub route_hitl_step_review : AgentState → String
route_hitl_step_review s =
    if truthy s.hitl_feedback
    then "think"
    else if is_in (response s) rejections
    then "end"
    else route_signal (signal_of s.current_thought)

unfoldable pub route_analysis_summary : AgentState → String
route_analysis_summary s = if is_in (response s) approvals then "propose_fix" else "end"

-- `state.get("plan_cache_hit") is False`
abbrev pub is_false : Option Bool → Bool
is_false (some false) = true
is_false _ = false

unfoldable pub route_propose_fix : AgentState → String
route_propose_fix s =
    if truthy s.hitl_feedback
    then "propose_fix"
    else if is_in (response s) rejections
    then (if is_false s.plan_cache_hit then "think" else "end")
    else "report"
