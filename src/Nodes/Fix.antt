-- ===== src/Nodes/Fix.antt =====
-- agent/nodes/propose_fix.py: the proposed fix and its review.
pub mod Verdict
mod Tests
use chat_aiagent.Prelude.{
  String, Bool, true, false, ◌&&◌, ◌||◌, not, Option, none, some, List, [], ◌∷◌, ◌++◌, Text, codes,
  is_in, strip, lower, starts_with, drop, or_else, text_or, if◌then◌else◌,
}
use chat_aiagent.Graph.State.{AgentState, remediation, analysis, truthy}
use chat_aiagent.Graph.Routes.{rejections}
use chat_aiagent.Nodes.Metrics.{
  Metric, hitl_approve, hitl_reject, hitl_modify, finish_escalated, when_collected,
}
use chat_aiagent.Nodes.Review.{findings_block}

-- This node's own list: "go" and "go ahead" are not in it.
abbrev pub approvals : List Text
approvals =
    codes "yes"
    ∷ codes "y"
    ∷ codes "approve"
    ∷ codes "approved"
    ∷ codes "ok"
    ∷ codes "okay"
    ∷ codes "proceed"
    ∷ codes "sure"
    ∷ []

-- What the interrupt shows.
pub record Proposal : Type 0 where
  pub fix_proposal : Text
  pub based_on_findings : List Text
  pub cache_hit : Bool
  pub message : String

fix_prompt : AgentState → Text
unfolding findings_block
fix_prompt s =
    codes
      "Create a numbered list of concrete fix steps based on the analysis findings below.\n\nAnalysis findings:\n"
    ++ (findings_block [] "(no findings)" s.analysis_findings
        ++ (if truthy s.hitl_feedback
            then codes "\n\nHuman feedback on previous proposal: "
              ++ (or_else s.hitl_feedback [] ++ codes "\nRevise accordingly.")
            else []))

-- A cache hit with no feedback presents the stored plan; else the model is asked, which may raise.
unfoldable pub fix_text : (String → Text → Option Text) → AgentState → Option Text
unfolding fix_prompt
fix_text llm s =
    if or_else s.plan_cache_hit false && not (truthy s.hitl_feedback)
    then some (text_or (or_else s.cached_plan_proposal []) (codes "(cached plan unavailable)"))
    else llm "You are proposing a remediation plan based on analysis findings." (fix_prompt s)

abbrev answered : Text → Text → Option Text → AgentState → AgentState
answered reply fix feedback s = record s {
  hitl_response = some reply;
  hitl_feedback = feedback;
  remediation_plan = some fix;
}

abbrev modified : Text → Text → Text → AgentState → AgentState
modified reply fix feedback s = record s {
  hitl_response = some reply;
  hitl_feedback = some feedback;
  remediation_plan = some fix;
  plan_cache_hit = some false;
  cached_plan_proposal = none;
}

abbrev approved : Text → Text → AgentState → AgentState
approved reply fix s = record s {
  hitl_response = some reply;
  hitl_feedback = none;
  remediation_plan = some fix;
  phase = some remediation;
}

abbrev fall_back : Text → Text → AgentState → AgentState
fall_back reply fix s = record s {
  hitl_response = some reply;
  hitl_feedback = none;
  remediation_plan = some fix;
  plan_cache_hit = some false;
  cached_plan_proposal = none;
  phase = some analysis;
}

pub data Key : Type 0 where
  approve reject modify : Key

-- `hitl_key`
key_of : Text → Key
key_of r = if is_in r approvals then approve else if is_in r rejections then reject else modify

abbrev outcome : Key → Metric
outcome approve = hitl_approve
outcome reject = hitl_reject
outcome modify = hitl_modify

abbrev is_modify : Key → Bool
is_modify modify = true
is_modify _ = false

abbrev feedback_of : Text → Text → Text
feedback_of r reply = if starts_with r (codes "modify") then strip (drop 6 reply) else strip reply

-- The returns behind the one for a modification, by the key and `cache_hit`.
conclude : Key → Bool → Text → Text → AgentState → AgentState × List Metric
conclude approve hit fix reply s = (approved reply fix s, hitl_approve ∷ [])
conclude key true fix reply s = (fall_back reply fix s, outcome key ∷ [])
conclude key false fix reply s = (answered reply fix none s, outcome key ∷ finish_escalated ∷ [])

-- What follows the interrupt: `reply` is the human's answer, `collector` whether metrics are kept.
unfoldable pub fix_reply : Bool → Text → Text → AgentState → AgentState × List Metric
unfolding conclude key_of
fix_reply collector fix reply s =
    let r = lower (strip reply) in
    let key = key_of r in
    let (s', metrics) =
      if is_modify key || starts_with r (codes "modify")
      then (modified reply fix (feedback_of r reply) s, outcome key ∷ [])
      else conclude key (or_else s.plan_cache_hit false) fix reply s in
    (s', when_collected collector metrics)

unfoldable pub propose_fix :
    (String → Text → Option Text)
    → Bool
    → (Proposal → Text)
    → AgentState
    → Option (AgentState × List Metric)
unfolding fix_text fix_reply
propose_fix llm collector human s = elim (fix_text llm s) [
  | none ↦ none
  | some fix ↦ some (
      fix_reply collector fix
        (human (record {
          fix_proposal = fix;
          based_on_findings = s.analysis_findings;
          cache_hit = or_else s.plan_cache_hit false;
          message = "Proposed fix above. Approve / Modify <feedback> / Reject";
        }))
        s)
]
