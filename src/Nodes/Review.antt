-- ===== src/Nodes/Review.antt =====
-- agent/nodes/hitl_step_review.py and agent/nodes/analysis_summary.py: the reviews by a human.
pub mod Verdict
mod Tests
use chat_aiagent.Prelude.{
  ℕ, ◌+◌, String, Bool, true, false, not, ◌&&◌, ◌||◌, Option, none, some, List, [], ◌∷◌, ◌++◌, Text,
  codes, is_in, decimal, newline, join, text_or, strip, lower, starts_with, drop, length, or_else,
  if◌then◌else◌,
}
use chat_aiagent.Prelude.Json.{Json, end}
use chat_aiagent.Graph.State.{
  AgentState, Thought, Phase, analysis, Signal, analysis_done, remediation_done,
}
use chat_aiagent.Graph.Routes.{approvals, rejections, signal_of}
use chat_aiagent.Nodes.Metrics.{Metric, hitl_reject, finish_escalated, when_collected}

-- What the interrupt shows.
pub record Payload : Type 0 where
  pub phase : Phase
  pub step_number : ℕ
  pub reasoning : Text
  pub proposed_action : Option (Option Text × Json)
  pub signal : Option Signal
  pub message : String

abbrev reasoning_of : Option Thought → Text
reasoning_of none = []
reasoning_of (some t) = t.reasoning

abbrev tool_of : Option Thought → Option Text
tool_of none = none
tool_of (some t) = t.tool_name

abbrev inputs_of : Option Thought → Json
inputs_of none = Json.obj end
inputs_of (some t) = t.inputs

abbrev message_for : Option Signal → String
message_for (some analysis_done) = "Analysis complete. Proceed to summary? (approve / reject)"
message_for (some remediation_done) =
    "Remediation complete. Generate final report? (approve / reject)"
message_for none = "Approve / Modify <feedback> / Reject"

abbrev action_for : Option Signal → Option Thought → Option (Option Text × Json)
action_for (some _) t = none
action_for none t = some (tool_of t, inputs_of t)

unfoldable pub review_payload : AgentState → Payload
review_payload s = record {
  phase = or_else s.phase analysis;
  step_number = length s.step_history + 1;
  reasoning = reasoning_of s.current_thought;
  proposed_action = action_for (signal_of s.current_thought) s.current_thought;
  signal = signal_of s.current_thought;
  message = message_for (signal_of s.current_thought);
}

abbrev answered : Text → Option Text → AgentState → AgentState
answered reply feedback s = record s { hitl_response = some reply; hitl_feedback = feedback }

-- What follows the interrupt: `reply` is the human's answer. The word "modify" is looked for in the
-- stripped lower-case answer, and its length cut off the answer as it was typed.
unfoldable pub review_reply : Bool → Text → AgentState → AgentState × List Metric
review_reply collector reply s =
    let r = lower (strip reply) in
    if starts_with r (codes "modify")
    then (answered reply (some (strip (drop 6 reply))) s, [])
    else if not (is_in r approvals) && not (is_in r rejections)
    then (answered reply (some (strip reply)) s, [])
    else if is_in r rejections
    then (answered reply none s, when_collected collector (hitl_reject ∷ finish_escalated ∷ []))
    else (answered reply none s, [])

-- `human` answers what the interrupt shows.
unfoldable pub hitl_step_review :
    Bool → Bool → (Payload → Text) → AgentState → AgentState × List Metric
unfolding review_reply review_payload
hitl_step_review auto_approve collector human s =
    if auto_approve
    then (answered (codes "approve") none s, [])
    else review_reply collector (human (review_payload s)) s

-- `f"{i+1}. {f}"` for each finding, behind an indent.
abbrev numbered : Text → ℕ → List Text → List Text
numbered indent i [] = []
numbered indent i (f ∷ fs) =
    (indent ++ (decimal (i + 1) ++ (codes ". " ++ f))) ∷ numbered indent (i + 1) fs

-- The block of findings that the prompts show, or what stands for none of them.
unfoldable pub findings_block : Text → String → List Text → Text
findings_block indent empty findings =
    text_or (join newline (numbered indent 0 findings)) (codes empty)

abbrev summary_prompt : Text → Text
summary_prompt block =
    codes
      "Given the findings below, synthesize a clear root cause analysis in 2-3 sentences.\n\nFindings:\n"
    ++ block

-- `if cached: summary = cached`, else the model is asked.
abbrev summary_of : Option Text → Option Text → Option Text
summary_of (some (c ∷ t)) asked = some (c ∷ t)
summary_of (some []) asked = asked
summary_of none asked = asked

-- `cached` is what Redis holds under the hash of the findings, none on a miss or an error; the text
-- that is put there after a call of the model is read back by later runs only.
unfoldable pub analysis_summary :
    (Text → Option Text)
    → (String → Text → Option Text)
    → (Text → List Text → Text)
    → AgentState
    → Option AgentState
unfolding findings_block
analysis_summary cached llm human s =
    let block = findings_block [] "(no findings recorded)" s.analysis_findings in
    elim (summary_of (cached block)
      (llm "You are summarizing a diagnostic investigation." (summary_prompt block))) [
        | none ↦ none
        | some text ↦ some (record s { hitl_response = some (human text s.analysis_findings) })
      ]
