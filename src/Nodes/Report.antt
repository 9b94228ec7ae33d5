-- ===== src/Nodes/Report.antt =====
-- agent/nodes/report.py: the report of the model, the plan that is kept in the history, and what the
-- collectors are given. The collectors and the push to the registry are plugins of another package:
-- of the push only its outcome is seen here.
use chat_aiagent.Prelude.{
  ◌≡◌, inl, inr, Option-cases, arith, String, Bool, true, false, Option, none, some, List, [], ◌∷◌,
  ◌++◌, Text, codes, decimal, newline, join, map, find, or_else, text_or,
}
use chat_aiagent.Graph.State.{AgentState, Intent, ThoughtActObserve}
use chat_aiagent.History.{PlanStep, ToolResult, Plan}
use chat_aiagent.Nodes.Review.{findings_block}
use chat_aiagent.Nodes.Loop.{shown_tool}
use chat_aiagent.Nodes.Think.Gather.{is_human, content_of}

step_line : ThoughtActObserve → Text
step_line s =
    codes "  Step "
    ++ (decimal s.step_number
        ++ (codes ": " ++ (shown_tool s.tool_name ++ (codes " → " ++ s.finding))))

steps_block : List ThoughtActObserve → Text
unfolding step_line
steps_block steps = text_or (join newline (map step_line steps)) (codes "  (none)")

abbrev subject_of : Option Intent → Text
subject_of none = codes "investigation"
subject_of (some i) = codes i.action

report_prompt : AgentState → Text
unfolding steps_block findings_block
report_prompt s =
    codes "Generate a report for: "
    ++ (subject_of s.intent
        ++ (codes "\n\nAnalysis findings:\n"
            ++ (findings_block (codes "  ") "  (none)" s.analysis_findings
                ++ (codes "\n\nSteps executed:\n"
                    ++ (steps_block s.step_history
                        ++ (codes "\n\nProposed remediation:\n"
                            ++ (text_or (or_else s.remediation_plan [])
                                  (codes "  (none yet — pending approval)")
                                ++ codes
                                    "\n\nWrite a 3-5 sentence summary covering only: what the root cause is and what evidence was gathered. Do NOT mention remediation status, whether steps were applied, or the current state of the system. End the report after describing the root cause and evidence.")))))))

abbrev pub reported : Text → AgentState → AgentState
reported text s = record s { report = some text }

-- `llm` may raise; what follows its call raises nothing that is not swallowed.
unfoldable pub report : (String → Text → Option Text) → AgentState → Option AgentState
unfolding report_prompt
report llm s =
    elim (llm "You are generating a concise SRE incident investigation report." (report_prompt s)) [
      | none ↦ none
      | some text ↦ some (reported text s)
    ]

abbrev step_id : ThoughtActObserve → Text
step_id s = codes "s" ++ decimal s.step_number

abbrev pub plan_step : ThoughtActObserve → PlanStep
plan_step s = record {
  id = some (step_id s);
  name = s.tool_name;
  description = none;
  tool_name = s.tool_name;
  dependencies = [];
}

abbrev tool_result : ThoughtActObserve → Text × ToolResult
tool_result s = (step_id s, record { status = "completed"; finding = s.finding })

-- What `_save_plan_history` passes to `save`, where there is a database; with no intent it saves
-- nothing.
unfoldable pub plan_to_save : String → Option String → Option String → AgentState → Option Plan
plan_to_save plan_id tenant_id user_id s = elim s.intent [
  | none ↦ none
  | some intent ↦ some (record {
    plan_id = plan_id;
    action = intent.action;
    domain = intent.domain;
    intent_text = content_of (find is_human s.messages);
    entities = [];
    steps = map plan_step s.step_history;
    tool_results = map tool_result s.step_history;
    outcome = "COMPLETED";
    tenant_id = tenant_id;
    user_id = user_id;
  })
]

-- What the collectors are given, in order; an exception of `finish` is swallowed.
pub data Recorded : Type 0 where
  evidence : List Text → Recorded
  final_answer : Text → Recorded
  distillation_outcome : Bool → Recorded
  finish_resolved : Recorded

step_finding : ThoughtActObserve → Text
step_finding s =
    codes "Step "
    ++ (decimal s.step_number
        ++ (codes " (" ++ (shown_tool s.tool_name ++ (codes "): " ++ s.finding))))

abbrev of_ragas : Bool → Text → List ThoughtActObserve → List Recorded
of_ragas false text steps = []
of_ragas true text steps = evidence (map step_finding steps) ∷ final_answer text ∷ []

abbrev of_collector : Bool → Bool → List Recorded
of_collector false pushed = []
of_collector true pushed = distillation_outcome pushed ∷ finish_resolved ∷ []

pub record Left : Type 0 where
  pub state : AgentState
  pub saved : Option Plan
  pub recorded : List Recorded

-- The node with all that it leaves: `ragas` and `collector` where the configuration has them, `pushed` the
-- outcome of the push.
unfoldable pub report_left :
    (String → Text → Option Text)
    → Bool
    → Bool
    → Bool
    → String
    → Option String
    → Option String
    → AgentState
    → Option Left
unfolding report_prompt plan_to_save step_finding
report_left llm ragas collector pushed plan_id tenant_id user_id s =
    elim (llm "You are generating a concise SRE incident investigation report." (report_prompt s)) [
      | none ↦ none
      | some text ↦ some (record {
        state = reported text s;
        saved = plan_to_save plan_id tenant_id user_id s;
        recorded = of_ragas ragas text s.step_history ++ of_collector collector pushed;
      })
    ]

abbrev state_of : Option Left → Option AgentState
state_of none = none
state_of (some l) = some l.state

report_left-report :
    (llm : String → Text → Option Text) (ragas collector pushed : Bool) (plan_id : String)
    (tenant_id user_id : Option String) (s : AgentState)
    → state_of (report_left llm ragas collector pushed plan_id tenant_id user_id s) ≡ report llm s
unfolding report_left report
report_left-report llm ragas collector pushed plan_id tenant_id user_id s =
    elim (Option-cases
      (llm "You are generating a concise SRE incident investigation report." (report_prompt s))) [
        | inl e ↦ ground (arith, e)
        | inr (t, e) ↦ ground (arith, e)
      ]
