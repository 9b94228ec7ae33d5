-- ===== src/Nodes/Chain/Findings.antt =====
-- agent/nodes/chain_remediate.py: the text that is sent to the remediation agent.
use chat_aiagent.Prelude.{
  String, Option, none, some, List, [], ◌∷◌, ◌++◌, map, Text, codes, newline, join, or_else,
}
use chat_aiagent.Graph.State.{AgentState, Intent, ThoughtActObserve}
use chat_aiagent.Nodes.Loop.{shown_tool}

abbrev pub action_of : String → Option Intent → String
action_of default none = default
action_of default (some i) = i.action

abbrev pub domain_of : String → Option Intent → String
domain_of default none = default
domain_of default (some i) = i.domain

pub finding_lines : List Text → Text
finding_lines [] = []
finding_lines (f ∷ fs) =
    codes "Analysis findings:\n"
    ++ (join newline (map (λ g. codes "  - " ++ g) (f ∷ fs)) ++ codes "\n\n")

pub tool_line : ThoughtActObserve → Text
tool_line s = codes "  [" ++ (shown_tool s.tool_name ++ (codes "]: " ++ s.finding))

step_lines : List ThoughtActObserve → Text
unfolding tool_line
step_lines [] = []
step_lines (s ∷ ss) =
    codes "Tool steps:\n" ++ (join newline (map tool_line (s ∷ ss)) ++ codes "\n\n")

pub plan_part : Text → Text
plan_part [] = []
plan_part (c ∷ t) = codes "Proposed remediation:\n  " ++ ((c ∷ t) ++ codes "\n\n")

report_part : Text → Text
report_part [] = []
report_part (c ∷ t) = codes "SRE report:\n  " ++ (c ∷ t)

unfoldable pub findings_text : AgentState → Text
unfolding finding_lines step_lines plan_part report_part
findings_text s =
    codes "Intent: "
    ++ (codes (action_of "investigation" s.intent)
        ++ (codes "\nDomain: "
            ++ (codes (domain_of "unknown" s.intent)
                ++ (codes "\n\n"
                    ++ (finding_lines s.analysis_findings
                        ++ (step_lines s.step_history
                            ++ (plan_part (or_else s.remediation_plan [])
                                ++ report_part (or_else s.report []))))))))
