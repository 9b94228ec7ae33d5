-- ===== src/Nodes/Think/Prompt.antt =====
-- agent/nodes/think.py: `_build_prompt`, part by part, and the chunks for the evaluation.
use chat_aiagent.Prelude.{
  ℕ, ◌+◌, String, not, Option, none, some, List, [], ◌∷◌, ◌++◌, map, Text, codes, is_in, newline,
  join, filter, or_else, ◌=s=◌, if◌then◌else◌, decimal,
}
use chat_aiagent.Prelude.Json.{Json}
use chat_aiagent.Graph.State.{AgentState, Intent, Phase, analysis, remediation, ThoughtActObserve}
use chat_aiagent.Registry.Base.{Playbook, PlaybookRule, ToolRecord, record_signature}
use chat_aiagent.Nodes.Loop.{shown_tool}
use chat_aiagent.Nodes.Review.{findings_block}
use chat_aiagent.Nodes.Think.Gather.{
  Context, fetch_context, user_message, extract_tool_hints, hinted_tools, already_called,
}

tool_line : ToolRecord → Text
unfolding record_signature
tool_line t = codes "  " ++ (t.tool_name ++ (codes "(" ++ (record_signature t ++ codes ")")))

unfoldable pub tool_block : List ToolRecord → Text
unfolding tool_line
tool_block [] = codes "  (no tools registered)"
tool_block (t ∷ ts) = join newline (map tool_line (t ∷ ts))

phase_part : Phase → Text
phase_part analysis =
    codes
      "You are in the ANALYSIS phase. Call tools to gather evidence, then set signal=ANALYSIS_DONE once you have enough findings to explain the root cause."
phase_part remediation =
    codes
      "You are in the REMEDIATION phase. Call tools to apply fixes, then set signal=REMEDIATION_DONE once all fixes are applied."

abbrev domain_of : Option Intent → Option String
domain_of none = none
domain_of (some i) = some i.domain

-- `domain or 'unknown'`
abbrev shown_domain : Option String → Text
shown_domain none = codes "unknown"
shown_domain (some d) = if d =s= "" then codes "unknown" else codes d

abbrev action_of : String → Option Intent → Text
action_of default none = codes default
action_of default (some i) = codes i.action

sourcing_part : Text
sourcing_part =
    codes
      "The user's request is in the conversation messages below. Derive all tool inputs from the conversation, prior tool outputs, and the sourcing rules in the tool signatures:\n  - 'discover by calling X': call X first, extract from its output.\n  - 'always VALUE' or 'do not ask user': use that constant as-is.\n  - Anything else: read it from the user's message."

abbrev blank_line : Text
blank_line = codes "\n\n"

numbered_chunks : ℕ → List Text → List Text
numbered_chunks i [] = []
numbered_chunks i (t ∷ ts) =
    (codes "  [" ++ (decimal (i + 1) ++ (codes "] " ++ t))) ∷ numbered_chunks (i + 1) ts

rag_parts : List Text → List Text
unfolding numbered_chunks
rag_parts [] = []
rag_parts (t ∷ ts) =
    (codes "Reference material (from knowledge base — use to inform reasoning):\n"
      ++ join blank_line (numbered_chunks 0 (t ∷ ts)))
    ∷ []

-- What is left of the recommended tools.
unfoldable pub remaining : List Text → List Text → List Text
remaining hints called = filter (λ h. not (is_in h called)) hints

still_part : List Text → Text
still_part [] = codes "\nAll recommended tools have been called — emit ANALYSIS_DONE."
still_part (h ∷ hs) = codes "\nStill to call: " ++ join (codes ", ") (h ∷ hs)

called_part : List Text → Text
called_part [] = []
called_part (t ∷ ts) = codes "\n\nAlready called: " ++ join (codes ", ") (t ∷ ts)

hint_parts : List Text → List Text → List Text
unfolding still_part called_part remaining
hint_parts [] called = []
hint_parts (h ∷ hs) called =
    (codes "Recommended tool sequence (from playbook):\n"
      ++ (join newline (map (λ t. codes "  - " ++ t) (h ∷ hs))
          ++ (called_part called ++ still_part (remaining (h ∷ hs) called))))
    ∷ []

playbook_parts : Option Playbook → List Text → List Text
unfolding hint_parts
playbook_parts none called = []
playbook_parts (some p) called = hint_parts (extract_tool_hints p) called

step_line : (Json → Text) → ThoughtActObserve → Text
step_line render s =
    codes "  Step "
    ++ (decimal s.step_number
        ++ (codes ": "
            ++ (shown_tool s.tool_name
                ++ (codes "(" ++ (render s.inputs ++ (codes ") → " ++ s.finding))))))

history_parts : (Json → Text) → List ThoughtActObserve → List Text → List Text
unfolding step_line
history_parts render [] called = []
history_parts render (s ∷ ss) called =
    (codes "Steps taken so far:\n" ++ join newline (map (step_line render) (s ∷ ss)))
    ∷ (codes "IMPORTANT: You have already called: "
        ++ (join (codes ", ") called
            ++ codes
                ". Do NOT call a tool you have already called with the same inputs — you already have that data. Either call a different tool or emit the completion signal."))
    ∷ []

finding_parts : List Text → List Text
unfolding findings_block
finding_parts [] = []
finding_parts (f ∷ fs) =
    (codes "Analysis findings:\n" ++ findings_block (codes "  ") "" (f ∷ fs)) ∷ []

feedback_parts : Option Text → List Text
feedback_parts (some (c ∷ t)) =
    (codes "Human feedback on your last proposal: "
      ++ ((c ∷ t) ++ codes "\nRevise your next thought accordingly."))
    ∷ []
feedback_parts _ = []

closing_part : Text
closing_part =
    codes
      "Produce a Thought with: reasoning (why this tool), tool_name, and inputs. IMPORTANT: tool_name must be exactly ONE tool name — never a comma-separated list. Call tools one at a time; the graph will loop back for subsequent calls. OR set signal=ANALYSIS_DONE (analysis phase complete) / REMEDIATION_DONE (all fixes applied) with reasoning explaining what was found/done, and leave tool_name empty."

-- The parts of the prompt, for what has been fetched and the names already called.
prompt_parts : (Json → Text) → AgentState → Context → List Text → List Text
unfolding phase_part sourcing_part rag_parts playbook_parts history_parts finding_parts
    feedback_parts closing_part hinted_tools tool_block
prompt_parts render s c called =
    (codes "You are a ReAct agent investigating: "
      ++ (action_of "unknown" s.intent
          ++ (codes " in domain: " ++ (shown_domain (domain_of s.intent) ++ codes "."))))
    ∷ phase_part (or_else s.phase analysis)
    ∷ sourcing_part
    ∷ (rag_parts c.rag_chunks
        ++ ((codes "Available tools:\n" ++ tool_block (hinted_tools s.intent c.intents c.tools))
            ∷ (playbook_parts c.playbook called
                ++ (history_parts render s.step_history called
                    ++ (finding_parts s.analysis_findings
                        ++ (feedback_parts s.hitl_feedback ++ closing_part ∷ []))))))

-- The prompt with the tools and the playbook, none where a registry call raises, or where a name in
-- the history is None.
unfoldable pub build_prompt :
    (Json → Text)
    → (String → Text → Option Context)
    → AgentState
    → Option (Text × List ToolRecord × Option Playbook)
unfolding prompt_parts user_message fetch_context hinted_tools already_called
build_prompt render ask s =
    elim (fetch_context ask (domain_of s.intent) (user_message s.messages)) [
      | none ↦ none
      | some c ↦ elim (already_called s.step_history) [
        | none ↦ none
        | some called ↦ some (
          join blank_line (prompt_parts render s c called),
          hinted_tools s.intent c.intents c.tools,
          c.playbook,
        )
      ]
    ]

chunk_of_tool : ToolRecord → Text
chunk_of_tool t = t.tool_name ++ (codes ": " ++ or_else t.output_description (codes "None"))

chunk_of_rule : PlaybookRule → Text
chunk_of_rule r = r.id ++ (codes ": " ++ r.description)

-- `_build_context_chunks`, for the evaluation of the retrieval.
unfoldable pub context_chunks : List ToolRecord → Option Playbook → List Text
unfolding chunk_of_tool chunk_of_rule
context_chunks tools none = map chunk_of_tool tools
context_chunks tools (some p) = map chunk_of_tool tools ++ map chunk_of_rule p.rules
