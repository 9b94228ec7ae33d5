-- ===== src/Nodes/Loop.antt =====
-- agent/nodes/act.py and agent/nodes/observe.py: a tool is called, and its output summarised to a
-- finding. The policy gate around `act` is no part of the repository (Graph/Builder/Runs leaves
-- its result open).
pub mod Steps
use chat_aiagent.Prelude.{
  ℕ, ◌+◌, String, Bool, true, false, not, ◌||◌, Option, none, some, List, [], ◌∷◌, ◌++◌, Text,
  codes, length, or_else, text_or, ◌=s=◌, if◌then◌else◌,
}
use chat_aiagent.Prelude.Json.{Json, null, bool, num, str, arr, obj, nil, cons, end, field}
use chat_aiagent.Graph.State.{
  AgentState, Thought, ThoughtActObserve, ActResult, Phase, analysis, remediation,
}

-- What `dispatch_with_url` comes to: an output and the tool's URL, or the text of an exception.
pub data Dispatched : Type 0 where
  returned : Json → Option String → Dispatched
  raised : Text → Dispatched

-- `thought.get("tool_name", default)`: a thought has the key, with None for no tool.
abbrev pub tool_name_of : Text → Option Thought → Option Text
tool_name_of default none = some default
tool_name_of default (some t) = t.tool_name

abbrev pub inputs_of : Option Thought → Json
inputs_of none = obj end
inputs_of (some t) = t.inputs

abbrev pub reasoning_of : Option Thought → Text
reasoning_of none = []
reasoning_of (some t) = t.reasoning

abbrev completed : Json → Option String → ActResult
completed output api_url = record {
  status = "completed";
  output = some output;
  error = none;
  api_url = api_url;
}

abbrev failed : Text → ActResult
failed error = record { status = "failed"; output = none; error = some error; api_url = none }

abbrev result_of : Dispatched → ActResult
result_of (returned output api_url) = completed output api_url
result_of (raised error) = failed error

-- `dispatcher` is none where the configuration has no `tool_dispatcher`.
unfoldable pub act : Option (Option Text → Json → Dispatched) → AgentState → AgentState
act none s = record s { last_act_result = some (failed (codes "no dispatcher configured")) }
act (some dispatch) s = record s {
  last_act_result =
      some (result_of (dispatch (tool_name_of [] s.current_thought) (inputs_of s.current_thought)));
}

-- The truth value of a JSON value in Python.
abbrev pub truthy_json : Json → Bool
truthy_json null = false
truthy_json (bool b) = b
truthy_json (num n) = not (n =s= "0" || n =s= "0.0" || n =s= "-0.0")
truthy_json (str []) = false
truthy_json (str (c ∷ t)) = true
truthy_json (arr nil) = false
truthy_json (arr (cons v vs)) = true
truthy_json (obj end) = false
truthy_json (obj (field k v fs)) = true

abbrev error_text : Option Text → Text
error_text e = text_or (or_else e []) (codes "(no output)")

abbrev output_text : (Json → Text) → Option Json → Option Text → Text
output_text render none error = error_text error
output_text render (some j) error = if truthy_json j then render j else error_text error

-- `act_result.get("output") or act_result.get("error") or "(no output)"`, as it is printed
abbrev raw_output : (Json → Text) → Option ActResult → Text
raw_output render none = codes "(no output)"
raw_output render (some r) = output_text render r.output r.error

-- `f"{tool_name}"`
abbrev pub shown_tool : Option Text → Text
shown_tool none = codes "None"
shown_tool (some t) = t

observe_prompt : Option Text → Text → Text
observe_prompt tool raw =
    codes "Tool called: '"
    ++ (shown_tool tool
        ++ (codes "'\nRaw output:\n"
            ++ (raw
                ++ codes
                    "\n\nState the single most important finding from this output in one concise sentence. Be specific — include key values (status, IDs, metrics) that matter for the investigation.")))

abbrev pub is_analysis : Option Phase → Bool
is_analysis (some analysis) = true
is_analysis _ = false

-- The record that `observe` appends, and the state with its updates.
abbrev tao : (Json → Text) → Text → AgentState → ThoughtActObserve
tao render finding s = record {
  step_number = length s.step_history + 1;
  reasoning = reasoning_of s.current_thought;
  tool_name = tool_name_of (codes "unknown") s.current_thought;
  inputs = inputs_of s.current_thought;
  tool_output = raw_output render s.last_act_result;
  finding = finding;
}

abbrev pub observed : (Json → Text) → Text → AgentState → AgentState
observed render finding s = record s {
  step_history = s.step_history ++ tao render finding s ∷ [];
  last_act_result = none;
  analysis_findings =
      if is_analysis s.phase then s.analysis_findings ++ finding ∷ [] else s.analysis_findings;
}

-- `render` is Python's `str` on a tool's output; `llm` may raise.
unfoldable pub finding_of : (Json → Text) → (String → Text → Option Text) → AgentState → Option Text
unfolding observe_prompt
finding_of render llm s =
    llm "You are an SRE analysis assistant. Summarise tool output into a single finding." (
      observe_prompt (tool_name_of (codes "unknown") s.current_thought)
        (raw_output render s.last_act_result))

unfoldable pub observe :
    (Json → Text) → (String → Text → Option Text) → AgentState → Option AgentState
unfolding finding_of
observe render llm s = elim (finding_of render llm s) [
  | none ↦ none
  | some finding ↦ some (observed render finding s)
]
