-- ===== src/Nodes/Thoughts.antt =====
-- worker_agent/schemas/react.py: the validators of Thought, which the model's answer passes.
pub mod Laws
mod Tests
use chat_aiagent.Prelude.{
  ℕ, String, Bool, true, false, Option, none, some, List, [], ◌∷◌, Text, strip, before, has_char,
  if◌then◌else◌,
}
use chat_aiagent.Prelude.Json.{Json, str, obj, end}
use chat_aiagent.Graph.State.{Thought, Signal}

-- `name or None`
abbrev pub or_none : Text → Option Text
or_none [] = none
or_none (c ∷ t) = some (c ∷ t)

-- `str(v)` has been taken; 44 is the comma.
unfoldable pub single_tool_only : Option Text → Option Text
single_tool_only none = none
single_tool_only (some v) =
    let name = strip v in or_none (if has_char 44 name then strip (before 44 name) else name)

-- `loads` is json.loads, none where it raises.
unfoldable pub coerce_inputs : (Text → Option Json) → Json → Json
coerce_inputs loads (str t) = elim (loads t) [ some (obj fs) ↦ obj fs | _ ↦ obj end ]
coerce_inputs loads (obj fs) = obj fs
coerce_inputs loads _ = obj end

-- A Thought made from the fields that the model gives.
unfoldable pub validated :
    (Text → Option Json) → Text → Option Text → Json → Option Signal → Thought
unfolding single_tool_only coerce_inputs
validated loads reasoning tool_name inputs signal = record {
  reasoning = reasoning;
  tool_name = single_tool_only tool_name;
  inputs = coerce_inputs loads inputs;
  signal = signal;
}
