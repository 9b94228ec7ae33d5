-- ===== src/Nodes/Clarify.antt =====
-- agent/nodes/clarify.py: the question that is put to the user when the intent is unclear.
use chat_aiagent.Prelude.{
  ℕ, ◌+◌, Option, none, some, [], ◌∷◌, ◌++◌, Text, codes, leb, if◌then◌else◌,
}
use chat_aiagent.Graph.State.{AgentState, human, ai, Intent}

abbrev pub max_attempts : ℕ
max_attempts = 2

abbrev question_of : Option Intent → Text
question_of none = codes "Could you clarify your request?"
question_of (some intent) = intent.ambiguity_reason

-- `answer` is the user's answer to the question that the interrupt shows.
unfoldable pub clarify : (Text → Text) → AgentState → AgentState
clarify answer s =
    let question = question_of s.intent in
    if leb max_attempts s.clarification_attempts
    then record s { clarification_attempts = s.clarification_attempts + 1 }
    else record s {
      messages =
          s.messages
          ++ record { role = ai; content = question }
            ∷ record { role = human; content = answer question }
            ∷ [];
      clarification_attempts = s.clarification_attempts + 1;
    }
