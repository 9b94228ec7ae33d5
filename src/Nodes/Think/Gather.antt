-- ===== src/Nodes/Think/Gather.antt =====
-- agent/nodes/think.py: what the prompt is built from: the registry's answers, the tools of the
-- intent, the playbook's hints and the tools that have been called.
pub mod Hints
mod Tests
use chat_aiagent.Prelude.{
  ℕ, ◌+◌, String, Bool, true, false, not, ◌&&◌, ◌||◌, Option, none, some, List, [], ◌∷◌, ◌++◌, map,
  reverse, Text, codes, is_in, newline, join, filter, find, is_empty, or_else, ltb, ◌==◌, ◌=s=◌,
  text_eq, if◌then◌else◌, decimal,
}
use chat_aiagent.Prelude.Json.{Json}
use chat_aiagent.Graph.State.{
  AgentState, Message, Role, human, Intent, Phase, analysis, ThoughtActObserve, truthy,
}
use chat_aiagent.Registry.Base.{Playbook, PlaybookRule, IntentSummary, ToolRecord, record_signature}
use chat_aiagent.Nodes.Loop.{shown_tool}
use chat_aiagent.Nodes.Review.{findings_block}

-- The answers of `search_tools`, `get_playbook`, `get_intents` and `retrieve_rag_context`.
pub record Context : Type 0 where
  pub tools : List ToolRecord
  pub playbook : Option Playbook
  pub intents : List IntentSummary
  pub rag_chunks : List Text

abbrev pub no_context : Context
no_context = record { tools = []; playbook = none; intents = []; rag_chunks = [] }

-- `_fetch_context`: with no domain nothing is asked; `ask` may raise.
unfoldable pub fetch_context :
    (String → Text → Option Context) → Option String → Text → Option Context
fetch_context ask none message = some no_context
fetch_context ask (some domain) message =
    if domain =s= "" then some no_context else ask domain message

abbrev pub is_human : Message → Bool
is_human m = elim m.role [ human ↦ true | _ ↦ false ]

abbrev pub content_of : Option Message → Text
content_of none = []
content_of (some m) = m.content

-- The last message of the human, or "".
unfoldable pub user_message : List Message → Text
user_message ms = content_of (find is_human (reverse ms))

-- One step of the loop over the tools of the rules: what has been seen is what is in the result.
add_hint : Text → List Text → List Text
add_hint tool result = if is_in tool result then result else result ++ tool ∷ []

add_hints : List Text → List Text → List Text
add_hints [] result = result
add_hints (t ∷ ts) result = add_hints ts (add_hint t result)

rule_hints : List PlaybookRule → List Text → List Text
rule_hints [] result = result
rule_hints (r ∷ rs) result = rule_hints rs (add_hints r.tools result)

unfoldable pub extract_tool_hints : Playbook → List Text
unfolding rule_hints add_hints add_hint
extract_tool_hints p = rule_hints p.rules []

-- The tools of the intent's hints, when the intent is registered and has hints.
unfoldable pub hinted_tools : Option Intent → List IntentSummary → List ToolRecord → List ToolRecord
hinted_tools none intents tools = tools
hinted_tools (some intent) intents tools =
    elim (find (λ (i : IntentSummary). i.action =s= intent.action) intents) [
      | none ↦ tools
      | some matched ↦
          if is_empty matched.tool_hints
          then tools
          else filter (λ (t : ToolRecord). is_in t.tool_name matched.tool_hints) tools
    ]

-- `a < b` on texts, by code points, and the sorted list of a set of texts.
text_ltb : Text → Text → Bool
text_ltb s [] = false
text_ltb [] (d ∷ t) = true
text_ltb (c ∷ s) (d ∷ t) = ltb c d || ((c == d) && text_ltb s t)

insert_name : Text → List Text → List Text
unfolding text_ltb
insert_name t [] = t ∷ []
insert_name t (u ∷ us) =
    let rest = insert_name t us in
    if text_eq t u then u ∷ us else if text_ltb t u then t ∷ u ∷ us else u ∷ rest

-- `sorted({s["tool_name"] for s in step_history})`, none where a name is None: None is neither
-- compared with a text nor joined.
unfoldable pub already_called : List ThoughtActObserve → Option (List Text)
unfolding insert_name
already_called [] = some []
already_called (s ∷ ss) = elim s.tool_name [
  | none ↦ none
  | some t ↦ elim (already_called ss) [ none ↦ none | some ts ↦ some (insert_name t ts) ]
]
