-- ===== src/Nodes/Intents.antt =====
-- agent/nodes/extract_intent.py: the intent of the conversation, checked against the registry. The
-- similarity of two names (difflib), which lies between 0 and 1, is a parameter, in millionths; so
-- are the few-shot examples that the file of the environment gives. The metrics are left out.
pub mod Prompt
pub mod Nearest
pub mod Checked
mod Tests
use chat_aiagent.Prelude.{
  ℕ, String, Bool, true, false, not, ◌&&◌, Option, none, some, List, [], ◌∷◌, ◌++◌, Text, Dict,
  lookup, insert, codes, lower, map, reverse, find, any, is_empty, is_some, text_or, ltb, ◌=s=◌,
  if◌then◌else◌,
}
use chat_aiagent.Graph.State.{AgentState, Message, Role, ai, Intent}
use chat_aiagent.Registry.Base.{Playbook, IntentSummary, DomainRecord}
use chat_aiagent.Nodes.Think.Gather.{user_message}
use chat_aiagent.Nodes.Intents.Prompt.{Example, intent_prompt}

-- The loop of `_cosine_nearest`: a candidate replaces the best only with a greater score.
nearest_from : (Text → Text → ℕ) → Text → List String → String × ℕ → String × ℕ
nearest_from ratio a [] best = best
nearest_from ratio a (c ∷ cs) (best, best_score) =
    let score = ratio a (lower (codes c)) in
    nearest_from ratio a cs (if ltb best_score score then (c, score) else (best, best_score))

unfoldable pub cosine_nearest : (Text → Text → ℕ) → String → String → List String → String × ℕ
unfolding nearest_from
cosine_nearest ratio action c cs = nearest_from ratio (lower (codes action)) (c ∷ cs) (c, 0)

abbrev min_similarity : ℕ
min_similarity = 850000

abbrev pub member : String → List String → Bool
member a names = any (λ n. n =s= a) names

pub invalid_reason : Intent → Text
invalid_reason i =
    codes "action '"
    ++ (codes i.action
        ++ (codes "' is not a valid intent for domain '" ++ (codes i.domain ++ codes "'")))

abbrev pub corrected : String → Intent → Intent
corrected name i = record i { action = name }

abbrev pub refused : Intent → Intent
refused i = record i {
  ambiguous = true;
  ambiguity_reason = text_or i.ambiguity_reason (invalid_reason i);
}

-- The check of the action against the registered names: a close one corrects it, else the intent
-- is marked ambiguous.
unfoldable pub check_action : (Text → Text → ℕ) → List String → Intent → Intent
unfolding cosine_nearest
check_action ratio [] i = i
check_action ratio (c ∷ cs) i =
    let (name, score) = cosine_nearest ratio i.action c cs in
    if member i.action (c ∷ cs)
    then i
    else if ltb min_similarity score
    then corrected name i
    else refused i

abbrev is_ai : Message → Bool
is_ai m = elim m.role [ ai ↦ true | _ ↦ false ]

abbrev drop_ai : List Message → List Message
drop_ai [] = []
drop_ai (m ∷ ms) = let rest = drop_ai ms in if is_ai m then rest else m ∷ ms

-- The messages without the trailing ones of the model.
unfoldable pub human_messages : List Message → List Message
human_messages ms = reverse (drop_ai (reverse ms))

-- The call of the model, and one retry where it raises.
abbrev retried : Option Intent → Option Intent → Option Intent
retried (some i) again = some i
retried none again = again

-- What the registry answers: `get_intents` and `get_playbook` are none where they raise.
pub record Answers : Type 0 where
  pub search_domains : Text → List DomainRecord
  pub get_intents : String → Option (List IntentSummary)
  pub get_playbook : String → Option (Option Playbook)

abbrev pub names_of : List IntentSummary → List String
names_of [] = []
names_of (i ∷ is) = i.action ∷ names_of is

-- The intents of the matched domain if it has some, else those of the registry.
unfoldable pub valid_intents : Answers → List DomainRecord → String → Option (List IntentSummary)
valid_intents reg rag domain = elim (find (λ (r : DomainRecord). r.name =s= domain) rag) [
  | none ↦ reg.get_intents domain
  | some matched ↦ if is_empty matched.intents then reg.get_intents domain else some matched.intents
]

abbrev version_of : Option Playbook → String
version_of none = ""
version_of (some p) = p.version

-- A domain is pinned to its playbook's version when it is met for the first time.
unfoldable pub pin : Answers → String → Dict String → Option (Dict String)
pin reg domain pins =
    if is_some (lookup domain pins) then some pins else elim (reg.get_playbook domain) [
      | none ↦ none
      | some playbook ↦ some (insert domain (version_of playbook) pins)
    ]

abbrev pub concluded : Intent → Dict String → AgentState → AgentState
concluded intent pins s = record s { intent = some intent; playbook_version_pin = pins }

-- The part behind the call of the model.
unfoldable pub conclude :
    Answers → (Text → Text → ℕ) → List DomainRecord → Intent → AgentState → Option AgentState
unfolding pin valid_intents
conclude reg ratio rag i s = elim (valid_intents reg rag i.domain) [
  | none ↦ none
  | some is ↦
      let intent = check_action ratio (names_of is) i in
      elim (pin reg intent.domain s.playbook_version_pin) [
        | none ↦ none
        | some pins ↦ some (concluded intent pins s)
      ]
]

-- `llm` is the model with structured output, at the first call and at the retry.
unfoldable pub extract_intent :
    Answers
    → List Example
    → (Text → Text → ℕ)
    → (ℕ → Text → List Message → Option Intent)
    → AgentState
    → Option AgentState
extract_intent reg examples ratio llm s =
    let rag = reg.search_domains (user_message s.messages) in
    if is_empty rag
    then none
    else elim (retried (llm 0 (intent_prompt examples rag) (human_messages s.messages))
        (llm 1 (intent_prompt examples rag) (human_messages s.messages))) [
          | none ↦ none
          | some i ↦ conclude reg ratio rag i s
        ]
