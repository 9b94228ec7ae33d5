-- ===== src/Nodes/Intents/Prompt.antt =====
-- agent/nodes/extract_intent.py: the prompt of the classifier.
use chat_aiagent.Prelude.{
  String, Bool, some, List, [], ◌∷◌, ◌++◌, Text, codes, newline, join, map, or_else, text_or,
  filter, not, is_empty_text, if◌then◌else◌,
}
use chat_aiagent.Registry.Base.{IntentSummary, DomainRecord}

-- A few-shot example.
pub record Example : Type 0 where
  pub query : Text
  pub domain : String
  pub action : String
  pub ambiguous : Bool
  pub ambiguity_reason : Text

example_lines : Example → List Text
example_lines ex =
    (codes "  Query: \"" ++ (ex.query ++ codes "\""))
    ∷ (codes "  → domain="
        ++ (codes ex.domain
            ++ (codes ", action="
                ++ (codes ex.action
                    ++ (if ex.ambiguous
                        then codes " (ambiguous: " ++ (ex.ambiguity_reason ++ codes ")")
                        else [])))))
    ∷ []

all_lines : List Example → List Text
unfolding example_lines
all_lines [] = []
all_lines (ex ∷ exs) = example_lines ex ++ all_lines exs

unfoldable pub format_few_shot_examples : List Example → Text
unfolding all_lines
format_few_shot_examples [] = []
format_few_shot_examples (ex ∷ exs) = join newline (codes "\nExamples:" ∷ all_lines (ex ∷ exs))

intent_text : IntentSummary → Text
intent_text i = elim i.description [
  | some (c ∷ t) ↦ codes i.action ++ (codes ": " ++ (c ∷ t))
  | _ ↦ codes i.action
]

-- The line of a domain: its hint, or its name where it has none, and its intents.
domain_line : DomainRecord → Text
unfolding intent_text
domain_line rec =
    codes "  "
    ++ (codes rec.name
        ++ (codes ": "
            ++ (text_or (or_else rec.hint []) (codes rec.name)
                ++ (codes "\n    valid intents: "
                    ++ text_or (join (codes ", ") (map intent_text rec.intents))
                        (codes "(no intents registered)")))))

abbrev name_text : DomainRecord → Text
name_text r = codes r.name

unfoldable pub intent_prompt : List Example → List DomainRecord → Text
unfolding domain_line format_few_shot_examples
intent_prompt examples rag = join newline (
    filter (λ t. not (is_empty_text t))
      (codes
          "You are an intent classifier. Given the conversation, identify the user's primary action and domain."
        ∷ (codes "Valid domains: " ++ join (codes ", ") (map name_text rag))
        ∷ codes "Domain descriptions and valid intents:"
        ∷ join newline (map domain_line rag)
        ∷ codes "domain MUST be one of the valid domains listed above."
        ∷ codes "action MUST be one of the valid intents listed for the resolved domain."
        ∷ codes
            "If the intent is unclear, set ambiguous=true and populate ambiguity_reason with a single sentence explaining what information is missing."
        ∷ format_few_shot_examples examples
        ∷ []))
