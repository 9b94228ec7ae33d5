-- ===== src/Nodes/Intents/Tests.antt =====
-- An action that is close to a registered name.
use chat_aiagent.Prelude.{
  ℕ, ◌≡◌, ◌⊎◌, ◌≤◌, refl, String, true, false, none, some, List, [], ◌∷◌, Text, codes, lower, All,
  if◌then◌else◌, text_eq, lookup, insert,
}
use chat_aiagent.Graph.State.{AgentState, Intent, initial}
use chat_aiagent.Registry.Base.{IntentSummary}
use chat_aiagent.Nodes.Intents.{
  Answers, member, cosine_nearest, check_action, corrected, names_of, valid_intents, pin, concluded,
  conclude,
}
use chat_aiagent.Nodes.Intents.Nearest.{cosine_nearest_lem}
use chat_aiagent.Nodes.Intents.Checked.{IsChecked, IsPinned, conclude_lem}

-- 1 where the texts agree, else 0.9.
abbrev close : Text → Text → ℕ
close a b = if text_eq a b then 1000000 else 900000

abbrev names : List String
names = "restart" ∷ "diagnose" ∷ []

nearest_pair :
    let (name, score) = cosine_nearest close "Diagnose" "restart" ("diagnose" ∷ []) in
    (member name names ≡ true)
    × All (λ n. close (lower (codes "Diagnose")) (lower (codes n)) ≤ score) names
    × ((score ≡ 0) ⊎ (score ≡ close (lower (codes "Diagnose")) (lower (codes name))))
nearest_pair = cosine_nearest_lem close "Diagnose" "restart" ("diagnose" ∷ [])

abbrev registered : List IntentSummary
registered =
    record { action = "restart"; description = none; input_schema = []; tool_hints = [] }
    ∷ record { action = "diagnose"; description = none; input_schema = []; tool_hints = [] }
    ∷ []

abbrev registry : Answers
registry = record {
  search_domains = λ t. [];
  get_intents = λ d. some registered;
  get_playbook = λ d. some none;
}

abbrev heard : Intent
heard = record {
  action = "diagnos";
  domain = "network";
  confidence = 900000;
  ambiguous = false;
  ambiguity_reason = [];
}

registered_valid : valid_intents registry [] "network" ≡ some registered
unfolding valid_intents
registered_valid = refl

abbrev after : AgentState
after = concluded (corrected "restart" heard) (("network", "") ∷ []) (initial [])

heard_concluded : conclude registry close [] heard (initial []) ≡ some after
unfolding conclude check_action pin valid_intents cosine_nearest lookup lower insert
heard_concluded = refl

conclude_example :
    (j : Intent) × (after.intent ≡ some j)
    × (j.domain ≡ "network")
    × IsChecked (names_of registered) j
    × IsPinned "network" [] after.playbook_version_pin
conclude_example =
    conclude_lem registry close [] heard (initial []) after registered registered_valid
      heard_concluded
