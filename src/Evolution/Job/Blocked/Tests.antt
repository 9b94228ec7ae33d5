-- ===== src/Evolution/Job/Blocked/Tests.antt =====
-- A pair of tools that was rejected, and another pair that is never suggested for it.
use chat_aiagent.Prelude.{
  ◌≡◌, refl, String, false, none, some, List, [], ◌∷◌, Text, codes, filter, length,
}
use chat_aiagent.History.{PlanStep, PlanHistory, row_of}
use chat_aiagent.Evolution.Patterns.{Library, among, Candidate, soft_parallel}
use chat_aiagent.Evolution.Job.{PlaybookSuggestion, rejected, new_row, write_suggestions, run}
use chat_aiagent.Evolution.Job.Blocked.{is_parallel, parallels_blocked}

abbrev settled : PlaybookSuggestion
settled = record {
  action = "check";
  domain = "net";
  rule_type = "soft_parallel";
  before_tool = none;
  after_tool = none;
  tools = some (codes "ping" ∷ codes "trace" ∷ []);
  frequency = among 9 10;
  status = rejected;
}

abbrev other_pair : Candidate
other_pair = soft_parallel (codes "logs" ∷ codes "routes" ∷ []) (among 10 10)

-- All steps in one generation, which is right where there are no edges.
abbrev library : Library
library = record { transitive_closure = λ g. g.edges; topological_generations = λ g. g.nodes ∷ [] }

abbrev saved_step : String → Text → PlanStep
saved_step id tool = record {
  id = some (codes id);
  name = some tool;
  description = none;
  tool_name = some tool;
  dependencies = [];
}

-- A completed plan of two steps that wait for no other.
abbrev completed : PlanHistory
completed =
    row_of (λ t. t) 1 700000
      (record {
        plan_id = "p";
        action = "check";
        domain = "net";
        intent_text = [];
        entities = [];
        steps = saved_step "s1" (codes "logs") ∷ saved_step "s2" (codes "routes") ∷ [];
        tool_results = [];
        outcome = "COMPLETED";
        tenant_id = none;
        user_id = none;
      })

abbrev ten : List PlanHistory
ten =
    completed ∷ completed ∷ completed ∷ completed ∷ completed ∷ completed ∷ completed ∷ completed
    ∷ completed ∷ completed ∷ []

-- Without the settled row the job writes the other pair.
written_unsettled : length (run library (λ rs. rs) "check" "net" ten []).0 ≡ 1
unfolding run
written_unsettled = refl

parallels_blocked_example :
    filter is_parallel (run library (λ rs. rs) "check" "net" ten (settled ∷ [])).0
    ≡ filter is_parallel (settled ∷ [])
parallels_blocked_example =
    parallels_blocked "check" "net" (codes "ping" ∷ codes "trace" ∷ []) (among 9 10) library
      (λ rs. rs) ten (settled ∷ []) refl

-- A suggestion that still waits is written again beside itself.
written_twice :
    (write_suggestions "check" "net" (other_pair ∷ []) (new_row "check" "net" other_pair ∷ [])).0
    ≡ new_row "check" "net" other_pair ∷ new_row "check" "net" other_pair ∷ []
unfolding write_suggestions
written_twice = refl

-- Of two settled rows for one candidate the query raises.
settled_twice :
    write_suggestions "check" "net" (other_pair ∷ []) (settled ∷ settled ∷ [])
    ≡ (settled ∷ settled ∷ [], false)
unfolding write_suggestions
settled_twice = refl
