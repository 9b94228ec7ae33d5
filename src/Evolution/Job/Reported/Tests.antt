-- ===== src/Evolution/Job/Reported/Tests.antt =====
-- Ten reported runs of two steps, and the one row that the job makes of them.
use chat_aiagent.Prelude.{
  ℕ, All, ◌≡◌, refl, String, true, false, none, some, List, [], ◌∷◌, Text, codes, decimal,
}
use chat_aiagent.Prelude.Json.{null}
use chat_aiagent.Graph.State.{AgentState, ThoughtActObserve, initial}
use chat_aiagent.History.{PlanStep, PlanHistory, Plan, row_of}
use chat_aiagent.History.Sorting.{sort_desc, sort_desc-IsOrderDesc}
use chat_aiagent.Nodes.Report.{plan_to_save}
use chat_aiagent.Evolution.Patterns.{Library, among, soft_parallel}
use chat_aiagent.Evolution.Job.{run, new_row}
use chat_aiagent.Evolution.Job.Reported.{run-Parallels}
use chat_aiagent.Evolution.Job.Reported.Loose.{IsReported}
use chat_aiagent.Evolution.Job.Reported.Added.{Parallels}

-- All steps in one generation, which is right where there are no edges.
abbrev library : Library
library = record { transitive_closure = λ g. g.edges; topological_generations = λ g. g.nodes ∷ [] }

abbrev step_at : ℕ → Text → ThoughtActObserve
step_at n tool = record {
  step_number = n;
  reasoning = [];
  tool_name = some tool;
  inputs = null;
  tool_output = [];
  finding = [];
}

abbrev state : AgentState
state = record (initial []) {
  intent = some (record {
    action = "check";
    domain = "net";
    confidence = 1000000;
    ambiguous = false;
    ambiguity_reason = [];
  });
  step_history = step_at 1 (codes "ping") ∷ step_at 2 (codes "logs") ∷ [];
}

abbrev saved_step : String → Text → PlanStep
saved_step id tool = record {
  id = some (codes id);
  name = some tool;
  description = none;
  tool_name = some tool;
  dependencies = [];
}

abbrev plan : Plan
plan = record {
  plan_id = "p";
  action = "check";
  domain = "net";
  intent_text = [];
  entities = [];
  steps = saved_step "s1" (codes "ping") ∷ saved_step "s2" (codes "logs") ∷ [];
  tool_results =
      (codes "s1", record { status = "completed"; finding = [] })
      ∷ (codes "s2", record { status = "completed"; finding = [] })
      ∷ [];
  outcome = "COMPLETED";
  tenant_id = none;
  user_id = none;
}

saved_plan : plan_to_save "p" none none state ≡ some plan
unfolding plan_to_save decimal
saved_plan = refl

abbrev row : PlanHistory
row = row_of (λ t. t) 1 700000 plan

row-IsReported : IsReported row
row-IsReported = record {
  plan_id = "p";
  tenant_id = none;
  user_id = none;
  state = state;
  plan = plan;
  scrub = λ t. t;
  id = 1;
  now = 700000;
  saved = saved_plan;
  is_row = refl;
}

abbrev ten : List PlanHistory
ten = row ∷ row ∷ row ∷ row ∷ row ∷ row ∷ row ∷ row ∷ row ∷ row ∷ []

ten-IsReported : All IsReported ten
ten-IsReported = (
  row-IsReported,
  (
    row-IsReported,
    (
      row-IsReported,
      (
        row-IsReported,
        (
          row-IsReported,
          (
            row-IsReported,
            (row-IsReported, (row-IsReported, (row-IsReported, (row-IsReported, tt)))),
          ),
        ),
      ),
    ),
  ),
)

-- The job does write a row here, of the two tools that stand in one round.
ten_runs : run library sort_desc "check" "net" ten [] ≡ (
  new_row "check" "net" (soft_parallel (codes "logs" ∷ codes "ping" ∷ []) (among 10 10)) ∷ [],
  true,
)
unfolding run sort_desc
ten_runs = refl

run-Parallels_example : Parallels [] (run library sort_desc "check" "net" ten []).0
run-Parallels_example =
    run-Parallels library (λ g e. e) "check" "net" [] sort_desc ten sort_desc-IsOrderDesc
      ten-IsReported
