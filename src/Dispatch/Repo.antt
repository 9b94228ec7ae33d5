-- ===== src/Dispatch/Repo.antt =====
-- worker_agent/persistence/repo.py over the tables of worker_agent/persistence/models.py: the reader of
-- plans and steps, and the results of a step. The rows of a table are in the order of their ids.
pub mod Latest
use chat_aiagent.Prelude.{
  ℕ, String, Bool, true, false, Option, none, some, List, [], ◌∷◌, ◌++◌, Text, Dict, lookup, insert,
  ◌=s=◌, if◌then◌else◌,
}
use chat_aiagent.Prelude.Json.{Json}
use chat_aiagent.Dispatch.Base.{StepResultPayload}
use chat_aiagent.Dispatch.Postgres.{Step, StepResult, Store, finished}

pub record Plan : Type 0 where
  pub id : String
  pub thread_id : String
  pub status : String
  pub cot_trace : Option Text
  pub content : Option Json
  pub created_at : Option ℕ
  pub updated_at : Option ℕ

unfoldable pub get_plan : String → Dict Plan → Option Plan
unfolding lookup
get_plan plan_id plans = lookup plan_id plans

unfoldable pub get_step : String → Store → Option Step
unfolding lookup
get_step step_id st = lookup step_id st.steps

abbrev pub written : String → StepResultPayload → Option String → ℕ → StepResult
written step_id p worker_id attempt = record {
  step_id = step_id;
  attempt = attempt;
  status = p.status;
  output = p.output;
  error = p.error;
  finished_at = none;
  worker_id = worker_id;
}

-- A result of a step that is missing is refused by its foreign key; none stands for the exception of
-- the flush.
unfoldable pub write_result : String → StepResultPayload → Option String → Store → Option Store
write_result step_id p worker_id st = elim (lookup step_id st.steps) [
  | none ↦ none
  | some r ↦ some (record {
    steps = insert step_id (record r { status = finished p.status }) st.steps;
    results = st.results ++ written step_id p worker_id r.attempts ∷ [];
  })
]

-- The last row of a step.
abbrev pub latest : String → List StepResult → Option StepResult
latest step_id [] = none
latest step_id (r ∷ rs) = elim (latest step_id rs) [
  | some q ↦ some q
  | none ↦ if r.step_id =s= step_id then some r else none
]

unfoldable pub get_step_result : String → Store → Option StepResult
get_step_result step_id st = latest step_id st.results
