-- ===== src/Dispatch/Postgres.antt =====
-- worker_agent/dispatch/postgres.py over the tables `steps` and `step_results` of
-- worker_agent/persistence/models.py. The table `steps` is keyed by its primary key, so an UPDATE
-- with `id = $1` in its WHERE clause touches one row or none. Times are in seconds.
mod Update
pub mod Lease
pub mod Outcomes
pub mod Recorded
pub mod AtMostOnce
pub mod Attempts
mod Tests
use chat_aiagent.Prelude.{
  ℕ, suc, ◌+◌, String, Bool, true, false, ◌&&◌, ◌||◌, Option, none, some, List, [], ◌∷◌, ◌++◌, Text,
  Dict, lookup, insert, ltb, ◌=s=◌, if◌then◌else◌, is_some,
}
use chat_aiagent.Prelude.Json.{Json}
use chat_aiagent.Dispatch.Base.{
  ResultStatus, completed, failed, skipped, StepMessage, StepResultPayload, Error, lease_expired,
  backend, DispatchAdapter,
}

pub data StepStatus : Type 0 where
  pending running : StepStatus
  finished : ResultStatus → StepStatus

pub record Step : Type 0 where
  pub id : String
  pub plan_id : Option String
  pub name : String
  pub tool_name : String
  pub dependencies : Json
  pub inputs : Json
  pub critical : Bool
  pub status : StepStatus
  pub lock_token : Option String
  pub lock_expires_at : Option ℕ
  pub attempts : ℕ
  pub max_attempts : ℕ

pub record StepResult : Type 0 where
  pub step_id : String
  pub attempt : ℕ
  pub status : ResultStatus
  pub output : Option Json
  pub error : Option Text
  pub finished_at : Option ℕ
  pub worker_id : Option String

pub record Store : Type 0 where
  pub steps : Dict Step
  pub results : List StepResult

abbrev pub is_pending : StepStatus → Bool
is_pending pending = true
is_pending _ = false

-- A comparison with NULL is not true.
abbrev pub is_token : Option String → String → Bool
is_token none w = false
is_token (some t) w = t =s= w

abbrev pub is_expired : Option ℕ → ℕ → Bool
is_expired none now = false
is_expired (some t) now = ltb t now

-- UPDATE steps SET … WHERE id = $1 AND …: the table, and the row that was updated, if one was.
unfoldable pub update_step :
    String → (Step → Bool) → (Step → Step) → Dict Step → Dict Step × Option Step
update_step k where_clause set_clause steps = elim (lookup k steps) [
  | none ↦ (steps, none)
  | some r ↦
      if where_clause r then (insert k (set_clause r) steps, some (set_clause r)) else (steps, none)
]

next_pending : Dict Step → Option String
next_pending [] = none
next_pending ((k, r) ∷ steps) =
    let rest = next_pending steps in if is_pending r.status then some k else rest

-- SELECT id FROM steps WHERE status='PENDING' LIMIT 1, in the order of the table.
unfoldable pub next_pending_step_id : Store → Option String
unfolding next_pending
next_pending_step_id st = next_pending st.steps

unfoldable pub enqueue : String → String → Store → Store
enqueue plan_id step_id st = record st {
  steps = (update_step step_id (λ r. true) (λ r. record r { status = pending }) st.steps).0;
}

abbrev pub is_claimable : ℕ → Step → Bool
is_claimable now r =
    is_pending r.status && (if is_some r.lock_token then is_expired r.lock_expires_at now else true)

abbrev pub claimed : ℕ → String → ℕ → Step → Step
claimed now worker_id lease_secs r = record r {
  status = running;
  lock_token = some worker_id;
  lock_expires_at = some (now + lease_secs);
  attempts = r.attempts + 1;
}

abbrev message_of : String → Option Step → Option StepMessage
message_of k none = none
message_of k (some r) = some (record { plan_id = r.plan_id; step_id = k; attempt = r.attempts })

unfoldable pub claim : ℕ → String → String → ℕ → Store → Store × Option StepMessage
claim now step_id worker_id lease_secs st =
    let (steps, row) =
      update_step step_id (is_claimable now) (claimed now worker_id lease_secs) st.steps in
    (record st { steps = steps }, message_of step_id row)

-- lock_token=$2
abbrev pub holds : String → Step → Bool
holds worker_id r = is_token r.lock_token worker_id

abbrev pub renewed : ℕ → ℕ → Step → Step
renewed now lease_secs r = record r { lock_expires_at = some (now + lease_secs) }

unfoldable pub extend : ℕ → String → String → ℕ → Store → Store × Bool
extend now step_id worker_id lease_secs st =
    let (steps, row) = update_step step_id (holds worker_id) (renewed now lease_secs) st.steps in
    (record st { steps = steps }, is_some row)

abbrev pub released : StepStatus → Step → Step
released status r = record r { status = status; lock_token = none; lock_expires_at = none }

abbrev pub result_row : ℕ → String → String → StepResultPayload → ℕ → StepResult
result_row now step_id worker_id p attempt = record {
  step_id = step_id;
  attempt = attempt;
  status = p.status;
  output = p.output;
  error = p.error;
  finished_at = some now;
  worker_id = some worker_id;
}

-- The transaction of `complete`: the INSERT, whose subquery is NULL where the step is missing, which
-- the column `attempt` refuses; then the UPDATE, and LeaseExpiredError where it updates no row.
-- What leaves the block by an exception is rolled back.
unfoldable pub complete : ℕ → String → String → StepResultPayload → Store → Store × Option Error
complete now step_id worker_id p st = elim (lookup step_id st.steps) [
  | none ↦ (st, some backend)
  | some r ↦
      let (steps, row) =
        update_step step_id (holds worker_id) (released (finished p.status)) st.steps in
      if is_some row
      then (
        record {
          steps = steps;
          results = st.results ++ result_row now step_id worker_id p r.attempts ∷ [];
        },
        none,
      )
      else (st, some lease_expired)
]

unfoldable pub release : String → String → Store → Store
release step_id worker_id st = record st {
  steps = (update_step step_id (holds worker_id) (released pending) st.steps).0;
}

abbrev pub adapter : DispatchAdapter Store
adapter = record {
  enqueue = λ p k st. (enqueue p k st, none);
  claim = claim;
  extend = extend;
  complete = complete;
  release = λ k w st. (release k w st, none);
  next_pending_step_id = some next_pending_step_id;
}
