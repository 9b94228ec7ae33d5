-- ===== src/Worker.antt =====
-- worker_agent/worker/main.py: the process that polls an adapter for steps, executes them and
-- completes them. The adapter is any implementation of the interface, over its own state. What
-- other processes do to that state is an argument at each point where the worker awaits. TOOL_REGISTRY
-- is an argument; what a tool does is what it returns, and what happens while it runs.
pub mod Fenced
pub mod Finishes
pub mod Signals
mod Tests
use chat_aiagent.Prelude.{
  ℕ, String, Bool, true, false, ◌&&◌, not, Option, none, some, List, [], ◌∷◌, ◌++◌, Text, codes,
  ◌=s=◌, if◌then◌else◌, is_some,
}
use chat_aiagent.Prelude.Json.{Json}
use chat_aiagent.Dispatch.Base.{
  completed, failed, StepMessage, StepResultPayload, Error, lease_expired, backend, DispatchAdapter,
}

-- A running task; its end is what drains it.
pub data Task : Type 0 where
  unfinished done : Task

pub record Worker : Type 0 where
  pub worker_id : String
  pub accepting : Bool
  pub current_task : Option Task
  pub current_step_id : Option String

unfoldable pub new_worker : String → Worker
new_worker w = record {
  worker_id = w;
  accepting = true;
  current_task = none;
  current_step_id = none;
}

unfoldable pub stop : Worker → Worker
stop w = record w { accepting = false }

-- What happens while a tool runs: the timer of the heartbeat fires, or another process acts.
pub data Event (S : Type 0) : Type 0 where
  heartbeat : ℕ → Event S
  others : (S → S) → Event S

pub data Outcome : Type 0 where
  returned : Json → Outcome
  raised : Text → Outcome

pub record Call (S : Type 0) : Type 0 where
  pub events : List (Event S)
  pub outcome : Outcome

-- What leaves the `try` of execute_and_complete.
pub data Raised : Type 0 where
  unknown_tool : Text → Raised
  dispatch : Error → Raised
  tool_error : Text → Raised

abbrev pub payload_of : Option Json → StepResultPayload
payload_of output = record { status = completed; output = output; error = none }

abbrev pub failure : Text → StepResultPayload
failure t = record { status = failed; output = none; error = some t }

-- getattr(msg, "tool_name", None): the message has no such attribute.
unfoldable pub tool_name : StepMessage → Option String
tool_name m = none

abbrev pub unknown : String → Text
unknown name = codes "No tool registered for '" ++ (codes name ++ codes "'")

-- What one poll meets: what others do before the poll, between the poll and the claim, and between
-- the claim and the completion; the clock at the claim and at the completion.
pub record Round (S : Type 0) : Type 0 where
  pub before_poll : S → S
  pub before_claim : S → S
  pub before_complete : S → S
  pub claimed_at : ℕ
  pub completed_at : ℕ

module _ {S : Type 0} (a : DispatchAdapter S) where
  unfoldable pub next_pending_step_id : S → Option String
  next_pending_step_id st = elim a.next_pending_step_id [
    | none ↦ some "__push__"
    | some poll ↦ poll st
  ]

  -- The heartbeat ends, in a task that nobody awaits, once the lease is not held.
  unfoldable pub heartbeat_task : String → String → ℕ → Bool → List (Event S) → S → S
  heartbeat_task k w secs alive [] st = st
  heartbeat_task k w secs alive (others f ∷ es) st = heartbeat_task k w secs alive es (f st)
  heartbeat_task k w secs false (heartbeat now ∷ es) st = heartbeat_task k w secs false es st
  heartbeat_task k w secs true (heartbeat now ∷ es) st =
      let (st', still_held) = a.extend now k w secs st in heartbeat_task k w secs still_held es st'

  abbrev pub raising : S × Option Error → S × Option Raised
  raising (st, none) = (st, none)
  raising (st, some e) = (st, some (dispatch e))

  abbrev pub after_tool : ℕ → String → String → Outcome → S → S × Option Raised
  after_tool now k w (returned output) st =
      raising (a.complete now k w (payload_of (some output)) st)
  after_tool now k w (raised t) st = (st, some (tool_error t))

  abbrev pub with_tool : ℕ → String → String → ℕ → String → Option (Call S) → S → S × Option Raised
  with_tool now k w secs name none st = (st, some (unknown_tool (unknown name)))
  with_tool now k w secs name (some call) st =
      after_tool now k w call.outcome (heartbeat_task k w secs true call.events st)

  abbrev pub without_tool : ℕ → String → String → S → S × Option Raised
  without_tool now k w st = raising (a.complete now k w (payload_of none) st)

  -- The body of the `try`. Without a tool nothing is awaited before the completion.
  unfoldable pub attempted :
      (String → Option (Call S)) → ℕ → String → String → ℕ → Option String → S → S × Option Raised
  attempted tools now k w secs none st = without_tool now k w st
  attempted tools now k w secs (some name) st =
      if name =s= "" then without_tool now k w st else with_tool now k w secs name (tools name) st

  -- The `except` clauses; an error of the completion in the first of them leaves the function.
  unfoldable pub handled : ℕ → String → String → S × Option Raised → S × Option Error
  handled now k w (st, none) = (st, none)
  handled now k w (st, some (unknown_tool t)) = a.complete now k w (failure t) st
  handled now k w (st, some (dispatch lease_expired)) = (st, none)
  handled now k w (st, some (dispatch backend)) = ((a.release k w st).0, none)
  handled now k w (st, some (tool_error t)) = ((a.release k w st).0, none)

  -- The whole function: `now` is the clock at the completion. No message has a `tool_name`, so the path
  -- without a tool is the one that is taken.
  unfoldable pub execute_and_complete :
      (String → Option (Call S)) → ℕ → StepMessage → String → ℕ → S → S × Option Error
  unfolding attempted handled tool_name
  execute_and_complete tools now m w secs st =
      handled now m.step_id w (attempted tools now m.step_id w secs (tool_name m) st)

  -- What the loop does with the answer of the claim.
  unfoldable pub run_claimed :
      (String → Option (Call S))
      → ℕ
      → Round S
      → Option StepMessage
      → Worker
      → S
      → Worker × S × Option Error
  unfolding execute_and_complete
  run_claimed tools secs r none worker st = (worker, st, none)
  run_claimed tools secs r (some m) worker st =
      let (st', e) =
        execute_and_complete tools r.completed_at m worker.worker_id secs (r.before_complete st) in
      (record worker { current_step_id = some m.step_id; current_task = some done }, st', e)

  -- One turn of the loop of run_worker.
  unfoldable pub turn :
      (String → Option (Call S)) → ℕ → Round S → Worker → S → Worker × S × Option Error
  unfolding next_pending_step_id run_claimed
  turn tools secs r worker st = elim (next_pending_step_id (r.before_poll st)) [
    | none ↦ (worker, r.before_poll st, none)
    | some k ↦
        let (st', m) =
          a.claim r.claimed_at k worker.worker_id secs (r.before_claim (r.before_poll st)) in
        run_claimed tools secs r m worker st'
  ]

  abbrev pub drained : Bool → Worker → S → S
  drained in_time worker st = elim worker.current_task [
    | some unfinished ↦ if in_time then st else elim worker.current_step_id [
      | none ↦ st
      | some k ↦ if k =s= "" then st else (a.release k worker.worker_id st).0
    ]
    | _ ↦ st
  ]

  -- `in_time`: the task ends within DRAIN_TIMEOUT.
  unfoldable pub graceful_shutdown : Bool → Worker → S → Worker × S
  unfolding stop
  graceful_shutdown in_time worker st = (stop worker, drained in_time worker st)
