-- ===== src/Worker/Tests.antt =====
-- Runs of the worker over a table of one step.
use chat_aiagent.Prelude.{
  ◌≡◌, refl, String, true, false, Option, none, some, List, [], ◌∷◌, arith, eq_iff, lookup, insert,
}
use chat_aiagent.Prelude.Json.{Json}
use chat_aiagent.Dispatch.Base.{lease_expired}
use chat_aiagent.Dispatch.Postgres.{
  StepStatus, pending, running, Step, Store, update_step, enqueue, claim, complete, release,
  next_pending_step_id, adapter,
}
use chat_aiagent.Dispatch.Postgres.Lease.{claim_op, run_op, run_ops}
use chat_aiagent.Dispatch.Postgres.Recorded.{Recorded}
use chat_aiagent.Worker.{
  Worker, unfinished, done, new_worker, Call, Round, payload_of, stop,
  next_pending_step_id as next_step, attempted, handled, turn, graceful_shutdown,
}
use chat_aiagent.Worker.Fenced.{lost-turn}
use chat_aiagent.Worker.Finishes.{turn-Recorded}
use chat_aiagent.Worker.Signals.{Moment, go, sigterm, live, start, Same, signals_without_effect}

abbrev row : StepStatus → Option String → Step
row status token = record {
  id = "s1";
  plan_id = some "p1";
  name = "check tunnels";
  tool_name = "get_tunnel_status";
  dependencies = Json.null;
  inputs = Json.null;
  critical = true;
  status = status;
  lock_token = token;
  lock_expires_at = none;
  attempts = 0;
  max_attempts = 3;
}

abbrev fresh : Store
fresh = record { steps = ("s1", row pending none) ∷ []; results = [] }

abbrev held_by : String → Store
held_by w = record { steps = ("s1", row running (some w)) ∷ []; results = [] }

abbrev no_tools : String → Option (Call Store)
no_tools name = none

abbrev a_turn : Round Store
a_turn = record {
  before_poll = λ st. st;
  before_claim = λ st. st;
  before_complete = λ st. (claim 110 "s1" "b" 60 st).0;
  claimed_at = 100;
  completed_at = 120;
}

-- The step is claimed by one worker, while another one tries, and completed by the first.
turn-Recorded_example :
    ((turn adapter no_tools 60 a_turn (new_worker "a") fresh).2 ≡ none)
    × Recorded 120 "s1" "a"
        (payload_of none)
        (claim 110 "s1" "b" 60 (claim 100 "s1" "a" 60 fresh).0).0
        (turn adapter no_tools 60 a_turn (new_worker "a") fresh).1
unfolding new_worker next_step next_pending_step_id claim update_step lookup insert run_ops run_op
turn-Recorded_example =
    turn-Recorded no_tools 60 a_turn (new_worker "a") fresh "s1"
      (record { plan_id = some "p1"; step_id = "s1"; attempt = 1 }) (claim_op 110 "s1" "b" 60 ∷ [])
      refl refl (λ s. refl) (tt, tt)

-- The step is enqueued again and claimed by another worker before the first one completes it.
abbrev a_lost_turn : Round Store
a_lost_turn = record {
  before_poll = λ st. st;
  before_claim = λ st. st;
  before_complete = λ st. (claim 500 "s1" "b" 60 (enqueue "p1" "s1" st)).0;
  claimed_at = 100;
  completed_at = 510;
}

lost-turn_example : turn adapter no_tools 60 a_lost_turn (new_worker "a") fresh ≡ (
  record (new_worker "a") { current_step_id = some "s1"; current_task = some done },
  (claim 500 "s1" "b" 60 (enqueue "p1" "s1" (claim 100 "s1" "a" 60 fresh).0)).0,
  none,
)
unfolding new_worker next_step next_pending_step_id claim update_step enqueue lookup insert
lost-turn_example =
    lost-turn no_tools 60 a_lost_turn (new_worker "a") fresh "s1" "b"
      (record { plan_id = some "p1"; step_id = "s1"; attempt = 1 }) refl refl refl
      (ground (arith, eq_iff "b" "a"))

-- A signal while the step is executed.
abbrev signalled : List (Moment Store)
signalled = go 90 ∷ go 100 ∷ sigterm false ∷ go 120 ∷ []

signals_without_effect_example :
    Same adapter no_tools 60
      (live adapter no_tools 60 signalled (start adapter no_tools 60 "a" fresh))
      (live adapter no_tools 60
        (go 90 ∷ go 100 ∷ go 120 ∷ [])
        (start adapter no_tools 60 "a" fresh))
signals_without_effect_example = signals_without_effect adapter no_tools 60 "a" signalled fresh

-- The Worker that the signal reaches does release its step, where the task does not end in time.
abbrev busy : Worker
busy = record {
  worker_id = "a";
  accepting = true;
  current_task = some unfinished;
  current_step_id = some "s1";
}

shutdown_releases : (graceful_shutdown adapter false busy (held_by "a")).1 ≡ fresh
unfolding graceful_shutdown stop release update_step lookup insert
shutdown_releases = refl

-- Were a message to name an unknown tool after the lease was lost, the completion would raise.
unknown_tool_lost :
    (handled adapter 150 "s1" "a"
      (attempted adapter no_tools 150 "s1" "a" 60 (some "x") (held_by "b"))).1
    ≡ some lease_expired
unfolding attempted handled complete update_step lookup
unknown_tool_lost = refl
