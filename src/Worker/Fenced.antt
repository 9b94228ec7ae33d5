-- ===== src/Worker/Fenced.antt =====
-- A worker that has lost its step between the claim and the completion, over the Postgres adapter.
use chat_aiagent.Prelude.{ℕ, ◌≡◌, ◌≢◌, String, Option, none, some, arith}
use chat_aiagent.Dispatch.Base.{StepMessage}
use chat_aiagent.Dispatch.Postgres.{Store, adapter, claim}
use chat_aiagent.Dispatch.Postgres.Lease.{Held}
use chat_aiagent.Dispatch.Postgres.Outcomes.{stale_worker}
use chat_aiagent.Worker.{
  Worker, Call, Round, done, payload_of, tool_name, attempted, handled, execute_and_complete,
  next_pending_step_id, run_claimed, turn,
}
use chat_aiagent.Worker.Finishes.{claim-step_id, turn_claimed}

lost_message :
    (tools : String → Option (Call Store)) (secs : ℕ) (r : Round Store) (k v : String)
    (m : StepMessage) (worker : Worker) (st : Store)
    → m.step_id ≡ k
    → Held v k (r.before_complete st)
    → v ≢ worker.worker_id
    → run_claimed adapter tools secs r (some m) worker st ≡ (
      record worker { current_step_id = some m.step_id; current_task = some done },
      r.before_complete st,
      none,
    )
unfolding run_claimed execute_and_complete attempted handled tool_name
lost_message tools secs r k v m worker st e h ne = ground (
  arith,
  (stale_worker v worker.worker_id k r.completed_at 0 (payload_of none) (r.before_complete st) h
      ne).0,
)

-- A turn of the loop that is given a pending step, and whose claim of it succeeds, but whose step
-- another worker holds by the time of the completion, writes nothing more: the step and the results
-- stay as the others left them, and the loop goes on without an error.
pub lost-turn :
    (tools : String → Option (Call Store)) (secs : ℕ) (r : Round Store) (worker : Worker)
    (st : Store) (k v : String) (m : StepMessage)
    → next_pending_step_id adapter (r.before_poll st) ≡ some k
    → (claim r.claimed_at k worker.worker_id secs (r.before_claim (r.before_poll st))).1 ≡ some m
    → Held v k (
        r.before_complete
          (claim r.claimed_at k worker.worker_id secs (r.before_claim (r.before_poll st))).0)
    → v ≢ worker.worker_id
    → turn adapter tools secs r worker st ≡ (
      record worker { current_step_id = some m.step_id; current_task = some done },
      r.before_complete
          (claim r.claimed_at k worker.worker_id secs (r.before_claim (r.before_poll st))).0,
      none,
    )
lost-turn tools secs r worker st k v m poll got h ne =
    let w = worker.worker_id in
    let begun = claim r.claimed_at k w secs (r.before_claim (r.before_poll st)) in
    rw (turn_claimed tools secs r worker st k m poll got) (
      lost_message tools secs r k v m worker begun.0
        (claim-step_id r.claimed_at secs k w (r.before_claim (r.before_poll st)) m got) h ne)
