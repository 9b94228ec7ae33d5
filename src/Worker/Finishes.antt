-- ===== src/Worker/Finishes.antt =====
-- What a worker that keeps its lease achieves, over the Postgres adapter.
use chat_aiagent.Prelude.{
  ℕ, ◌≡◌, inl, inr, refl, String, Option, none, some, List, arith, All, Option-cases,
}
use chat_aiagent.Dispatch.Base.{StepMessage}
use chat_aiagent.Dispatch.Postgres.{
  Store, is_claimable, claimed, update_step, claim, complete, adapter,
}
use chat_aiagent.Dispatch.Postgres.Recorded.{Recorded, complete-Recorded}
use chat_aiagent.Dispatch.Postgres.Lease.{Op, run_ops, Held, Spares, run_ops-Held, claim-Held}
use chat_aiagent.Worker.{
  Worker, Call, Round, done, payload_of, tool_name, attempted, handled, execute_and_complete,
  next_pending_step_id, run_claimed, turn,
}

pub claim-step_id :
    (now secs : ℕ) (k w : String) (st : Store) (m : StepMessage)
    → (claim now k w secs st).1 ≡ some m
    → m.step_id ≡ k
unfolding claim
claim-step_id now secs k w st m e =
    elim (Option-cases (update_step k (is_claimable now) (claimed now w secs) st.steps).1) [
      | inl n ↦ ground (arith, n)
      | inr (r, n) ↦ ground (arith, n)
    ]

run_claimed_message :
    (tools : String → Option (Call Store)) (secs : ℕ) (r : Round Store) (k : String)
    (m : StepMessage) (worker : Worker) (st : Store)
    → m.step_id ≡ k
    → Held worker.worker_id k (r.before_complete st)
    → run_claimed adapter tools secs r (some m) worker st ≡ (
      record worker { current_step_id = some m.step_id; current_task = some done },
      (complete r.completed_at k worker.worker_id (payload_of none) (r.before_complete st)).0,
      none,
    )
unfolding run_claimed execute_and_complete attempted handled tool_name
run_claimed_message tools secs r k m worker st e h = ground (
  arith,
  (complete-Recorded r.completed_at k worker.worker_id (payload_of none) (r.before_complete st)
      h).0,
)

pub turn_claimed :
    (tools : String → Option (Call Store)) (secs : ℕ) (r : Round Store) (worker : Worker)
    (st : Store) (k : String) (m : StepMessage)
    → next_pending_step_id adapter (r.before_poll st) ≡ some k
    → (claim r.claimed_at k worker.worker_id secs (r.before_claim (r.before_poll st))).1 ≡ some m
    → turn adapter tools secs r worker st
      ≡ run_claimed adapter tools secs r
          (some m)
          worker
          (claim r.claimed_at k worker.worker_id secs (r.before_claim (r.before_poll st))).0
unfolding turn
turn_claimed tools secs r worker st k m poll got = ground (arith, poll, got)

-- A turn of the loop that is given a pending step, and whose claim of it succeeds, while the other
-- workers do anything but enqueue the step again or complete or release it in this worker's name,
-- ends with the step completed and its result recorded, once, and no error ends the loop.
pub turn-Recorded :
    (tools : String → Option (Call Store)) (secs : ℕ) (r : Round Store) (worker : Worker)
    (st : Store) (k : String) (m : StepMessage) (ops : List Op)
    → next_pending_step_id adapter (r.before_poll st) ≡ some k
    → (claim r.claimed_at k worker.worker_id secs (r.before_claim (r.before_poll st))).1 ≡ some m
    → ((s : Store) → r.before_complete s ≡ run_ops ops s)
    → All (Spares worker.worker_id k) ops
    → ((turn adapter tools secs r worker st).2 ≡ none)
      × Recorded r.completed_at k worker.worker_id
          (payload_of none)
          (r.before_complete
            (claim r.claimed_at k worker.worker_id secs (r.before_claim (r.before_poll st))).0)
          (turn adapter tools secs r worker st).1
turn-Recorded tools secs r worker st k m ops poll got same s =
    let w = worker.worker_id in
    let begun = claim r.claimed_at k w secs (r.before_claim (r.before_poll st)) in
    let held : Held w k (r.before_complete begun.0) = rw (same begun.0) (
      run_ops-Held w k ops begun.0
        (claim-Held r.claimed_at k w secs (r.before_claim (r.before_poll st)) m got) s) in
    let ran =
      run_claimed_message tools secs r k m worker begun.0
        (claim-step_id r.claimed_at secs k w (r.before_claim (r.before_poll st)) m got) held in
    rw (turn_claimed tools secs r worker st k m poll got) (
      rw ran (
        refl,
        (complete-Recorded r.completed_at k w (payload_of none) (r.before_complete begun.0) held).1,
      ))
