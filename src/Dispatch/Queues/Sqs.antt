-- ===== src/Dispatch/Queues/Sqs.antt =====
-- worker_agent/dispatch/sqs.py.
use chat_aiagent.Prelude.{
  ℕ, String, Bool, true, false, Option, none, some, List, [], ◌∷◌, Dict, lookup, insert, erase,
  ◌=s=◌, if◌then◌else◌,
}
use chat_aiagent.Dispatch.Base.{StepMessage, Error, backend}
use chat_aiagent.Dispatch.Queues.{
  Received, Call, send, receive, visibility, acknowledge, message_of, Op, enqueue_op, claim_op,
  extend_op, complete_op, release_op,
}

unfoldable pub enqueue : String → String → Dict String → Dict String × List Call
enqueue plan_id step_id r = (r, send plan_id step_id ∷ [])

-- The step that is asked for is not looked at; the lease is passed with the call.
unfoldable pub claim :
    ℕ → Option Received → Dict String → Dict String × List Call × Option StepMessage
claim lease_secs none r = (r, receive ∷ [], none)
claim lease_secs (some m) r = (insert m.step_id m.receipt r, receive ∷ [], some (message_of m))

-- `if not receipt`: a missing receipt, or an empty one
unfoldable pub extend : String → ℕ → Dict String → Dict String × List Call × Bool
extend step_id lease_secs r = elim (lookup step_id r) [
  | none ↦ (r, [], false)
  | some receipt ↦
      if receipt =s= "" then (r, [], false) else (r, visibility receipt lease_secs ∷ [], true)
]

-- The writing of the result is a placeholder that does nothing; `pop` raises KeyError on a missing
-- step.
unfoldable pub complete : String → Dict String → Dict String × List Call × Option Error
complete step_id r = elim (lookup step_id r) [
  | none ↦ (r, [], some backend)
  | some receipt ↦ (erase step_id r, acknowledge receipt ∷ [], none)
]

unfoldable pub release : String → Dict String → Dict String × List Call
release step_id r = elim (lookup step_id r) [
  | none ↦ (r, [])
  | some receipt ↦
      if receipt =s= "" then (erase step_id r, []) else (erase step_id r, visibility receipt 0 ∷ [])
]

abbrev pub run : Op → Dict String → Dict String × List Call
run (enqueue_op plan_id step_id) r = enqueue plan_id step_id r
run (claim_op lease_secs m) r = let (r', calls, message) = claim lease_secs m r in (r', calls)
run (extend_op step_id lease_secs) r =
    let (r', calls, ok) = extend step_id lease_secs r in (r', calls)
run (complete_op step_id) r = let (r', calls, error) = complete step_id r in (r', calls)
run (release_op step_id) r = release step_id r
