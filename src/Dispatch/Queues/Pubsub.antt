-- ===== src/Dispatch/Queues/Pubsub.antt =====
-- worker_agent/dispatch/pubsub.py.
use chat_aiagent.Prelude.{
  ℕ, String, Bool, true, false, Option, none, some, List, [], ◌∷◌, Dict, lookup, insert, erase,
  ◌=s=◌, if◌then◌else◌,
}
use chat_aiagent.Dispatch.Base.{StepMessage}
use chat_aiagent.Dispatch.Queues.{
  Received, Call, send, receive, visibility, acknowledge, message_of, Op, enqueue_op, claim_op,
  extend_op, complete_op, release_op,
}

unfoldable pub enqueue : String → String → Dict String → Dict String × List Call
enqueue plan_id step_id r = (r, send plan_id step_id ∷ [])

-- The lease is set by a call of its own, behind the pull.
unfoldable pub claim :
    ℕ → Option Received → Dict String → Dict String × List Call × Option StepMessage
claim lease_secs none r = (r, receive ∷ [], none)
claim lease_secs (some m) r = (
  insert m.step_id m.receipt r,
  receive ∷ visibility m.receipt lease_secs ∷ [],
  some (message_of m),
)

-- `if not ack_id`
unfoldable pub extend : String → ℕ → Dict String → Dict String × List Call × Bool
extend step_id lease_secs r = elim (lookup step_id r) [
  | none ↦ (r, [], false)
  | some ack_id ↦
      if ack_id =s= "" then (r, [], false) else (r, visibility ack_id lease_secs ∷ [], true)
]

-- A missing step is passed over.
unfoldable pub complete : String → Dict String → Dict String × List Call
complete step_id r = elim (lookup step_id r) [
  | none ↦ (r, [])
  | some ack_id ↦ (erase step_id r, acknowledge ack_id ∷ [])
]

unfoldable pub release : String → Dict String → Dict String × List Call
release step_id r = elim (lookup step_id r) [
  | none ↦ (r, [])
  | some ack_id ↦ (erase step_id r, visibility ack_id 0 ∷ [])
]

abbrev pub run : Op → Dict String → Dict String × List Call
run (enqueue_op plan_id step_id) r = enqueue plan_id step_id r
run (claim_op lease_secs m) r = let (r', calls, message) = claim lease_secs m r in (r', calls)
run (extend_op step_id lease_secs) r =
    let (r', calls, ok) = extend step_id lease_secs r in (r', calls)
run (complete_op step_id) r = complete step_id r
run (release_op step_id) r = release step_id r
