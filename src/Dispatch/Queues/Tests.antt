-- ===== src/Dispatch/Queues/Tests.antt =====
-- A message that is claimed, completed and completed again.
use chat_aiagent.Prelude.{◌≡◌, ◌≤◌, refl, some, List, [], ◌∷◌, lookup, insert, erase}
use chat_aiagent.Dispatch.Queues.{Received, receive, acknowledge, Op, claim_op, complete_op}
use chat_aiagent.Dispatch.Queues.Sqs
use chat_aiagent.Dispatch.Queues.Acks.{acks, receipts, run_ops, acks-sqs}

abbrev message : Received
message = record { plan_id = "p1"; step_id = "s1"; receipt = "h1" }

abbrev twice : List Op
twice = claim_op 60 (some message) ∷ complete_op "s1" ∷ complete_op "s1" ∷ []

twice_calls : (run_ops Sqs.run twice []).1 ≡ receive ∷ acknowledge "h1" ∷ []
unfolding run_ops Sqs.claim Sqs.complete lookup insert erase
twice_calls = refl

acks-sqs_example : acks "h1" (run_ops Sqs.run twice []).1 ≤ receipts "h1" twice
acks-sqs_example = acks-sqs "h1" twice
