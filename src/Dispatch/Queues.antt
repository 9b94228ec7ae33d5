-- ===== src/Dispatch/Queues.antt =====
-- worker_agent/dispatch/sqs.py and worker_agent/dispatch/pubsub.py: the adapters over a message queue.
-- What an adapter keeps is the dictionary from a step to the receipt of its message. What it asks of
-- the service is the list of its calls, in order, which are taken to return; the message that
-- a call receives is an argument.
pub mod Sqs
pub mod Pubsub
pub mod Acks
mod Tests
use chat_aiagent.Prelude.{
  ℕ, ◌+◌, String, Bool, true, false, not, Option, none, some, List, [], ◌∷◌, ◌++◌, Dict, lookup,
  insert, erase, is_some, count, ◌=s=◌, if◌then◌else◌,
}
use chat_aiagent.Dispatch.Base.{StepMessage, Error, backend}

-- A received message: what its body holds, and its receipt handle or ack id.
pub record Received : Type 0 where
  pub plan_id : String
  pub step_id : String
  pub receipt : String

-- A call of the service: `visibility` sets how long a message stays hidden from other receivers.
pub data Call : Type 0 where
  send : String → String → Call
  receive : Call
  visibility : String → ℕ → Call
  acknowledge : String → Call

-- The return value of `claim`.
abbrev pub message_of : Received → StepMessage
message_of m = record { plan_id = some m.plan_id; step_id = m.step_id; attempt = 1 }

-- An operation, with the message that its call receives.
pub data Op : Type 0 where
  enqueue_op : String → String → Op
  claim_op : ℕ → Option Received → Op
  extend_op : String → ℕ → Op
  complete_op : String → Op
  release_op : String → Op
