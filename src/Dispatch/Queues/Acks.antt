-- ===== src/Dispatch/Queues/Acks.antt =====
-- How often a message is acknowledged.
use chat_aiagent.Prelude.{
  ℕ, ◌+◌, ◌≤◌, ◌≡◌, inl, inr, String, Option, none, some, List, [], ◌∷◌, ◌++◌, Dict, lookup, insert,
  erase, ◌=s=◌, if◌then◌else◌, arith, Bool-cases, Option-cases,
}
use chat_aiagent.Dispatch.Queues.{
  Received, Call, send, receive, visibility, acknowledge, Op, enqueue_op, claim_op, extend_op,
  complete_op, release_op,
}
use chat_aiagent.Dispatch.Queues.Sqs
use chat_aiagent.Dispatch.Queues.Pubsub

-- One where the strings agree.
abbrev one_if : String → String → ℕ
one_if h j = if j =s= h then 1 else 0

-- How often the adapter holds the receipt.
abbrev held : String → Dict String → ℕ
held h [] = 0
held h ((k, j) ∷ r) = one_if h j + held h r

-- How often some calls acknowledge the receipt.
abbrev pub acks : String → List Call → ℕ
acks h [] = 0
acks h (acknowledge j ∷ cs) = one_if h j + acks h cs
acks h (send p k ∷ cs) = acks h cs
acks h (receive ∷ cs) = acks h cs
acks h (visibility j n ∷ cs) = acks h cs

abbrev received_in : String → Option Received → ℕ
received_in h none = 0
received_in h (some m) = one_if h m.receipt

abbrev receipts_of : String → Op → ℕ
receipts_of h (claim_op n m) = received_in h m
receipts_of h _ = 0

-- How often some operations receive a message with the receipt.
abbrev pub receipts : String → List Op → ℕ
receipts h [] = 0
receipts h (o ∷ os) = receipts_of h o + receipts h os

held-insert : (h k j : String) (r : Dict String) → held h (insert k j r) ≤ one_if h j + held h r
unfolding insert
held-insert h k j [] = ground arith
held-insert h k j ((i, v) ∷ r) = ground (arith, held-insert h k j r)

held-erase-le : (h k : String) (r : Dict String) → held h (erase k r) ≤ held h r
unfolding erase
held-erase-le h k [] = ground arith
held-erase-le h k ((i, v) ∷ r) = ground (arith, held-erase-le h k r)

held-erase :
    (h k j : String) (r : Dict String)
    → lookup k r ≡ some j
    → one_if h j + held h (erase k r) ≤ held h r
unfolding erase lookup
held-erase h k j [] e = absurd (ground arith)
held-erase h k j ((i, v) ∷ r) e = elim (Bool-cases (i =s= k)) [
  | inl b ↦ ground (arith, held-erase-le h k r)
  | inr b ↦ ground (arith, held-erase h k j r)
]

acks-append : (h : String) (cs ds : List Call) → acks h (cs ++ ds) ≡ acks h cs + acks h ds
acks-append h [] ds = omega arith
acks-append h (acknowledge j ∷ cs) ds = omega (arith, acks-append h cs ds)
acks-append h (send p k ∷ cs) ds = acks-append h cs ds
acks-append h (receive ∷ cs) ds = acks-append h cs ds
acks-append h (visibility j n ∷ cs) ds = acks-append h cs ds

-- An operation that acknowledges no receipt more often than it lets go of it or receives it.
abbrev Bounded : String → ℕ → Dict String → Dict String × List Call → Type 0
Bounded h n r (r', calls) = acks h calls + held h r' ≤ n + held h r

-- The operations in a row, with all their calls.
unfoldable pub run_ops :
    (Op → Dict String → Dict String × List Call) → List Op → Dict String → Dict String × List Call
run_ops run [] r = (r, [])
run_ops run (o ∷ os) r =
    let (r', calls) = run o r in let (r'', later) = run_ops run os r' in (r'', calls ++ later)

run_ops-Bounded :
    (run : Op → Dict String → Dict String × List Call) (h : String)
    → ((o : Op) (r : Dict String) → Bounded h (receipts_of h o) r (run o r))
    → (os : List Op) (r : Dict String) → Bounded h (receipts h os) r (run_ops run os r)
unfolding run_ops
run_ops-Bounded run h each [] r = omega arith
run_ops-Bounded run h each (o ∷ os) r =
    let (r', calls) = run o r in
    omega (
      arith,
      each o r,
      run_ops-Bounded run h each os (run o r).0,
      acks-append h (run o r).1 (run_ops run os (run o r).0).1,
    )

sqs-Bounded : (h : String) (o : Op) (r : Dict String) → Bounded h (receipts_of h o) r (Sqs.run o r)
unfolding Sqs.enqueue Sqs.claim Sqs.extend Sqs.complete Sqs.release
sqs-Bounded h (enqueue_op p k) r = omega arith
sqs-Bounded h (claim_op n none) r = omega arith
sqs-Bounded h (claim_op n (some m)) r = omega (arith, held-insert h m.step_id m.receipt r)
sqs-Bounded h (extend_op k n) r = ground arith
sqs-Bounded h (complete_op k) r = elim (Option-cases (lookup k r)) [
  | inl e ↦ ground arith
  | inr (j, e) ↦ ground (arith, held-erase h k j r e)
]
sqs-Bounded h (release_op k) r = elim (Option-cases (lookup k r)) [
  | inl e ↦ ground arith
  | inr (j, e) ↦ ground (arith, held-erase-le h k r)
]

pubsub-Bounded :
    (h : String) (o : Op) (r : Dict String) → Bounded h (receipts_of h o) r (Pubsub.run o r)
unfolding Pubsub.enqueue Pubsub.claim Pubsub.extend Pubsub.complete Pubsub.release
pubsub-Bounded h (enqueue_op p k) r = omega arith
pubsub-Bounded h (claim_op n none) r = omega arith
pubsub-Bounded h (claim_op n (some m)) r = omega (arith, held-insert h m.step_id m.receipt r)
pubsub-Bounded h (extend_op k n) r = ground arith
pubsub-Bounded h (complete_op k) r = elim (Option-cases (lookup k r)) [
  | inl e ↦ ground arith
  | inr (j, e) ↦ ground (arith, held-erase h k j r e)
]
pubsub-Bounded h (release_op k) r = elim (Option-cases (lookup k r)) [
  | inl e ↦ ground arith
  | inr (j, e) ↦ ground (arith, held-erase-le h k r)
]

-- Over any operations of a new SQS adapter, a receipt is acknowledged at most as often as it was
-- received: a message that was never received is not deleted, and none is deleted twice.
pub acks-sqs : (h : String) (os : List Op) → acks h (run_ops Sqs.run os []).1 ≤ receipts h os
acks-sqs h os = omega (arith, run_ops-Bounded Sqs.run h (sqs-Bounded h) os [])

-- The same of a new Pub/Sub adapter: an ack id is acknowledged at most as often as it was received.
pub acks-pubsub : (h : String) (os : List Op) → acks h (run_ops Pubsub.run os []).1 ≤ receipts h os
acks-pubsub h os = omega (arith, run_ops-Bounded Pubsub.run h (pubsub-Bounded h) os [])
