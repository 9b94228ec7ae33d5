-- ===== src/Dispatch/Locks.antt =====
-- worker_agent/persistence/session_lock.py over the advisory locks of the database, each with the
-- session that holds it; a session may take a lock of its own again, and gives it up as often. The
-- keys are the hashes of the threads. worker_agent/dispatch/factory.py is here too.
pub mod Kept
mod Tests
use chat_aiagent.Prelude.{
  ℕ, String, Bool, true, false, ◌&&◌, Option, none, some, List, [], ◌∷◌, Dict, lookup, any, ◌==◌,
  ◌=s=◌, if◌then◌else◌,
}

-- A lock that is held: its key and its session.
abbrev pub Locks : Type 0
Locks = List (ℕ × String)

abbrev pub is_other : ℕ → String → ℕ × String → Bool
is_other key session (k, s) = (k == key) && (if s =s= session then false else true)

-- pg_try_advisory_lock
unfoldable pub try_lock : ℕ → String → Locks → Option Locks
try_lock key session locks =
    if any (is_other key session) locks then none else some ((key, session) ∷ locks)

-- pg_advisory_unlock
unfoldable pub unlock : ℕ → String → Locks → Locks
unlock key session [] = []
unlock key session ((k, s) ∷ rest) =
    let later = unlock key session rest in
    if (k == key) && (s =s= session) then rest else (k, s) ∷ later

-- What the body of the block ends with, and what the block does.
pub data Ending (A E : Type 0) : Type 0 where
  returned : A → Ending A E
  raised : E → Ending A E
  session_conflict : Ending A E

module _ {S A E : Type 0} (hashtext : String → ℕ) where
  abbrev pub unlocked : ℕ → String → Locks × S × Ending A E → Locks × S × Ending A E
  unlocked key session (locks, s, e) = (unlock key session locks, s, e)

  -- `async with with_session_lock(conn, thread_id): body`
  unfoldable pub with_session_lock :
      String → String → (Locks → S → Locks × S × Ending A E) → Locks → S → Locks × S × Ending A E
  unfolding try_lock
  with_session_lock session thread_id body locks s =
      elim (try_lock (hashtext thread_id) session locks) [
        | none ↦ (locks, s, session_conflict)
        | some locks' ↦ unlocked (hashtext thread_id) session (body locks' s)
      ]

-- create_adapter: which adapter, or what is raised.
pub data Adapter : Type 0 where
  postgres : String → Adapter
  sqs : String → Adapter
  pubsub : String → String → String → Adapter
  missing : String → Adapter
  unknown : String → Adapter

abbrev needs : String → Dict String → (String → Adapter) → Adapter
needs k environ f = elim (lookup k environ) [ none ↦ missing k | some v ↦ f v ]

abbrev kind_of : Option String → String
kind_of none = "postgres"
kind_of (some t) = t

unfoldable pub create_adapter : Dict String → Adapter
create_adapter environ =
    let kind = kind_of (lookup "DISPATCH_ADAPTER" environ) in
    if kind =s= "postgres"
    then needs "DATABASE_URL" environ postgres
    else if kind =s= "sqs"
    then needs "SQS_QUEUE_URL" environ sqs
    else if kind =s= "pubsub"
    then needs "GCP_PROJECT" environ (λ p.
      needs "PUBSUB_TOPIC" environ (λ t. needs "PUBSUB_SUBSCRIPTION" environ (λ s. pubsub p t s)))
    else unknown kind
