-- ===== src/Dispatch/Locks/Tests.antt =====
-- Two sessions and one lock; the adapters by their names.
use chat_aiagent.Prelude.{◌≡◌, refl, none, some, [], ◌∷◌, lookup}
use chat_aiagent.Dispatch.Locks.{try_lock, unlock, postgres, missing, unknown, create_adapter}

taken : try_lock 7 "b" ((7, "a") ∷ []) ≡ none
unfolding try_lock
taken = refl

taken_again : try_lock 7 "a" ((7, "a") ∷ []) ≡ some ((7, "a") ∷ (7, "a") ∷ [])
unfolding try_lock
taken_again = refl

given_up_once : unlock 7 "a" ((7, "a") ∷ (7, "a") ∷ []) ≡ (7, "a") ∷ []
unfolding unlock
given_up_once = refl

by_default : create_adapter (("DATABASE_URL", "postgres://db") ∷ []) ≡ postgres "postgres://db"
unfolding create_adapter lookup
by_default = refl

no_queue : create_adapter (("DISPATCH_ADAPTER", "sqs") ∷ []) ≡ missing "SQS_QUEUE_URL"
unfolding create_adapter lookup
no_queue = refl

no_adapter : create_adapter (("DISPATCH_ADAPTER", "kafka") ∷ []) ≡ unknown "kafka"
unfolding create_adapter lookup
no_adapter = refl
