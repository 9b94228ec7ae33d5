-- ===== src/Dispatch/Postgres/Tests.antt =====
-- Two workers and one step.
use chat_aiagent.Prelude.{
  ◌+◌, ◌≤◌, ◌≡◌, ◌≢◌, ◌↔◌, inr, refl, String, true, none, some, List, [], ◌∷◌, arith, eq_iff,
  lookup, insert,
}
use chat_aiagent.Prelude.Json.{Json}
use chat_aiagent.Dispatch.Base.{completed, StepResultPayload, Error}
use chat_aiagent.Dispatch.Postgres.{StepStatus, pending, Step, Store, update_step, claim, complete}
use chat_aiagent.Dispatch.Postgres.Lease.{
  Op, claim_op, complete_op, run_ops, Held, exclusive_claim, claim-Held,
}
use chat_aiagent.Dispatch.Postgres.Outcomes.{Owns, complete_fenced}
use chat_aiagent.Dispatch.Postgres.AtMostOnce.{completions, enqueues, completions-run_ops}
use chat_aiagent.Dispatch.Postgres.Attempts.{attempts, claims, attempts-run_ops}

abbrev step : Step
step = record {
  id = "s1";
  plan_id = some "p1";
  name = "check tunnels";
  tool_name = "get_tunnel_status";
  dependencies = Json.null;
  inputs = Json.null;
  critical = true;
  status = pending;
  lock_token = none;
  lock_expires_at = none;
  attempts = 0;
  max_attempts = 3;
}

abbrev fresh : Store
fresh = record { steps = ("s1", step) ∷ []; results = [] }

abbrev payload : StepResultPayload
payload = record { status = completed; output = none; error = none }

abbrev by_a : Store
by_a = (claim 100 "s1" "a" 60 fresh).0

by_a_message :
    (claim 100 "s1" "a" 60 fresh).1
    ≡ some (record { plan_id = some "p1"; step_id = "s1"; attempt = 1 })
unfolding claim update_step lookup
by_a_message = refl

by_a-Held : Held "a" "s1" by_a
by_a-Held = claim-Held 100 "s1" "a" 60 fresh _ by_a_message

tokens_differ_back : ◌≢◌ {A = String} "b" "a"
tokens_differ_back = ground (arith, eq_iff "b" "a")

tokens_differ : ◌≢◌ {A = String} "a" "b"
tokens_differ = ground (arith, eq_iff "a" "b")

abbrev others : List Op
others = claim_op 500 "s1" "b" 60 ∷ complete_op 501 "s1" "b" payload ∷ []

exclusive_claim_example : (claim 900 "s1" "c" 60 (run_ops others by_a)).1 ≡ none
exclusive_claim_example =
    exclusive_claim "a" "s1" others by_a 900 "c" 60 by_a-Held (tt, (inr tokens_differ_back, tt))

complete_fenced_example :
    (((complete 120 "s1" "a" payload by_a).1 ≡ none) ↔ Owns "a" "s1" by_a)
    × ((e : Error)
        → (complete 120 "s1" "a" payload by_a).1 ≡ some e
        → (complete 120 "s1" "a" payload by_a).0 ≡ by_a)
complete_fenced_example = complete_fenced 120 "s1" "a" payload by_a

abbrev taken : Step
taken = record step {
  status = StepStatus.running;
  lock_token = some "a";
  lock_expires_at = some 160;
  attempts = 1;
}

by_a_row : lookup "s1" by_a.steps ≡ some taken
unfolding claim update_step lookup insert
by_a_row = refl

attempts-run_ops_example :
    attempts "s1" (run_ops (claim_op 100 "s1" "a" 60 ∷ others) fresh)
    ≡ attempts "s1" fresh + claims "s1" (claim_op 100 "s1" "a" 60 ∷ others) fresh
attempts-run_ops_example = attempts-run_ops "s1" (claim_op 100 "s1" "a" 60 ∷ others) fresh

-- Two workers complete one step: the second completion leaves no row.
completions-run_ops_example :
    completions "s1" (
      run_ops
        (claim_op 100 "s1" "a" 60
          ∷ complete_op 110 "s1" "a" payload
          ∷ complete_op 120 "s1" "b" payload
          ∷ [])
        fresh)
    ≤ completions "s1" fresh + 1 + 0
unfolding lookup enqueues
completions-run_ops_example =
    completions-run_ops "s1"
      (claim_op 100 "s1" "a" 60
        ∷ complete_op 110 "s1" "a" payload
        ∷ complete_op 120 "s1" "b" payload
        ∷ [])
      fresh refl
