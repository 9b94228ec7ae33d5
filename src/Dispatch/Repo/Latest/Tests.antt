-- ===== src/Dispatch/Repo/Latest/Tests.antt =====
-- Two results of one step, and a step that is missing.
use chat_aiagent.Prelude.{◌≡◌, refl, true, some, none, [], ◌∷◌, lookup, ◌=s=◌, if◌then◌else◌}
use chat_aiagent.Prelude.Json.{Json}
use chat_aiagent.Dispatch.Base.{completed, failed, StepResultPayload}
use chat_aiagent.Dispatch.Postgres.{running, Step, Store, complete, result_row}
use chat_aiagent.Dispatch.Postgres.Lease.{Held}
use chat_aiagent.Dispatch.Repo.{get_step, get_step_result, write_result, written}
use chat_aiagent.Dispatch.Repo.Latest.{get_step_result-complete}

abbrev step : Step
step = record {
  id = "s1";
  plan_id = some "p1";
  name = "check tunnels";
  tool_name = "get_tunnel_status";
  dependencies = Json.null;
  inputs = Json.null;
  critical = true;
  status = running;
  lock_token = some "a";
  lock_expires_at = some 160;
  attempts = 2;
  max_attempts = 3;
}

abbrev payload : StepResultPayload
payload = record { status = completed; output = some Json.null; error = none }

abbrev earlier : Store
earlier = record {
  steps = ("s1", step) ∷ [];
  results = written "s1" (record { status = failed; output = none; error = none }) none 1 ∷ [];
}

missing : write_result "s2" payload none earlier ≡ none
unfolding write_result lookup
missing = refl

earlier-Held : Held "a" "s1" earlier
unfolding lookup
earlier-Held = refl

get_step_result-complete_example :
    (r : Step) × (get_step "s1" earlier ≡ some r)
    × (get_step_result "s1" (complete 150 "s1" "a" payload earlier).0 ≡ (
        if "s1" =s= "s1"
        then some (result_row 150 "s1" "a" payload r.attempts)
        else get_step_result "s1" earlier))
get_step_result-complete_example =
    get_step_result-complete 150 "s1" "a" "s1" payload earlier earlier-Held
