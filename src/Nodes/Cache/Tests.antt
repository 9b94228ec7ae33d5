-- ===== src/Nodes/Cache/Tests.antt =====
-- A run with a database that holds a plan for its intent.
use chat_aiagent.Prelude.{◌≡◌, false, none, some, [], ◌∷◌, codes}
use chat_aiagent.Graph.State.{AgentState, initial}
use chat_aiagent.History.{PlanHistory}
use chat_aiagent.Nodes.Cache.{Auth, nothing, factory, make_config, check_plan_cache}
use chat_aiagent.Nodes.Cache.Miss.{make_config-check_plan_cache}

abbrev kept : PlanHistory
kept = record {
  id = 1;
  plan_id = "p1";
  action = "diagnose";
  domain = "network";
  intent_summary = codes "tunnel down";
  entity_summary = [];
  steps = [];
  tool_results = [];
  outcome = "COMPLETED";
  tenant_id = some "t1";
  user_id = none;
  created_at = 1000;
}

abbrev asking : AgentState
asking = record (initial []) {
  intent = some (record {
    action = "diagnose";
    domain = "network";
    confidence = 950000;
    ambiguous = false;
    ambiguity_reason = [];
  });
}

abbrev user : Auth
user = record { user_id = some "u1"; tenant_id = some "t1"; token = [] }

make_config-check_plan_cache_example :
    check_plan_cache
      (λ rows. rows)
      (λ n. [])
      2000
      30
      none
      (make_config "thread" user false nothing (factory (some (kept ∷ []))))
      asking
    ≡ asking
make_config-check_plan_cache_example =
    make_config-check_plan_cache (λ rows. rows) (λ n. []) 2000 30 none "thread" user false nothing
      (factory (some (kept ∷ []))) asking
