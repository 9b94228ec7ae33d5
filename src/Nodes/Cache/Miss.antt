-- ===== src/Nodes/Cache/Miss.antt =====
-- The plan cache under the configuration that the agent makes.
use chat_aiagent.Prelude.{ℕ, ◌≡◌, String, Bool, Option, List, Text, lookup, arith}
use chat_aiagent.Graph.State.{AgentState}
use chat_aiagent.History.{PlanHistory}
use chat_aiagent.Nodes.Cache.{Auth, ConfigValue, make_config, check_plan_cache}

-- Under the configuration that `_make_config` makes, whatever the database holds, the plan cache
-- never hits: the session factory is passed under another key than the one that is read.
pub make_config-check_plan_cache :
    (order_desc : List PlanHistory → List PlanHistory) (show_date : ℕ → Text) (now ttl_days : ℕ)
    (enabled : Option Text) (thread_id : String) (auth : Auth) (auto_approve : Bool)
    (metrics sessions : ConfigValue) (s : AgentState)
    → check_plan_cache order_desc show_date now ttl_days enabled
        (make_config thread_id auth auto_approve metrics sessions)
        s
      ≡ s
unfolding check_plan_cache make_config lookup
make_config-check_plan_cache order_desc show_date now ttl enabled thread auth auto metrics sessions
      s =
    ground arith
