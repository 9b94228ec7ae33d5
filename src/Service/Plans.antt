-- ===== src/Service/Plans.antt =====
-- worker_agent/main.py, /history: the plans of the history as a page of the user interface lists them.
-- A time is shown by its seconds.
pub mod Unseen
use chat_aiagent.Prelude.{ℕ, String, Option, none, some, List, [], map, Text, or_else}
use chat_aiagent.History.{PlanStep, ToolResult, PlanHistory, get_all_recent}

pub record Item : Type 0 where
  pub plan_id : String
  pub action : String
  pub domain : String
  pub intent_summary : Text
  pub outcome : String
  pub steps : List PlanStep
  pub tool_results : List (Text × ToolResult)
  pub created_at : ℕ

abbrev item_of : PlanHistory → Item
item_of row = record {
  plan_id = row.plan_id;
  action = row.action;
  domain = row.domain;
  intent_summary = row.intent_summary;
  outcome = row.outcome;
  steps = row.steps;
  tool_results = row.tool_results;
  created_at = row.created_at;
}

-- The database of the agent: none of it, one whose query raises, or a table.
pub data Database : Type 0 where
  no_factory : Database
  failing : Database
  table : List PlanHistory → Database

-- `order_desc` is ORDER BY created_at DESC; the tenant of the query may be missing.
unfoldable pub get_history :
    (List PlanHistory → List PlanHistory) → ℕ → Option String → Database → List Item
unfolding get_all_recent
get_history order_desc limit tenant_id no_factory = []
get_history order_desc limit tenant_id failing = []
get_history order_desc limit tenant_id (table rows) =
    map item_of (get_all_recent order_desc limit (some (or_else tenant_id "")) rows)
