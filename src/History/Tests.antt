-- ===== src/History/Tests.antt =====
-- The queries of the plan history on a small table.
use chat_aiagent.Prelude.{ℕ, ◌≡◌, refl, String, some, none, List, [], ◌∷◌}
use chat_aiagent.History.{PlanHistory, get_best_cached}
use chat_aiagent.History.Sorting.{sort_desc, sort_desc-IsOrderDesc}
use chat_aiagent.History.Queries.{IsBest, get_best_cached-IsBest}

abbrev row_at : ℕ → String → ℕ → PlanHistory
row_at id outcome time = record {
  id = id;
  plan_id = "p";
  action = "diagnose";
  domain = "vpn";
  intent_summary = [];
  entity_summary = [];
  steps = [];
  tool_results = [];
  outcome = outcome;
  tenant_id = some "acme";
  user_id = none;
  created_at = time;
}

abbrev table : List PlanHistory
table = row_at 1 "COMPLETED" 700000 ∷ row_at 2 "COMPLETED" 900000 ∷ row_at 3 "FAILED" 950000 ∷ []

best_in_table :
    get_best_cached sort_desc 1000000 7 "diagnose" "vpn" (some "acme") (some table)
    ≡ some (row_at 2 "COMPLETED" 900000)
unfolding get_best_cached sort_desc
best_in_table = refl

get_best_cached-IsBest_example :
    IsBest 1000000 7 "diagnose" "vpn" (some "acme") table (row_at 2 "COMPLETED" 900000)
get_best_cached-IsBest_example =
    get_best_cached-IsBest sort_desc sort_desc-IsOrderDesc 1000000 7 "diagnose" "vpn" (some "acme")
      table (row_at 2 "COMPLETED" 900000) best_in_table
