-- ===== src/Service/Plans/Unseen/Tests.antt =====
-- A plan of a tenant that the page asks for, and one that it does not name.
use chat_aiagent.Prelude.{ℕ, Option, String, ◌≡◌, refl, some, none, List, [], ◌∷◌, length}
use chat_aiagent.History.{PlanHistory, get_all_recent}
use chat_aiagent.History.Sorting.{sort_desc, sort_desc-IsOrderDesc}
use chat_aiagent.Service.Plans.{table, get_history}
use chat_aiagent.Service.Plans.Unseen.{get_history_untenanted}

abbrev row_of : Option String → ℕ → PlanHistory
row_of tenant time = record {
  id = time;
  plan_id = "p";
  action = "diagnose";
  domain = "vpn";
  intent_summary = [];
  entity_summary = [];
  steps = [];
  tool_results = [];
  outcome = "COMPLETED";
  tenant_id = tenant;
  user_id = none;
  created_at = time;
}

abbrev rows : List PlanHistory
rows = row_of (some "acme") 7 ∷ row_of none 8 ∷ row_of (some "acme") 9 ∷ []

seen : length (get_history sort_desc 20 (some "acme") (table rows)) ≡ 2
unfolding get_history get_all_recent sort_desc
seen = refl

get_history_untenanted_example : get_history sort_desc 20 none (table rows) ≡ []
get_history_untenanted_example =
    get_history_untenanted sort_desc 20 rows sort_desc-IsOrderDesc (refl, (refl, (refl, tt)))
