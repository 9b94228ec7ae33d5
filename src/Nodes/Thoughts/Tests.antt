-- ===== src/Nodes/Thoughts/Tests.antt =====
-- A model that names two tools.
use chat_aiagent.Prelude.{◌≡◌, refl, some, codes, strip}
use chat_aiagent.Nodes.Thoughts.{single_tool_only}

first_of_two : single_tool_only (some (codes "get_pods , get_logs")) ≡ some (codes "get_pods")
unfolding single_tool_only strip
first_of_two = refl
