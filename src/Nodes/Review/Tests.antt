-- ===== src/Nodes/Review/Tests.antt =====
-- The step review: an answer with a change.
use chat_aiagent.Prelude.{◌≡◌, refl, true, none, some, [], codes, is_in, lower, strip}
use chat_aiagent.Prelude.Json.{obj, end}
use chat_aiagent.Graph.State.{AgentState, initial}
use chat_aiagent.Graph.Routes.{route_hitl_step_review, signal_of}
use chat_aiagent.Nodes.Review.{review_reply}
use chat_aiagent.Nodes.Review.Verdict.{verdict, next_of, modify, review-route}

abbrev proposing : AgentState
proposing = record (initial []) {
  current_thought = some (record {
    reasoning = codes "look at the tunnels";
    tool_name = some (codes "get_tunnel_status");
    inputs = obj end;
    signal = none;
  });
}

verdict_modify : verdict (codes " look at the gateway ") ≡ modify (codes "look at the gateway")
unfolding verdict is_in lower strip
verdict_modify = refl

review-route_example :
    route_hitl_step_review (review_reply true (codes "Modify the region") proposing).0
    ≡ next_of (verdict (codes "Modify the region")) (signal_of proposing.current_thought)
review-route_example = review-route true (codes "Modify the region") proposing
