-- ===== src/Nodes/Fix/Tests.antt =====
-- The review of a fix: a rejection after a change.
use chat_aiagent.Prelude.{◌≡◌, refl, true, false, some, [], codes, is_in, lower, strip}
use chat_aiagent.Graph.State.{AgentState, initial}
use chat_aiagent.Graph.Routes.{route_propose_fix}
use chat_aiagent.Nodes.Fix.{fix_reply}
use chat_aiagent.Nodes.Fix.Verdict.{verdict, next_of, reject, fix-route}

abbrev changed : AgentState
changed = record (initial []) { plan_cache_hit = some false }

verdict_no : verdict (codes "No") ≡ reject
unfolding verdict is_in lower strip
verdict_no = refl

fix-route_example :
    route_propose_fix (fix_reply true (codes "1. restart") (codes "No") changed).0
    ≡ next_of (verdict (codes "No")) changed.plan_cache_hit
fix-route_example = fix-route true (codes "1. restart") (codes "No") changed
