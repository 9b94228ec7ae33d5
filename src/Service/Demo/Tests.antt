-- ===== src/Service/Demo/Tests.antt =====
-- The demonstration with a graph of one node, and what the answers of the others make of its stream.
use chat_aiagent.Prelude.{
  ◌≡◌, refl, false, not, none, some, [], ◌∷◌, Text, Dict, codes, lookup, or_else, strip, is_space,
  text_eq, if◌then◌else◌,
}
use chat_aiagent.Prelude.Json.{Json, null, str, arr, obj, nil, cons, end, field, get}
use chat_aiagent.Graph.State.{initial}
use chat_aiagent.Service.Stream.{chain_start, chain_end}
use chat_aiagent.Service.Events.{bearer}
use chat_aiagent.Service.Endpoints.{Agent}
use chat_aiagent.Service.Demo.{
  sre_start, sre_node, sre_findings, obo_issued, chain_request, remediation_response, done, World,
  granted, refused, reply, demo_findings, graph_chain_stream, sre_nodes, answered, destructive,
}
use chat_aiagent.Service.Demo.Ends.{is_closed, has_done, is_unread, graph_chain_stream-Ends}
use chat_aiagent.Service.Demo.Asks.{Asked, graph_chain_stream-Asked}

abbrev agent : Agent
agent = record { collectors = []; ragas_collectors = []; slm_platform = false; latest = none }

abbrev plan : Json
plan = obj (
    field "steps"
      (arr (cons (obj (field "risk" (str (codes "DESTRUCTIVE")) end)) (cons (obj end) nil))) end)

abbrev world : World
world = record {
  stream =
      chain_start "think" "think" null
      ∷ chain_start "think" "ChatAnthropic" null
      ∷ chain_end "think" "think" null
      ∷ [];
  stream_error = none;
  state = some (some (initial []));
  exchange = λ t. if text_eq t (codes "jwt") then granted (codes "obo") else refused (codes "401");
  remediation = λ c. reply 200 (some (obj (field "plan" plan end)));
  reason = [];
}

abbrev headers : Dict Text
headers = ("authorization", codes "Bearer jwt") ∷ []

allowed :
    (graph_chain_stream world headers (codes "vpn") "t1" "chain-0" agent).sent
    ≡ sre_start
      ∷ sre_node "think" "Planning next action" (codes "[think] Planning next action" ∷ [])
      ∷ sre_findings (demo_findings (codes "vpn") (initial [])) 1
      ∷ obo_issued
      ∷ chain_request
      ∷ remediation_response plan 1
      ∷ done
      ∷ []
unfolding graph_chain_stream sre_nodes answered destructive get strip is_space lookup
allowed = refl

-- Without a token of the caller, nothing is asked of the remediation agent.
unasked : (graph_chain_stream world [] (codes "vpn") "" "chain-0" agent).calls ≡ []
unfolding graph_chain_stream strip lookup
unasked = refl

-- An answer that is an error, but not 403, is shown as allowed.
failed_shown :
    answered [] (reply 500 (some (obj (field "detail" (str (codes "no model")) end))))
    ≡ remediation_response (obj end) 0
unfolding answered destructive get
failed_shown = refl

abbrev unread : World
unread = record world { state = none }

graph_chain_stream-Ends_example :
    let l = graph_chain_stream unread headers (codes "vpn") "t1" "chain-0" agent in
    (is_closed l.sent ≡ not (is_unread unread))
    × (has_done l.sent ≡ not (is_unread unread))
    × (l.raised ≡ is_unread unread)
graph_chain_stream-Ends_example =
    graph_chain_stream-Ends unread headers (codes "vpn") "t1" "chain-0" agent

graph_chain_stream-Asked_example :
    let l = graph_chain_stream world headers (codes "vpn") "t1" "chain-0" agent in
    Asked world (bearer (or_else (lookup "authorization" headers) [])) "t1" l.sent l.calls
graph_chain_stream-Asked_example =
    graph_chain_stream-Asked world headers (codes "vpn") "t1" "chain-0" agent
