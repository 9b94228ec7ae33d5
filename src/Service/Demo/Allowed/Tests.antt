-- ===== src/Service/Demo/Allowed/Tests.antt =====
-- A model that fails, and one whose answer is no document: both are shown as allowed.
use chat_aiagent.Prelude.{
  ◌≡◌, refl, false, Option, none, some, [], ◌∷◌, Text, codes, map, strip, is_space,
}
use chat_aiagent.Prelude.Json.{Json, str, arr, nil, obj, end, field, get}
use chat_aiagent.Graph.State.{initial}
use chat_aiagent.Remediation.{invoke_endpoint, graph_invoke, unfenced}
use chat_aiagent.Service.Endpoints.{Agent}
use chat_aiagent.Service.Demo.{
  World, granted, unreachable, graph_chain_stream, sre_nodes, answered, destructive,
}
use chat_aiagent.Service.Demo.Asks.{plans}
use chat_aiagent.Service.Demo.Allowed.{shown_plan, response, behind, graph_chain_stream-plans}

abbrev agent : Agent
agent = record { collectors = []; ragas_collectors = []; slm_platform = false; latest = none }

abbrev world : World
world = record {
  stream = [];
  stream_error = none;
  state = some (some (initial []));
  exchange = λ t. granted (codes "obo");
  remediation = λ c. unreachable [];
  reason = [];
}

abbrev loads : Text → Option Json
loads t = none

failed_model :
    plans
      (graph_chain_stream
        (behind loads (λ t. none) [] (codes "sre-agent") world)
        []
        (codes "vpn")
        "t1"
        "c"
        agent).sent
    ≡ obj end ∷ []
unfolding graph_chain_stream invoke_endpoint graph_invoke answered destructive get sre_nodes
failed_model = refl

no_document :
    plans
      (graph_chain_stream
        (behind loads (λ t. some (codes " restart it ")) [] (codes "sre-agent") world)
        []
        (codes "vpn")
        "t1"
        "c"
        agent).sent
    ≡ obj (field "summary" (str (codes "restart it")) (field "steps" (arr nil) end)) ∷ []
unfolding graph_chain_stream invoke_endpoint graph_invoke answered destructive get sre_nodes
    unfenced strip is_space
no_document = refl

graph_chain_stream-plans_example :
    let l =
      graph_chain_stream
        (behind loads (λ t. none) [] (codes "sre-agent") world)
        []
        (codes "vpn")
        "t1"
        "c"
        agent in
    plans l.sent
    ≡ map (λ c. shown_plan (response loads (λ t. none) [] (codes "sre-agent") c)) l.calls
graph_chain_stream-plans_example =
    graph_chain_stream-plans loads (λ t. none) [] (codes "sre-agent") world [] (codes "vpn") "t1"
      "c" agent
