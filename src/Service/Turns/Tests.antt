-- ===== src/Service/Turns/Tests.antt =====
-- A run that stops at a review, on the channel and on the wire.
use chat_aiagent.Prelude.{◌≡◌, refl, true, false, none, [], ◌∷◌, ◌++◌, codes, insert, lookup, erase}
use chat_aiagent.Prelude.Json.{null, obj, end}
use chat_aiagent.Runtime.{TurnRequest, data_line, done_line, turn, stream, turn_response}
use chat_aiagent.Runtime.Lines.{is_closed, stream-is_closed}
use chat_aiagent.Service.Events.{plain}
use chat_aiagent.Service.Stream.{
  chain_start, chain_end, model_end, node_start, node_end, Works, Redis, publish_stream, payload_of,
}
use chat_aiagent.Service.Endpoints.{Agent, get_metrics_collector, get_ragas_collector}
use chat_aiagent.Service.Turns.{Graph, final, make_config, sre_agent}
use chat_aiagent.Service.Turns.Agrees.{lines, run_of, publish_stream-stream}

abbrev agent : Agent
agent = record { collectors = []; ragas_collectors = []; slm_platform = true; latest = none }

abbrev graph : Graph
graph = record {
  ainvoke = λ message c. final (plain (obj end));
  astream_events = λ message c. record {
    events =
        chain_start "think" "think" null
        ∷ model_end 7 9 none
        ∷ chain_start "think" "LLM" null
        ∷ chain_end "think" "think" null
        ∷ [];
    error = none;
  };
}

abbrev request : TurnRequest
request = record { message = codes "vpn down"; thread_id = "t1"; config = end }

abbrev works : Works
works = record { publishes = λ n. true; appends = λ n. true; reason = [] }

abbrev redis : Redis
redis = record { published = []; events = []; calls = 0 }

-- The graph waits for a review, and the wire says done.
waiting :
    (stream (sre_agent graph (λ a. (a, true)) (λ a. (a, true))) (λ p. true) [] request agent).1
    ≡ data_line (node_start "think" null) ∷ data_line (node_end "think" null) ∷ done_line ∷ []
unfolding stream sre_agent payload_of
waiting = refl

-- A turn that returns leaves no collector of its thread, and a stream leaves one.
after_turn :
    (turn (sre_agent graph (λ a. (a, true)) (λ a. (a, true))) [] request agent)
    ≡ (record agent { ragas_collectors = "t1" ∷ [] }, turn_response "t1" end)
unfolding turn sre_agent get_metrics_collector get_ragas_collector insert lookup erase
after_turn = refl

after_stream :
    (stream
      (sre_agent graph (λ a. (a, true)) (λ a. (a, true)))
      (λ p. true)
      []
      request
      agent).0.collectors
    ≡ ("t1", none) ∷ []
unfolding stream sre_agent get_metrics_collector get_ragas_collector insert lookup
after_stream = refl

publish_stream-stream_example :
    lines
      (publish_stream works
        (run_of
          (graph.astream_events (codes "vpn down") (make_config "t1" end))
          ("review" ∷ [])
          (null ∷ []))
        redis).redis.published
    ≡ []
      ++ (stream (sre_agent graph (λ a. (a, true)) (λ a. (a, true))) (λ p. true) [] request agent).1
publish_stream-stream_example =
    publish_stream-stream works graph (λ a. (a, true)) (λ a. (a, true)) ("review" ∷ []) (null ∷ [])
      [] request agent redis (λ n. refl)

-- An event without a text ends the stream.
undumped :
    is_closed
      (stream (sre_agent graph (λ a. (a, true)) (λ a. (a, true))) (λ p. false) [] request agent).1
    ≡ true
undumped =
    stream-is_closed (sre_agent graph (λ a. (a, true)) (λ a. (a, true))) (λ p. false) [] request
      agent
