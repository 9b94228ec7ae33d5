-- ===== src/Service/Stream/Tests.antt =====
-- A run of the graph that is interrupted, with a model's answer on the way.
use chat_aiagent.Prelude.{◌≡◌, refl, true, none, some, [], ◌∷◌, codes, ltb}
use chat_aiagent.Prelude.Json.{Json}
use chat_aiagent.Service.Stream.{
  model_end, chain_start, chain_end, node_start, usage, interrupt, Works, Redis, Run, emit,
  payload_of, tallied, emit_events, failed, publish_stream,
}
use chat_aiagent.Service.Stream.Terminal.{Closed}
use chat_aiagent.Service.Stream.Certain.{publish_stream-Closed}

abbrev works : Works
works = record { publishes = λ n. true; appends = λ n. true; reason = codes "down" }

abbrev breaks : Works
breaks = record { publishes = λ n. ltb n 1; appends = λ n. true; reason = codes "down" }

abbrev empty : Redis
empty = record { published = []; events = []; calls = 0 }

abbrev run : Run
run = record {
  stream =
      chain_start "think" "think" Json.null
      ∷ model_end 7 2 (some (codes "ok"))
      ∷ chain_end "think" "prompt" Json.null
      ∷ [];
  stream_error = none;
  state_error = none;
  next = "hitl_step_review" ∷ [];
  interrupts = [];
}

run_lem : publish_stream works run empty ≡ record {
  redis = record {
    published =
        node_start "think" Json.null ∷ usage 7 2 ∷ interrupt ("hitl_step_review" ∷ []) [] ∷ [];
    events = node_start "think" Json.null ∷ usage 7 2 ∷ interrupt ("hitl_step_review" ∷ []) [] ∷ [];
    calls = 3;
  };
  collector_kept = true;
  scanned = some (codes "ok");
}
unfolding publish_stream emit_events emit payload_of tallied
run_lem = refl

-- Redis is lost behind the first publication: the error is not published either.
lost : (publish_stream breaks run empty).redis.published ≡ node_start "think" Json.null ∷ []
unfolding publish_stream emit_events emit payload_of tallied failed
lost = refl

publish_stream-Closed_example : Closed [] (publish_stream works run empty).redis.published
publish_stream-Closed_example = publish_stream-Closed works run empty (λ n. refl)
