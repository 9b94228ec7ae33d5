-- ===== src/Service/Endpoints/Tests.antt =====
-- A run that is started, and one that is resumed after a restart.
use chat_aiagent.Prelude.{◌≡◌, refl, true, false, none, some, [], ◌∷◌, codes, lookup, insert}
use chat_aiagent.Prelude.Json.{Json}
use chat_aiagent.Service.Events.{extract_auth_from_headers}
use chat_aiagent.Service.Endpoints.{
  Agent, get_ragas_collector, get_metrics_collector, of_body, caller_of, message,
  graph_invoke_stream, graph_resume_stream,
}

abbrev restarted : Agent
restarted = record {
  collectors = [];
  ragas_collectors = [];
  slm_platform = true;
  latest = some (some (codes "old"));
}

invoked : graph_invoke_stream [] Json.null "t1" (codes "vpn down") false true restarted ≡ (
  record {
    collectors = ("t1", none) ∷ [];
    ragas_collectors = "t1" ∷ [];
    slm_platform = true;
    latest = some none;
  },
  record {
    thread_id = "t1";
    input = message (codes "vpn down");
    caller = of_body Json.null;
    auto_approve = false;
  },
)
unfolding graph_invoke_stream get_ragas_collector get_metrics_collector caller_of
    extract_auth_from_headers lookup insert
invoked = refl

reseeds :
    lookup "t1"
      (graph_resume_stream
        (λ d. some "run-7")
        (some "net")
        []
        Json.null
        "t1"
        (codes "yes")
        false
        restarted).0.collectors
    ≡ some (some "run-7")
unfolding graph_resume_stream get_ragas_collector get_metrics_collector lookup insert
reseeds = refl
