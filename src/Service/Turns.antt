-- ===== src/Service/Turns.antt =====
-- worker_agent/main.py: the agent of the service as the runtime drives it. LangGraph is outside: what a
-- run of the graph gives is an argument. The configuration of a run is shown by the thread, the caller
-- and the flag that are taken out of the request's.
mod Agrees
mod Tests
use chat_aiagent.Prelude.{
  String, Bool, true, false, Option, none, some, List, [], ◌∷◌, Text, erase, ◌=s=◌, if◌then◌else◌,
  or_else,
}
use chat_aiagent.Prelude.Json.{Json, bool, obj, Fields, end, field, get}
use chat_aiagent.Runtime.{BaseAgent, Output, output, raised, Streamed}
use chat_aiagent.Service.Events.{Value, serialise}
use chat_aiagent.Service.Stream.{Event, Payload, payload_of}
use chat_aiagent.Service.Endpoints.{Agent, configured}

pub record Config : Type 0 where
  pub thread_id : String
  pub auth : Json
  pub auto_approve : Json

-- A run of the graph to its end, with the state that it leaves, or the text of its exception; and as a
-- stream of events.
pub data Final : Type 0 where
  final : Value → Final
  failed : Text → Final

pub record Graph : Type 0 where
  pub ainvoke : Text → Config → Final
  pub astream_events : Text → Config → Streamed Event

-- `config.pop` of both keys, with their defaults.
abbrev pub make_config : String → Fields → Config
make_config thread_id config = record {
  thread_id = thread_id;
  auth = or_else (get "auth" config) (obj end);
  auto_approve = or_else (get "auto_approve" config) (bool false);
}

-- The collector of the thread is dropped behind a run that returns.
abbrev pub turn_left : String → Final → Agent → Agent × Output
turn_left thread_id (failed t) a = (a, raised t)
turn_left thread_id (final v) a =
    (record a { collectors = erase thread_id a.collectors }, output (serialise v))

-- The events of the stream that are passed on.
abbrev pub passed_on : List Event → List Payload
passed_on [] = []
passed_on (e ∷ es) =
    let rest = passed_on es in elim (payload_of e) [ none ↦ rest | some p ↦ p ∷ rest ]

unfoldable pub sre_agent :
    Graph → (Agent → Agent × Bool) → (Agent → Agent × Bool) → BaseAgent Agent Payload
unfolding payload_of
sre_agent graph on_start on_stop = record {
  name = "sre-agent";
  version = "1.0.0";
  turn = λ message thread_id config a.
      turn_left thread_id (graph.ainvoke message (make_config thread_id config))
        (configured thread_id a);
  stream = λ message thread_id config a.
      let run = graph.astream_events message (make_config thread_id config) in
      (configured thread_id a, record { events = passed_on run.events; error = run.error });
  on_start = on_start;
  on_stop = on_stop;
}
