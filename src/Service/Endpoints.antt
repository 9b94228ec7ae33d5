-- ===== src/Service/Endpoints.antt =====
-- worker_agent/main.py: the endpoints that start and resume a run, and the collectors of metrics that
-- the agent keeps. What the run itself does is in Stream. A collector is shown by the identifier of its
-- run, none before it has been started.
mod Tests
use chat_aiagent.Prelude.{
  ℕ, length, codes, String, Bool, true, false, not, Option, none, some, List, [], ◌∷◌, ◌++◌, Text,
  Dict, lookup, insert, erase, any, is_some, ◌=s=◌, if◌then◌else◌,
}
use chat_aiagent.Prelude.Json.{Json}
use chat_aiagent.Graph.State.{AgentState, Message}
use chat_aiagent.Service.Events.{Auth, extract_auth_from_headers}

pub record Agent : Type 0 where
  pub collectors : Dict (Option String)
  pub ragas_collectors : List String
  -- SLM_PLATFORM_URL is not empty
  pub slm_platform : Bool
  -- what Redis holds under "remediation:latest", where the agent has a client
  pub latest : Option (Option Text)

abbrev with_ragas : String → List String → List String
with_ragas t ts = if any (λ u. u =s= t) ts then ts else t ∷ ts

unfoldable pub get_ragas_collector : String → Agent → Agent
get_ragas_collector t a = record a { ragas_collectors = with_ragas t a.ragas_collectors }

abbrev new_collector : String → Agent → Agent
new_collector t a =
    if a.slm_platform
    then record a {
      collectors = insert t none a.collectors;
      ragas_collectors = with_ragas t a.ragas_collectors;
    }
    else a

-- The agent afterwards, which has the collector of the thread, if there is one.
unfoldable pub get_metrics_collector : String → Agent → Agent
get_metrics_collector t a = if is_some (lookup t a.collectors) then a else new_collector t a

-- The caller of a request: of its headers, or else of its body.
pub data Caller : Type 0 where
  of_headers : Auth → Caller
  of_body : Json → Caller

unfoldable pub caller_of : Dict Text → Json → Caller
unfolding extract_auth_from_headers
caller_of headers body = elim (extract_auth_from_headers headers) [
  | some a ↦ of_headers a
  | none ↦ of_body body
]

-- A run that is started in the background: what the graph is given, and its configuration.
pub data Input : Type 0 where
  message : Text → Input
  resume : Text → Input

pub record Started : Type 0 where
  pub thread_id : String
  pub input : Input
  pub caller : Caller
  pub auto_approve : Bool

abbrev pub configured : String → Agent → Agent
configured t a = get_metrics_collector t (get_ragas_collector t a)

abbrev cleared : Bool → Option (Option Text) → Option (Option Text)
cleared deletes none = none
cleared deletes (some raw) = if deletes then some none else some raw

-- `deletes`: Redis takes the deletion.
unfoldable pub graph_invoke_stream :
    Dict Text → Json → String → Text → Bool → Bool → Agent → Agent × Started
unfolding get_metrics_collector get_ragas_collector caller_of
graph_invoke_stream headers auth t text auto_approve deletes a =
    let a' = configured t a in
    (
      record a' { latest = cleared deletes a'.latest },
      record {
        thread_id = t;
        input = message text;
        caller = caller_of headers auth;
        auto_approve = auto_approve;
      },
    )

abbrev seeded : String → Option String → Agent → Agent
seeded t none a = a
seeded t (some run) a = record a { collectors = insert t (some run) a.collectors }

-- The domain of the intent in the thread's state, none without one and where the state cannot be
-- read; `start` is what the start of a collector for a domain gives, none where it raises.
abbrev reseeded : (String → Option String) → Option String → String → Agent → Agent
reseeded start none t a = a
reseeded start (some domain) t a = if domain =s= "" then a else seeded t (start domain) a

abbrev reseed : (String → Option String) → Option String → String → Agent → Agent
reseed start domain t a = elim (lookup t a.collectors) [
  | some none ↦ reseeded start domain t a
  | _ ↦ a
]

unfoldable pub graph_resume_stream :
    (String → Option String)
    → Option String
    → Dict Text
    → Json
    → String
    → Text
    → Bool
    → Agent
    → Agent × Started
unfolding get_metrics_collector get_ragas_collector caller_of
graph_resume_stream start domain headers auth t response auto_approve a = (
  reseed start domain t (configured t a),
  record {
    thread_id = t;
    input = resume response;
    caller = caller_of headers auth;
    auto_approve = auto_approve;
  },
)

-- clear_remediation_result, where Redis takes the deletion.
unfoldable pub clear_remediation_result : Agent → Agent
clear_remediation_result a = record a { latest = cleared true a.latest }

-- The events of the ping.
pub data Pinged : Type 0 where
  sre_response : Text → Pinged
  done : Pinged

unfoldable pub graph_ping_stream : Text → List Pinged
graph_ping_stream text = sre_response (codes "SRE Agent online. Received: " ++ text) ∷ done ∷ []

-- compact_messages: the messages of the request replace those of the thread's state, and are counted;
-- `from_dict` is LangChain's reading of them, none where it raises.
unfoldable pub compact_messages :
    (List Json → Option (List Message)) → List Json → AgentState → Option (AgentState × ℕ)
compact_messages from_dict messages s = elim (from_dict messages) [
  | none ↦ none
  | some ms ↦ some (record s { messages = ms }, length ms)
]
