-- ===== src/Service/Demo.antt =====
-- worker_agent/main.py, graph_chain_stream: a run of the graph that approves by itself, the exchange of
-- the user's token, and the call of the remediation agent with what the run has found. An event stands
-- for its line of the stream; what is the same in every event of its step is left out. The graph, the
-- auth service and the remediation agent are outside: what they answer is in `World`.
pub mod Ends
pub mod Asks
pub mod Allowed
mod Tests
use chat_aiagent.Prelude.{
  ℕ, suc, String, Bool, true, false, Option, none, some, List, [], ◌∷◌, ◌++◌, Text, Dict, lookup,
  codes, newline, join, map, length, or_else, text_or, text_eq, ◌==◌, ◌=s=◌, if◌then◌else◌,
}
use chat_aiagent.Prelude.Json.{
  Json, null, bool, num, str, arr, obj, Items, nil, cons, Fields, end, field, get,
}
use chat_aiagent.Graph.State.{AgentState, ThoughtActObserve, initial}
use chat_aiagent.Nodes.Chain.Findings.{action_of, domain_of, finding_lines, tool_line, plan_part}
use chat_aiagent.Service.Stream.{Event, model_end, chain_start, chain_end, other}
use chat_aiagent.Service.Events.{bearer}
use chat_aiagent.Service.Endpoints.{Agent, configured}

pub data Sent : Type 0 where
  sre_start : Sent
  sre_node : String → String → List Text → Sent
  sre_findings : Text → ℕ → Sent
  obo_issued : Sent
  chain_request : Sent
  opa_deny : Sent
  -- the plan, and how many of its steps are destructive; "opa" is "ALLOW"
  remediation_response : Json → ℕ → Sent
  error : Text → Sent
  done : Sent

-- The request to the remediation agent.
pub record Call : Type 0 where
  pub message : Text
  pub thread_id : String
  pub token : Text

-- The answer of the auth service: a token, or the text of the exception.
pub data Granted : Type 0 where
  granted : Text → Granted
  refused : Text → Granted

-- A status code and the document of the body, none where it is none; or the text of the exception.
pub data Reply : Type 0 where
  reply : ℕ → Option Json → Reply
  unreachable : Text → Reply

pub record World : Type 0 where
  pub stream : List Event
  pub stream_error : Option Text
  -- none where the reading of the state raises; in it, none where there is no state
  pub state : Option (Option AgentState)
  pub exchange : Text → Granted
  pub remediation : Call → Reply
  -- the text of what the reading of a plan raises
  pub reason : Text

-- The events of the stream, the requests to the remediation agent, whether the generator ends by an
-- exception, and the agent, of which the configuration of the run may have made collectors.
pub record Left : Type 0 where
  pub sent : List Sent
  pub calls : List Call
  pub raised : Bool
  pub agent : Agent

abbrev node_labels : Dict String
node_labels =
    ("manage_context", "Managing context window")
    ∷ ("extract_intent", "Classifying VPN intent")
    ∷ ("clarify", "Requesting clarification")
    ∷ ("check_plan_cache", "Checking plan cache")
    ∷ ("think", "Planning next action")
    ∷ ("hitl_step_review", "Step review (auto-approved)")
    ∷ ("act", "Executing tool call")
    ∷ ("observe", "Analysing tool output")
    ∷ ("analysis_summary", "Summarising analysis")
    ∷ ("propose_fix", "Proposing remediation")
    ∷ ("report", "Generating report")
    ∷ []

-- The node that an event starts.
abbrev pub started : Event → Option String
started (chain_start node name d) =
    if node =s= "" then none else if name =s= node then some node else none
started (chain_end node name d) = none
started (model_end i o t) = none
started other = none

abbrev pub label_of : String → String
label_of node = or_else (lookup node node_labels) node

abbrev pub entry : String → Text
entry node = codes "[" ++ (codes node ++ (codes "] " ++ codes (label_of node)))

unfoldable pub sre_nodes : List Event → List Text → List Sent × List Text
sre_nodes [] log = ([], log)
sre_nodes (e ∷ es) log = elim (started e) [
  | none ↦ sre_nodes es log
  | some node ↦
      let log' = log ++ entry node ∷ [] in
      let (sent, l) = sre_nodes es log' in (sre_node node (label_of node) log' ∷ sent, l)
]

step_lines : List ThoughtActObserve → Text
step_lines [] = []
step_lines (s ∷ ss) =
    codes "Tool steps executed:\n" ++ (join newline (map tool_line (s ∷ ss)) ++ codes "\n\n")

summary_part : Text → Text
summary_part [] = []
summary_part (c ∷ t) = codes "Summary:\n  " ++ (c ∷ t)

abbrev pub values_of : Option AgentState → AgentState
values_of none = initial []
values_of (some s) = s

unfoldable pub demo_findings : Text → AgentState → Text
unfolding step_lines summary_part
demo_findings message s =
    text_or
      (codes "Intent: "
        ++ (codes (action_of "VPN tunnel investigation" s.intent)
            ++ (codes "\nDomain: "
                ++ (codes (domain_of "connectivity.cradlepoint" s.intent)
                    ++ (codes "\n\n"
                        ++ (finding_lines s.analysis_findings
                            ++ (step_lines s.step_history
                                ++ (plan_part (or_else s.remediation_plan [])
                                    ++ summary_part (or_else s.report [])))))))))
      message

abbrev pub is_destructive : Fields → Bool
is_destructive fs = elim (get "risk" fs) [
  | some (str t) ↦ text_eq t (codes "DESTRUCTIVE")
  | _ ↦ false
]

-- The destructive steps; none where a step is no object.
abbrev pub destructive_items : Items → Option ℕ
destructive_items nil = some 0
destructive_items (cons (obj fs) vs) = elim (destructive_items vs) [
  | none ↦ none
  | some n ↦ some (if is_destructive fs then suc n else n)
]
destructive_items (cons v vs) = none

-- Of what is no list, an empty string and an empty object can be gone through as well.
unfoldable pub destructive : Json → Option ℕ
destructive (arr vs) = destructive_items vs
destructive (str []) = some 0
destructive (obj end) = some 0
destructive v = none

abbrev pub plan_event : Text → Json → Sent
plan_event reason (obj fs) = elim (destructive (or_else (get "steps" fs) (arr nil))) [
  | none ↦ error reason
  | some n ↦ remediation_response (obj fs) n
]
plan_event reason v = error reason

abbrev pub result_event : Text → Option Json → Sent
result_event reason (some (obj fs)) = plan_event reason (or_else (get "plan" fs) (obj end))
result_event reason v = error reason

-- What the stream shows of the answer: of the status codes only 403 is looked at.
unfoldable pub answered : Text → Reply → Sent
unfolding destructive
answered reason (unreachable t) = error t
answered reason (reply code body) = if code == 403 then opa_deny else result_event reason body

abbrev pub default_message : Text
default_message =
    codes
      "Our VPN tunnels to Boston and Chicago keep dropping. Phase 2 is renegotiating repeatedly — it used to be stable. Investigate and produce a remediation plan."

module _ (w : World) (thread_id : String) where
  abbrev pub call_of : Text → Text → Call
  call_of findings token = record { message = findings; thread_id = thread_id; token = token }

  -- Behind the exchange of the token.
  abbrev pub after_exchange : Text → Granted → List Sent × List Call
  after_exchange findings (refused t) = (error (codes "OBO exchange failed: " ++ t) ∷ done ∷ [], [])
  after_exchange findings (granted token) = (
    obo_issued
        ∷ chain_request
        ∷ answered w.reason (w.remediation (call_of findings token))
        ∷ done
        ∷ [],
    call_of findings token ∷ [],
  )

  -- Behind the graph's stream, of which `n` nodes have been shown.
  abbrev pub after_state :
      Text → Text → ℕ → Option (Option AgentState) → List Sent × List Call × Bool
  after_state message user_token n none = ([], [], true)
  after_state message user_token n (some s) =
      let findings = demo_findings message (values_of s) in
      let (sent, calls) = after_exchange findings (w.exchange user_token) in
      (sre_findings findings n ∷ sent, calls, false)

  abbrev pub after_nodes : Text → Text → ℕ → List Sent × List Call × Bool
  after_nodes message user_token n = elim w.stream_error [
    | some t ↦ (error t ∷ done ∷ [], [], false)
    | none ↦ after_state message user_token n w.state
  ]

-- `fresh` is the identifier that is made up for a request without one.
unfoldable pub graph_chain_stream : World → Dict Text → Text → String → String → Agent → Left
unfolding sre_nodes demo_findings answered
graph_chain_stream w headers text thread fresh a =
    let thread_id = if thread =s= "" then fresh else thread in
    let user_token = bearer (or_else (lookup "authorization" headers) []) in
    let (nodes, log) = sre_nodes w.stream [] in
    let (sent, calls, raised) =
      after_nodes w thread_id (text_or text default_message) user_token (length log) in
    record {
      sent = sre_start ∷ nodes ++ sent;
      calls = calls;
      raised = raised;
      agent = configured thread_id a;
    }
