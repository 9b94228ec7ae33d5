-- ===== src/Service/Demo/Ends.antt =====
-- How the stream of the demonstration ends.
use chat_aiagent.Prelude.{
  ℕ, ◌≡◌, refl, inl, inr, String, Bool, true, false, not, ◌&&◌, Option, none, some, List, [], ◌∷◌,
  ◌++◌, Text, Dict, is_empty, is_some, arith, ◌==◌, ◌∙◌, Option-cases, Bool-cases, text_or, or_else,
  lookup, if◌then◌else◌, ◌=s=◌, length,
}
use chat_aiagent.Prelude.Json.{Json, null, bool, num, str, arr, obj, nil, end, get}
use chat_aiagent.Graph.State.{AgentState}
use chat_aiagent.Service.Stream.{Event}
use chat_aiagent.Service.Events.{bearer}
use chat_aiagent.Service.Endpoints.{Agent}
use chat_aiagent.Service.Demo.{
  Sent, sre_start, sre_node, sre_findings, obo_issued, chain_request, opa_deny,
  remediation_response, error, done, World, Granted, granted, refused, Reply, reply, unreachable,
  started, label_of, entry, sre_nodes, answered, call_of, after_exchange, after_state, after_nodes,
  default_message, graph_chain_stream, plan_event, result_event, demo_findings, values_of,
  destructive,
}

abbrev is_done : Sent → Bool
is_done done = true
is_done _ = false

-- There is one event "done", and it is the last one.
abbrev pub is_closed : List Sent → Bool
is_closed [] = false
is_closed (e ∷ es) = if is_done e then is_empty es else is_closed es

abbrev pub has_done : List Sent → Bool
has_done [] = false
has_done (e ∷ es) = if is_done e then true else has_done es

-- The graph has run, and its state cannot be read.
abbrev pub is_unread : World → Bool
is_unread w = not (is_some w.stream_error) && not (is_some w.state)

pub no_node :
    (e : Event) (es : List Event) (log : List Text)
    → started e ≡ none
    → sre_nodes (e ∷ es) log ≡ sre_nodes es log
unfolding sre_nodes
no_node e es log h = ground (arith, h)

pub new_node :
    (e : Event) (es : List Event) (log : List Text) (node : String)
    → started e ≡ some node
    → sre_nodes (e ∷ es) log ≡ (
      sre_node node (label_of node) (log ++ entry node ∷ [])
          ∷ (sre_nodes es (log ++ entry node ∷ [])).0,
      (sre_nodes es (log ++ entry node ∷ [])).1,
    )
unfolding sre_nodes
new_node e es log node h = ground (arith, h)

sre_nodes_closed :
    (es : List Event) (log : List Text) (rest : List Sent)
    → (is_closed ((sre_nodes es log).0 ++ rest) ≡ is_closed rest)
      × (has_done ((sre_nodes es log).0 ++ rest) ≡ has_done rest)
unfolding sre_nodes
sre_nodes_closed [] log rest = (refl, refl)
sre_nodes_closed (e ∷ es) log rest = elim (Option-cases (started e)) [
  | inl h ↦ rw (no_node e es log h) (sre_nodes_closed es log rest)
  | inr (node, h) ↦
      rw (new_node e es log node h) (sre_nodes_closed es (log ++ entry node ∷ []) rest)
]

-- What an answer of the remediation agent is shown as.
abbrev pub is_outcome : Sent → Bool
is_outcome opa_deny = true
is_outcome (remediation_response plan n) = true
is_outcome (error t) = true
is_outcome _ = false

outcome_not_done : (e : Sent) → is_outcome e ≡ true → is_done e ≡ false
outcome_not_done done h = absurd (ground arith)
outcome_not_done opa_deny h = refl
outcome_not_done (remediation_response plan n) h = refl
outcome_not_done (error t) h = refl
outcome_not_done sre_start h = refl
outcome_not_done (sre_node node label log) h = refl
outcome_not_done (sre_findings t n) h = refl
outcome_not_done obo_issued h = refl
outcome_not_done chain_request h = refl

plan_event_lem : (reason : Text) (plan : Json) → is_outcome (plan_event reason plan) ≡ true
plan_event_lem reason null = refl
plan_event_lem reason (bool b) = refl
plan_event_lem reason (num n) = refl
plan_event_lem reason (str t) = refl
plan_event_lem reason (arr vs) = refl
plan_event_lem reason (obj fs) =
    elim (Option-cases (destructive (or_else (get "steps" fs) (arr nil)))) [
      | inl e ↦ ground (arith, e)
      | inr (n, e) ↦ ground (arith, e)
    ]

result_event_lem :
    (reason : Text) (body : Option Json) → is_outcome (result_event reason body) ≡ true
result_event_lem reason none = refl
result_event_lem reason (some null) = refl
result_event_lem reason (some (bool b)) = refl
result_event_lem reason (some (num n)) = refl
result_event_lem reason (some (str t)) = refl
result_event_lem reason (some (arr vs)) = refl
result_event_lem reason (some (obj fs)) = plan_event_lem reason (or_else (get "plan" fs) (obj end))

pub answered_lem : (reason : Text) (r : Reply) → is_outcome (answered reason r) ≡ true
unfolding answered
answered_lem reason (unreachable t) = refl
answered_lem reason (reply code body) = elim (Bool-cases (code == 403)) [
  | inl e ↦ rw e refl
  | inr e ↦ rw e (result_event_lem reason body)
]

module _ (w : World) (thread_id : String) (message user_token : Text) (n : ℕ) where
  after_exchange-Ends :
      (findings : Text) (g : Granted)
      → (is_closed (after_exchange w thread_id findings g).0 ≡ true)
        × (has_done (after_exchange w thread_id findings g).0 ≡ true)
  after_exchange-Ends findings (refused t) = (refl, refl)
  after_exchange-Ends findings (granted token) =
      let r = w.remediation (call_of w thread_id findings token) in
      rw (outcome_not_done (answered w.reason r) (answered_lem w.reason r)) (refl, refl)

  after_state-Ends :
      (s : Option (Option AgentState))
      → let l = after_state w thread_id message user_token n s in
        (is_closed l.0 ≡ is_some s) × (has_done l.0 ≡ is_some s) × (l.2 ≡ not (is_some s))
  after_state-Ends none = (refl, refl, refl)
  after_state-Ends (some s) =
      let shown =
        after_exchange-Ends (demo_findings message (values_of s)) (w.exchange user_token) in
      (shown.0, shown.1, refl)

  after_nodes-Ends :
      let l = after_nodes w thread_id message user_token n in
      (is_closed l.0 ≡ not (is_unread w)) × (has_done l.0 ≡ not (is_unread w)) × (l.2 ≡ is_unread w)
  after_nodes-Ends = elim (Option-cases w.stream_error) [
    | inr (t, e) ↦ rw e (refl, refl, refl)
    | inl e ↦ elim (Option-cases w.state) [
      | inl h ↦ rw e (rw h (refl, refl, refl))
      | inr (s, h) ↦ let shown = after_state-Ends (some s) in rw e (rw h (shown.0, shown.1, refl))
    ]
  ]

-- The stream of the demonstration has the event "done" once, and it is the last one, whatever the graph
-- yields or raises, whatever the auth service and the remediation agent answer, and whether they can
-- be reached: unless the state of a graph that has run cannot be read, where the stream breaks off
-- without it.
pub graph_chain_stream-Ends :
    (w : World) (headers : Dict Text) (text : Text) (thread fresh : String) (a : Agent)
    → let l = graph_chain_stream w headers text thread fresh a in
      (is_closed l.sent ≡ not (is_unread w))
      × (has_done l.sent ≡ not (is_unread w))
      × (l.raised ≡ is_unread w)
unfolding graph_chain_stream
graph_chain_stream-Ends w headers text thread fresh a =
    let thread_id = if thread =s= "" then fresh else thread in
    let user_token = bearer (or_else (lookup "authorization" headers) []) in
    let n = length (sre_nodes w.stream []).1 in
    let message = text_or text default_message in
    let rest = (after_nodes w thread_id message user_token n).0 in
    let nodes = sre_nodes_closed w.stream [] rest in
    let tail = after_nodes-Ends w thread_id message user_token n in
    (nodes.0 ∙ tail.0, nodes.1 ∙ tail.1, tail.2)
