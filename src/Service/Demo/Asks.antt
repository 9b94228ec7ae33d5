-- ===== src/Service/Demo/Asks.antt =====
-- What the demonstration asks of the remediation agent, and in whose name.
use chat_aiagent.Prelude.{
  ℕ, ◌≡◌, refl, inl, inr, String, true, false, Option, none, some, List, [], ◌∷◌, ◌++◌, Text, Dict,
  arith, Option-cases, text_or, or_else, lookup, if◌then◌else◌, ◌=s=◌, length, ◌∙◌,
}
use chat_aiagent.Prelude.Json.{Json}
use chat_aiagent.Graph.State.{AgentState}
use chat_aiagent.Service.Stream.{Event}
use chat_aiagent.Service.Events.{bearer}
use chat_aiagent.Service.Endpoints.{Agent}
use chat_aiagent.Service.Demo.{
  Sent, sre_findings, sre_start, sre_node, obo_issued, chain_request, opa_deny,
  remediation_response, error, done, World, Call, Granted, granted, refused, started, entry,
  sre_nodes, answered, call_of, after_exchange, after_state, after_nodes, default_message,
  demo_findings, values_of, graph_chain_stream,
}
use chat_aiagent.Service.Demo.Ends.{no_node, new_node, is_outcome, answered_lem}

abbrev pub plan_of : Sent → List Json
plan_of (remediation_response plan n) = plan ∷ []
plan_of _ = []

abbrev text_of : Sent → List Text
text_of (sre_findings t n) = t ∷ []
text_of _ = []

-- The plans and the findings that a stream shows.
abbrev pub plans : List Sent → List Json
plans [] = []
plans (e ∷ es) = plan_of e ++ plans es

abbrev pub shown : List Sent → List Text
shown [] = []
shown (e ∷ es) = text_of e ++ shown es

pub data Asked (w : World) (user_token : Text) (thread_id : String)
    : List Sent → List Call → Type 0 where
  not_asked : (sent : List Sent) → plans sent ≡ [] → Asked w user_token thread_id sent []
  asked :
      (sent : List Sent) (c : Call)
      → w.exchange user_token ≡ granted c.token
      → c.thread_id ≡ thread_id
      → shown sent ≡ c.message ∷ []
      → plans sent ≡ plan_of (answered w.reason (w.remediation c))
      → Asked w user_token thread_id sent (c ∷ [])

sre_nodes_shown :
    (es : List Event) (log : List Text) (rest : List Sent)
    → (plans ((sre_nodes es log).0 ++ rest) ≡ plans rest)
      × (shown ((sre_nodes es log).0 ++ rest) ≡ shown rest)
unfolding sre_nodes
sre_nodes_shown [] log rest = (refl, refl)
sre_nodes_shown (e ∷ es) log rest = elim (Option-cases (started e)) [
  | inl h ↦ rw (no_node e es log h) (sre_nodes_shown es log rest)
  | inr (node, h) ↦ rw (new_node e es log node h) (sre_nodes_shown es (log ++ entry node ∷ []) rest)
]

-- An outcome shows no findings, and the plans of it alone.
outcome_shown : (e : Sent) → is_outcome e ≡ true → (text_of e ≡ []) × (plan_of e ++ [] ≡ plan_of e)
outcome_shown opa_deny h = (refl, refl)
outcome_shown (remediation_response plan n) h = (refl, refl)
outcome_shown (error t) h = (refl, refl)
outcome_shown (sre_findings t n) h = absurd (ground arith)
outcome_shown sre_start h = (refl, refl)
outcome_shown (sre_node node label log) h = (refl, refl)
outcome_shown obo_issued h = (refl, refl)
outcome_shown chain_request h = (refl, refl)
outcome_shown done h = (refl, refl)

module _ (w : World) (user_token : Text) (thread_id : String) where
  behind :
      (sent later : List Sent) (calls : List Call)
      → Asked w user_token thread_id sent calls
      → plans later ≡ plans sent
      → shown later ≡ shown sent
      → Asked w user_token thread_id later calls
  behind _ later _ (not_asked sent p) h k = not_asked later (h ∙ p)
  behind _ later _ (asked sent c g t m p) h k = asked later c g t (k ∙ m) (h ∙ p)

  module _ (message : Text) (n : ℕ) where
    after_exchange-Asked :
        (findings : Text) (g : Granted)
        → w.exchange user_token ≡ g
        → let l = after_exchange w thread_id findings g in
          Asked w user_token thread_id (sre_findings findings n ∷ l.0) l.1
    after_exchange-Asked findings (refused t) h = not_asked _ refl
    after_exchange-Asked findings (granted token) h =
        let c = call_of w thread_id findings token in
        let r = w.remediation c in
        let told = outcome_shown (answered w.reason r) (answered_lem w.reason r) in
        asked _ c h refl (rw told.0 refl) told.1

    after_state-Asked :
        (s : Option (Option AgentState))
        → let l = after_state w thread_id message user_token n s in
          Asked w user_token thread_id l.0 l.1
    after_state-Asked none = not_asked [] refl
    after_state-Asked (some s) =
        after_exchange-Asked (demo_findings message (values_of s)) (w.exchange user_token) refl

    unbroken :
        w.stream_error ≡ none
        → after_nodes w thread_id message user_token n
          ≡ after_state w thread_id message user_token n w.state
    unbroken e = ground (arith, e)

    broken :
        (t : Text)
        → w.stream_error ≡ some t
        → after_nodes w thread_id message user_token n ≡ (error t ∷ done ∷ [], [], false)
    broken t e = ground (arith, e)

    after_nodes-Asked :
        let l = after_nodes w thread_id message user_token n in Asked w user_token thread_id l.0 l.1
    after_nodes-Asked = elim (Option-cases w.stream_error) [
      | inr (t, e) ↦ rw (broken t e) (not_asked _ refl)
      | inl e ↦ rw (unbroken e) (after_state-Asked w.state)
    ]

-- The demonstration asks the remediation agent at most once: with the token that the auth service has
-- granted in exchange for the caller's own, in the thread of the request, and with the findings that
-- the stream shows. The plan that the stream shows is that of the answer, and without a request it
-- shows none.
pub graph_chain_stream-Asked :
    (w : World) (headers : Dict Text) (text : Text) (thread fresh : String) (a : Agent)
    → let l = graph_chain_stream w headers text thread fresh a in
      Asked w
        (bearer (or_else (lookup "authorization" headers) []))
        (if thread =s= "" then fresh else thread)
        l.sent
        l.calls
unfolding graph_chain_stream
graph_chain_stream-Asked w headers text thread fresh a =
    let thread_id = if thread =s= "" then fresh else thread in
    let user_token = bearer (or_else (lookup "authorization" headers) []) in
    let n = length (sre_nodes w.stream []).1 in
    let l = after_nodes w thread_id (text_or text default_message) user_token n in
    let nodes = sre_nodes_shown w.stream [] l.0 in
    behind w user_token thread_id l.0 _ l.1
      (after_nodes-Asked w user_token thread_id (text_or text default_message) n) nodes.0 nodes.1
