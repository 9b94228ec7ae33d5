-- ===== src/Nodes/Chain/Tests.antt =====
-- A call that the policy refuses.
use chat_aiagent.Prelude.{ℕ, ◌≡◌, ◌≢◌, refl, Bool, true, Option, none, some, [], Text, codes}
use chat_aiagent.Prelude.Json.{Json, obj, end}
use chat_aiagent.Graph.State.{AgentState, initial}
use chat_aiagent.Nodes.Chain.{Payload, Response, answer, outcome, chain_remediate, call_agent}
use chat_aiagent.Nodes.Chain.Shown.{shown-chain_remediate, not_allowed-chain_remediate}

abbrev accepts : ℕ → Bool
accepts n = true

abbrev no_json : Text → Option Json
no_json t = none

abbrev denied : Response
denied = answer 403 [] true

abbrev left : AgentState × Option Payload
left = chain_remediate accepts no_json "t1" (initial []) (λ t. some t) (codes "jwt") denied none

denied_response :
    left.0.remediation_response ≡ some (record { opa_decision = "DENY"; plan = obj end })
unfolding chain_remediate outcome call_agent
denied_response = refl

shown-chain_remediate_example :
    (p : Payload) × (left.1 ≡ some p)
    × (p.status ≡ "done")
    × (left.0.remediation_response ≡ some (record { opa_decision = p.opa_decision; plan = p.plan }))
shown-chain_remediate_example =
    shown-chain_remediate accepts no_json "t1" (initial []) (λ t. some t) (codes "jwt") denied none
      (λ n. refl)

not_allowed-chain_remediate_example :
    let l = outcome accepts no_json "t1" (initial []) (λ t. some t) (codes "jwt") denied none in
    (l.plan ≡ obj end) × (l.opa_decision ≢ "ALLOW")
not_allowed-chain_remediate_example =
    not_allowed-chain_remediate accepts no_json "t1" (initial []) (λ t. some t) (codes "jwt") denied
      none refl
