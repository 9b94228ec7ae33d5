-- ===== src/Nodes/Chain/Shown.antt =====
-- What the page shows, and what a refused call leaves.
use chat_aiagent.Prelude.{
  ℕ, ◌∙◌, ◌≡◌, ◌≢◌, refl, inl, inr, ap, String, Bool, true, false, not, ◌&&◌, Option, some, [],
  Text, ◌==◌, arith, eq_iff, Bool-cases,
}
use chat_aiagent.Prelude.Json.{Json, obj, end}
use chat_aiagent.Graph.State.{AgentState, RemediationResponse, truthy}
use chat_aiagent.Nodes.Chain.{
  Payload, Local, Response, unreachable, answer, obo_token, payload, set_latest, call_agent, finish,
  start, outcome, chain_remediate,
}

-- The policy refuses: status 403.
abbrev pub is_denied : Response → Bool
is_denied unreachable = false
is_denied (answer code lines ends) = code == 403

module _ (redis : ℕ → Bool) (loads : Text → Option Json) (thread_id : String) (s : AgentState) where
  -- The last thing that happens is the last write.
  outcome-finish :
      (exchange : Text → Option Text) (token : Text) (r : Response) (before : Option Payload)
      → ((n : ℕ) → redis n ≡ true)
      → (l : Local) × (outcome redis loads thread_id s exchange token r before
          ≡ finish redis loads thread_id s l)
  unfolding outcome
  outcome-finish exchange token r before up =
      let l₀ = start redis loads thread_id s "UNKNOWN" before in
      let l₁ = (set_latest redis (payload thread_id s "streaming" [] l₀) l₀).0 in
      elim (Bool-cases (truthy (obo_token exchange token))) [
        | inl e ↦ (call_agent redis loads thread_id s r l₁, rw e (rw (up 0) refl))
        | inr e ↦ (start redis loads thread_id s "NO_TOKEN" before, rw e refl)
      ]

  shown-finish :
      (l : Local)
      → ((n : ℕ) → redis n ≡ true)
      → (finish redis loads thread_id s l).shown ≡ some (payload thread_id s "done" [] l)
  shown-finish l up = ground (arith, up l.tried)

  abbrev response_of : Local → Option RemediationResponse
  response_of l = some (record { opa_decision = l.opa_decision; plan = l.plan })

  response_of-finish : (l : Local) → response_of (finish redis loads thread_id s l) ≡ response_of l
  response_of-finish l = elim (Bool-cases (redis l.tried)) [
    | inl e ↦ ground arith
    | inr e ↦ ground arith
  ]

  -- The page and the state agree: where Redis accepts every write, what it shows at the end is done,
  -- and its decision and plan are those of the response that the node leaves in the state.
  pub shown-chain_remediate :
      (exchange : Text → Option Text) (token : Text) (r : Response) (before : Option Payload)
      → ((n : ℕ) → redis n ≡ true)
      → let (s', shown) = chain_remediate redis loads thread_id s exchange token r before in
        (p : Payload) × (shown ≡ some p)
        × (p.status ≡ "done")
        × (s'.remediation_response ≡ some (record { opa_decision = p.opa_decision; plan = p.plan }))
  unfolding chain_remediate
  shown-chain_remediate exchange token r before up =
      let (l, e) = outcome-finish exchange token r before up in
      (
        payload thread_id s "done" [] l,
        ap (λ (m : Local). m.shown) e ∙ shown-finish l up,
        refl,
        ap response_of e ∙ response_of-finish l,
      )

  -- A call that is not allowed leaves nothing: without a token, or where the policy refuses, the
  -- response has an empty plan and another decision than ALLOW, whatever Redis does.
  pub not_allowed-chain_remediate :
      (exchange : Text → Option Text) (token : Text) (r : Response) (before : Option Payload)
      → (truthy (obo_token exchange token) && not (is_denied r)) ≡ false
      → let l = outcome redis loads thread_id s exchange token r before in
        (l.plan ≡ obj end) × (l.opa_decision ≢ "ALLOW")
  unfolding outcome call_agent
  not_allowed-chain_remediate exchange token r before h = ground (
    arith,
    eq_iff "NO_TOKEN" "ALLOW",
    eq_iff "UNKNOWN" "ALLOW",
    eq_iff "DENY" "ALLOW",
    eq_iff "ERROR" "ALLOW",
  )
