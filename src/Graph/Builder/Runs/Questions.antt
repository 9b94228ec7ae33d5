-- ===== src/Graph/Builder/Runs/Questions.antt =====
-- How often a thread asks the user.
use chat_aiagent.Prelude.{ℕ, ◌+◌, ◌≤◌, ◌≡◌, refl, ap, List, arith}
use chat_aiagent.Graph.State.{AgentState, Message}
use chat_aiagent.Graph.Builder.{Node, Target}
use chat_aiagent.Graph.Builder.Runs.{
  Runs, manages, extracts, clarifies, checks, thinks, reviews, acts, gates, observes, summarises,
  proposes, reports, chains, Reaches, start, step,
}
use chat_aiagent.Graph.Builder.Runs.Frame.{
  extract_intent-Kept, check_plan_cache-Kept, think-Kept, act-Kept, hitl_step_review-Kept,
  analysis_summary-Kept, propose_fix-Kept, report-Kept, chain_remediate-Kept, attempts-clarify,
  observe_lem,
}
use chat_aiagent.Graph.Builder.Runs.Invariant.{Reaches-clarify}

-- The runs of the node `clarify`, one by one.
abbrev pub asked : {n : Node} {s s' : AgentState} → Runs n s s' → ℕ
asked (clarifies answer s) = 1
asked _ = 0

abbrev pub questions : {ms : List Message} {t : Target} {s : AgentState} → Reaches ms t s → ℕ
questions start = 0
questions (step n s s' t r run e) = questions r + asked run

asked-attempts :
    (n : Node) (s s' : AgentState) (run : Runs n s s')
    → s'.clarification_attempts ≡ s.clarification_attempts + asked run
asked-attempts _ _ _ (manages s ms) = omega arith
asked-attempts _ _ _ (extracts reg examples ratio llm s s' h) =
    omega (arith, (extract_intent-Kept reg examples ratio llm s s' h).attempts)
asked-attempts _ _ _ (clarifies answer s) = (attempts-clarify answer s).0
asked-attempts _ _ _ (checks o d now ttl enabled cfg s) =
    omega (arith, (check_plan_cache-Kept o d now ttl enabled cfg s).attempts)
asked-attempts _ _ _ (thinks render ask llm s s' h) =
    omega (arith, (think-Kept render ask llm s s' h).attempts)
asked-attempts _ _ _ (reviews auto collector human s) =
    omega (arith, (hitl_step_review-Kept auto collector human s).attempts)
asked-attempts _ _ _ (acts dispatch s) = omega (arith, (act-Kept dispatch s).attempts)
asked-attempts _ _ _ (gates decision held result s) = omega arith
asked-attempts _ _ _ (observes render llm s s' h) =
    let (finding, e) = observe_lem render llm s s' h in
    let same : s'.clarification_attempts ≡ s.clarification_attempts =
      ap (λ x. x.clarification_attempts) e in
    omega (arith, same)
asked-attempts _ _ _ (summarises cached llm human s s' h) =
    omega (arith, (analysis_summary-Kept cached llm human s s' h).attempts)
asked-attempts _ _ _ (proposes llm collector human s s' ms h) =
    omega (arith, (propose_fix-Kept llm collector human s s' ms h).attempts)
asked-attempts _ _ _ (reports llm s s' h) = omega (arith, (report-Kept llm s s' h).attempts)
asked-attempts _ _ _ (chains redis loads thread exchange token r before s) =
    omega (arith, (chain_remediate-Kept redis loads thread exchange token r before s).attempts)

-- The counter of the state counts them.
questions-attempts :
    (ms : List Message) (t : Target) (s : AgentState) (r : Reaches ms t s)
    → questions r ≡ s.clarification_attempts
questions-attempts ms _ _ start = refl
questions-attempts ms _ _ (step n s s' t r run e) =
    omega (arith, questions-attempts ms _ s r, asked-attempts n s s' run)

-- However the model, the tools, the human and the services answer: on its way to any state that a
-- thread reaches, the node that puts a question to the user has run at most twice.
pub questions_le :
    (ms : List Message) (t : Target) (s : AgentState) (r : Reaches ms t s) → questions r ≤ 2
questions_le ms t s r = omega (arith, questions-attempts ms t s r, (Reaches-clarify ms t s r).0)
