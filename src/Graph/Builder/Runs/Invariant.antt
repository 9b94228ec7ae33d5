-- ===== src/Graph/Builder/Runs/Invariant.antt =====
-- The invariant of the runs.
use chat_aiagent.Prelude.{ℕ, ◌≤◌, ◌<◌, ◌≡◌, refl, subst, sym, List, arith}
use chat_aiagent.Graph.State.{AgentState, Message}
use chat_aiagent.Graph.Builder.{Node, clarify, hitl_step_review, act, Target, node}
use chat_aiagent.Graph.Builder.Steps.{next-clarify, next-act, Reviewed}
use chat_aiagent.Graph.Builder.Runs.{
  Runs, manages, extracts, clarifies, checks, thinks, reviews, acts, gates, observes, summarises,
  proposes, reports, chains, Reaches, start, step,
}
use chat_aiagent.Nodes.Loop.{observed}
use chat_aiagent.Nodes.Loop.Steps.{NumberedFrom, observed-NumberedFrom}
use chat_aiagent.Graph.Builder.Runs.Frame.{
  Kept, extract_intent-Kept, check_plan_cache-Kept, think-Kept, act-Kept, hitl_step_review-Kept,
  analysis_summary-Kept, propose_fix-Kept, report-Kept, chain_remediate-Kept, attempts-clarify,
  observe_lem,
}

-- At most two questions are counted, and fewer before another one; the steps are numbered in order.
record Safe (t : Target) (s : AgentState) : Type 0 where
  attempts : s.clarification_attempts ≤ 2
  asks : t ≡ node clarify → s.clarification_attempts < 2
  numbered : NumberedFrom 1 s.step_history

abbrev Within : ℕ → AgentState → Type 0
Within n s = (s.clarification_attempts ≤ n) × NumberedFrom 1 s.step_history

Kept-Within : (s s' : AgentState) → Kept s s' → Within 2 s → Within 2 s'
Kept-Within s s' k w = (ground (arith, k.attempts), subst (NumberedFrom 1) (sym k.history) w.1)

-- A node keeps within the bounds; a question does so because fewer than two were put.
Runs-Within :
    (n : Node) (s s' : AgentState)
    → Within 2 s
    → (node n ≡ node clarify → s.clarification_attempts < 2)
    → Runs n s s'
    → Within 2 s'
Runs-Within _ _ _ w asks (manages s ms) = w
Runs-Within _ _ _ w asks (extracts reg examples ratio llm s s' h) =
    Kept-Within s s' (extract_intent-Kept reg examples ratio llm s s' h) w
Runs-Within _ _ _ w asks (clarifies answer s) =
    let k = attempts-clarify answer s in
    (ground (arith, k.0, asks refl), subst (NumberedFrom 1) (sym k.1) w.1)
Runs-Within _ _ _ w asks (checks o d now ttl enabled cfg s) =
    Kept-Within s _ (check_plan_cache-Kept o d now ttl enabled cfg s) w
Runs-Within _ _ _ w asks (thinks render ask llm s s' h) =
    Kept-Within s s' (think-Kept render ask llm s s' h) w
Runs-Within _ _ _ w asks (reviews auto collector human s) =
    Kept-Within s _ (hitl_step_review-Kept auto collector human s) w
Runs-Within _ _ _ w asks (acts dispatch s) = Kept-Within s _ (act-Kept dispatch s) w
Runs-Within _ _ _ w asks (gates decision held result s) = w
Runs-Within _ _ _ w asks (observes render llm s s' h) =
    let (finding, e) = observe_lem render llm s s' h in
    subst (Within 2) {x = observed render finding s} {y = s'} (sym e)
      (w.0, observed-NumberedFrom render finding s w.1)
Runs-Within _ _ _ w asks (summarises cached llm human s s' h) =
    Kept-Within s s' (analysis_summary-Kept cached llm human s s' h) w
Runs-Within _ _ _ w asks (proposes llm collector human s s' ms h) =
    Kept-Within s s' (propose_fix-Kept llm collector human s s' ms h) w
Runs-Within _ _ _ w asks (reports llm s s' h) = Kept-Within s s' (report-Kept llm s s' h) w
Runs-Within _ _ _ w asks (chains redis loads thread exchange token r before s) =
    Kept-Within s _ (chain_remediate-Kept redis loads thread exchange token r before s) w

-- The whole invariant of the runs.
Reaches-Safe : (ms : List Message) (t : Target) (s : AgentState) → Reaches ms t s → Safe t s
Reaches-Safe ms _ _ start = record {
  attempts = omega arith;
  asks = λ e. omega arith;
  numbered = tt;
}
Reaches-Safe ms _ _ (step n s s' t r run e) =
    let safe = Reaches-Safe ms (node n) s r in
    let w = Runs-Within n s s' (safe.attempts, safe.numbered) safe.asks run in
    record { attempts = w.0; asks = λ p. next-clarify n s' (ground (arith, e, p)); numbered = w.1 }

-- A thread counts at most two questions, and fewer than two when it goes on to put one.
pub Reaches-clarify :
    (ms : List Message) (t : Target) (s : AgentState)
    → Reaches ms t s
    → (s.clarification_attempts ≤ 2) × (t ≡ node clarify → s.clarification_attempts < 2)
Reaches-clarify ms t s r = let safe = Reaches-Safe ms t s r in (safe.attempts, safe.asks)

-- In every state that a thread reaches, the steps that were taken are numbered 1, 2, … in the order
-- of the list.
pub Reaches-NumberedFrom :
    (ms : List Message) (t : Target) (s : AgentState)
    → Reaches ms t s
    → NumberedFrom 1 s.step_history
Reaches-NumberedFrom ms t s r = (Reaches-Safe ms t s r).numbered

act_step :
    (ms : List Message) (t : Target) (s : AgentState)
    → Reaches ms t s
    → t ≡ node act
    → (s₀ : AgentState) × Reaches ms (node hitl_step_review) s₀
      × Runs hitl_step_review s₀ s
      × Reviewed s
act_step ms _ _ start p = absurd (ground arith)
act_step ms _ _ (step n s s' t r run e) p =
    let (q, reviewed) = next-act n s' (ground (arith, e, p)) in
    (s, subst (λ m. Reaches ms (node m) s) q r, subst (λ m. Runs m s s') q run, reviewed)

-- Whenever a thread goes on to call a tool, it comes straight from the node of the review, and in the
-- state that this node left no change is asked for, the answer is none of the words of rejection,
-- and the thought gives no signal.
pub Reaches-Reviewed :
    (ms : List Message) (s : AgentState)
    → Reaches ms (node act) s
    → (s₀ : AgentState) × Reaches ms (node hitl_step_review) s₀
      × Runs hitl_step_review s₀ s
      × Reviewed s
Reaches-Reviewed ms s r = act_step ms (node act) s r refl
