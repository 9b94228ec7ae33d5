-- ===== src/Graph/Builder/Steps.antt =====
-- What the routes and the edge maps come to together.
use chat_aiagent.Prelude.{
  ℕ, ◌≡◌, ◌<◌, inl, inr, refl, true, false, ◌||◌, ◌&&◌, Option, none, some, is_in, or_else, lookup,
  is_some, ltb, if◌then◌else◌, arith, Bool-cases, Option-cases,
}
use chat_aiagent.Graph.State.{AgentState, Intent, Signal, analysis_done, remediation_done, truthy}
use chat_aiagent.Graph.Routes.{
  route_intent, route_cache, route_hitl_step_review, route_analysis_summary, route_propose_fix,
  response, rejections, approvals, signal_of, route_signal, is_false, min_confidence,
}
use chat_aiagent.Graph.Builder.{
  Node, manage_context, extract_intent, clarify, check_plan_cache, think, hitl_step_review, act,
  observe, analysis_summary, propose_fix, report, chain_remediate, Target, node, finish, next,
  review_edges,
}

abbrev signal_target : Option Signal → Target
signal_target (some analysis_done) = node analysis_summary
signal_target (some remediation_done) = node report
signal_target none = node act

-- An unclear intent leads to a question while fewer than two were put; a clear one to the cache.
abbrev intent_target : ℕ → Option Intent → Target
intent_target attempts none = finish
intent_target attempts (some i) =
    if (i.ambiguous || ltb i.confidence min_confidence) && ltb attempts 2
    then node clarify
    else node check_plan_cache

next_intent :
    (s : AgentState)
    → next extract_intent s ≡ some (intent_target s.clarification_attempts s.intent)
unfolding next route_intent lookup
next_intent s = elim (Option-cases s.intent) [
  | inl e ↦ rw e refl
  | inr (i, e) ↦
      rw e
        (elim (Bool-cases
          ((i.ambiguous || ltb i.confidence min_confidence) && ltb s.clarification_attempts 2)) [
            | inl b ↦ rw b refl
            | inr b ↦ rw b refl
          ])
]

next_cache :
    (s : AgentState)
    → next check_plan_cache s
      ≡ some (if or_else s.plan_cache_hit false then node propose_fix else node think)
unfolding next route_cache lookup
next_cache s = elim (Bool-cases (or_else s.plan_cache_hit false)) [
  | inl b ↦ rw b refl
  | inr b ↦ rw b refl
]

signal_label : (t : Option Signal) → lookup (route_signal t) review_edges ≡ some (signal_target t)
unfolding lookup
signal_label none = refl
signal_label (some analysis_done) = refl
signal_label (some remediation_done) = refl

next_review :
    (s : AgentState)
    → next hitl_step_review s
      ≡ some (
          if truthy s.hitl_feedback
          then node think
          else if is_in (response s) rejections
          then finish
          else signal_target (signal_of s.current_thought))
unfolding next route_hitl_step_review lookup
next_review s = elim (Bool-cases (truthy s.hitl_feedback)) [
  | inl b ↦ rw b refl
  | inr b ↦ rw b (elim (Bool-cases (is_in (response s) rejections)) [
    | inl c ↦ rw c refl
    | inr c ↦ rw c (signal_label (signal_of s.current_thought))
  ])
]

next_summary :
    (s : AgentState)
    → next analysis_summary s
      ≡ some (if is_in (response s) approvals then node propose_fix else finish)
unfolding next route_analysis_summary lookup
next_summary s = elim (Bool-cases (is_in (response s) approvals)) [
  | inl b ↦ rw b refl
  | inr b ↦ rw b refl
]

next_fix :
    (s : AgentState)
    → next propose_fix s
      ≡ some (
          if truthy s.hitl_feedback
          then node propose_fix
          else if is_in (response s) rejections
          then (if is_false s.plan_cache_hit then node think else finish)
          else node report)
unfolding next route_propose_fix lookup
next_fix s = elim (Bool-cases (truthy s.hitl_feedback)) [
  | inl b ↦ rw b refl
  | inr b ↦ rw b (elim (Bool-cases (is_in (response s) rejections)) [
    | inl c ↦
        rw c
          (elim (Bool-cases (is_false s.plan_cache_hit)) [ inl d ↦ rw d refl | inr d ↦ rw d refl ])
    | inr c ↦ rw c refl
  ])
]

-- From every node and in every state the graph has an edge: no route returns a label that the edge
-- map of its node lacks.
pub next-total : (n : Node) (s : AgentState) → is_some (next n s) ≡ true
unfolding next
next-total manage_context s = refl
next-total extract_intent s = rw (next_intent s) refl
next-total clarify s = refl
next-total check_plan_cache s = rw (next_cache s) refl
next-total think s = refl
next-total hitl_step_review s = rw (next_review s) refl
next-total act s = refl
next-total observe s = refl
next-total analysis_summary s = rw (next_summary s) refl
next-total propose_fix s = rw (next_fix s) refl
next-total report s = refl
next-total chain_remediate s = refl

-- Where the graph asks the user for a clarification, fewer than two have been asked for.
pub next-clarify :
    (n : Node) (s : AgentState) → next n s ≡ some (node clarify) → s.clarification_attempts < 2
unfolding next
next-clarify manage_context s h = absurd (ground arith)
next-clarify extract_intent s h = ground (arith, next_intent s)
next-clarify clarify s h = absurd (ground arith)
next-clarify check_plan_cache s h = absurd (ground (arith, next_cache s))
next-clarify think s h = absurd (ground arith)
next-clarify hitl_step_review s h = absurd (ground (arith, next_review s))
next-clarify act s h = absurd (ground arith)
next-clarify observe s h = absurd (ground arith)
next-clarify analysis_summary s h = absurd (ground (arith, next_summary s))
next-clarify propose_fix s h = absurd (ground (arith, next_fix s))
next-clarify report s h = absurd (ground arith)
next-clarify chain_remediate s h = absurd (ground arith)

-- A state in which the human has been asked about the step of the current thought, has not rejected
-- it and has asked for no change, and the thought proposes a tool.
pub record Reviewed (s : AgentState) : Type 0 where
  pub no_feedback : truthy s.hitl_feedback ≡ false
  pub not_rejected : is_in (response s) rejections ≡ false
  pub proposes : signal_of s.current_thought ≡ none

-- The graph goes on to `act` from the review alone, and in such a state alone.
pub next-act :
    (n : Node) (s : AgentState) → next n s ≡ some (node act) → (n ≡ hitl_step_review) × Reviewed s
unfolding next
next-act manage_context s h = absurd (ground arith)
next-act extract_intent s h = absurd (ground (arith, next_intent s))
next-act clarify s h = absurd (ground arith)
next-act check_plan_cache s h = absurd (ground (arith, next_cache s))
next-act think s h = absurd (ground arith)
next-act hitl_step_review s h = (
  refl,
  record {
    no_feedback = ground (arith, next_review s);
    not_rejected = ground (arith, next_review s);
    proposes = ground (arith, next_review s);
  },
)
next-act act s h = absurd (ground arith)
next-act observe s h = absurd (ground arith)
next-act analysis_summary s h = absurd (ground (arith, next_summary s))
next-act propose_fix s h = absurd (ground (arith, next_fix s))
next-act report s h = absurd (ground arith)
next-act chain_remediate s h = absurd (ground arith)
