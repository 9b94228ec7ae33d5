-- ===== src/Nodes/Fix/Verdict.antt =====
-- What the human's answer to a proposed fix comes to, and where the graph goes on.
use chat_aiagent.Prelude.{
  ◌≡◌, String, Bool, true, false, Option, none, some, [], ◌∷◌, Text, codes, is_in, strip, lower,
  starts_with, drop, if◌then◌else◌, arith, Bool-cases, inl, inr,
}
use chat_aiagent.Prelude.Words.{is_in-All}
use chat_aiagent.Graph.State.{AgentState}
use chat_aiagent.Graph.Routes.{rejections, route_propose_fix}
use chat_aiagent.Nodes.Fix.{approvals, fix_reply}

pub data Verdict : Type 0 where
  approve reject silent : Verdict
  modify : Text → Verdict

abbrev asks : Text → Verdict
asks [] = silent
asks (c ∷ t) = modify (c ∷ t)

unfoldable pub verdict : Text → Verdict
verdict reply =
    let r = lower (strip reply) in
    if is_in r approvals
    then approve
    else if is_in r rejections
    then reject
    else asks (if starts_with r (codes "modify") then strip (drop 6 reply) else strip reply)

-- Where a rejected fix goes on, by what `plan_cache_hit` was before the answer.
abbrev pub rejected : Option Bool → String
rejected none = "end"
rejected (some hit) = "think"

abbrev pub next_of : Verdict → Option Bool → String
next_of approve hit = "report"
next_of silent hit = "report"
next_of reject hit = rejected hit
next_of (modify t) hit = "propose_fix"

-- No word of a list is another list's, nor begins a modification.
approval_facts :
    (r : Text)
    → is_in r approvals ≡ true
    → (starts_with r (codes "modify") ≡ false) × (is_in r rejections ≡ false)
unfolding is_in
approval_facts r =
    is_in-All (λ t. (starts_with t (codes "modify") ≡ false) × (is_in t rejections ≡ false))
      approvals r (ground arith)

rejection_facts : (r : Text) → is_in r rejections ≡ true → starts_with r (codes "modify") ≡ false
unfolding is_in
rejection_facts r =
    is_in-All (λ t. starts_with t (codes "modify") ≡ false) rejections r (ground arith)

modify_facts : (r : Text) → starts_with r (codes "modify") ≡ true → is_in r rejections ≡ false
modify_facts r h = elim (Bool-cases (is_in r rejections)) [
  | inl e ↦ absurd (ground (arith, rejection_facts r e))
  | inr e ↦ e
]

-- The whole review of a fix, for every answer of the human and every state of the plan cache: an
-- approval goes on to the report, and so does an answer that says nothing; a request for a change
-- comes back to the proposal; a rejection ends the run if the plan cache was never consulted with a
-- hit, and goes back to the analysis if it was, or if a change had been asked for before.
pub fix-route :
    (collector : Bool) (fix reply : Text) (s : AgentState)
    → route_propose_fix (fix_reply collector fix reply s).0
      ≡ next_of (verdict reply) s.plan_cache_hit
unfolding route_propose_fix fix_reply verdict
fix-route collector fix reply s =
    let r = lower (strip reply) in
    elim (Bool-cases (is_in r approvals)) [
      | inl a ↦ ground (arith, approval_facts r a)
      | inr a ↦ elim (Bool-cases (is_in r rejections)) [
        | inl b ↦ ground (arith, rejection_facts r b)
        | inr b ↦ ground arith
      ]
    ]
