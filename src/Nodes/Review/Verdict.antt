-- ===== src/Nodes/Review/Verdict.antt =====
-- What the human's answer to a proposed step comes to, and where the graph goes on.
use chat_aiagent.Prelude.{
  ◌≡◌, refl, String, Bool, true, false, Option, none, some, [], ◌∷◌, Text, codes, is_in, strip,
  lower, starts_with, drop, if◌then◌else◌, arith, Bool-cases, inl, inr,
}
use chat_aiagent.Graph.State.{AgentState, Signal, analysis_done, remediation_done}
use chat_aiagent.Graph.Routes.{approvals, rejections, signal_of, route_hitl_step_review}
use chat_aiagent.Nodes.Review.{review_reply}

-- An answer approves, rejects, asks for a change, or says nothing: it is blank, or it is the word
-- "modify" with no text behind it.
pub data Verdict : Type 0 where
  approve reject silent : Verdict
  modify : Text → Verdict

abbrev asks : Text → Verdict
asks [] = silent
asks (c ∷ t) = modify (c ∷ t)

unfoldable pub verdict : Text → Verdict
verdict reply =
    let r = lower (strip reply) in
    if starts_with r (codes "modify")
    then asks (strip (drop 6 reply))
    else if is_in r rejections
    then reject
    else if is_in r approvals
    then approve
    else asks (strip reply)

-- Where an approved step goes on.
abbrev pub approved : Option Signal → String
approved none = "act"
approved (some analysis_done) = "analysis_summary"
approved (some remediation_done) = "report"

abbrev pub next_of : Verdict → Option Signal → String
next_of approve signal = approved signal
next_of silent signal = approved signal
next_of reject signal = "end"
next_of (modify t) signal = "think"

modify_is_no_rejection :
    (r : Text) → starts_with r (codes "modify") ≡ true → is_in r rejections ≡ false
unfolding is_in
modify_is_no_rejection [] h = refl
modify_is_no_rejection (c ∷ r) h = ground arith

-- The whole review of a proposed step, for every answer of the human: a rejection ends the run, a
-- request for a change goes back to `think`, an approval goes on by the signal of the thought, and
-- an answer that says nothing goes on as an approval does.
pub review-route :
    (collector : Bool) (reply : Text) (s : AgentState)
    → route_hitl_step_review (review_reply collector reply s).0
      ≡ next_of (verdict reply) (signal_of s.current_thought)
unfolding route_hitl_step_review review_reply verdict
review-route collector reply s =
    elim (Bool-cases (starts_with (lower (strip reply)) (codes "modify"))) [
      | inl m ↦ ground (arith, modify_is_no_rejection (lower (strip reply)) m)
      | inr m ↦ ground arith
    ]
