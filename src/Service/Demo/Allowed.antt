-- ===== src/Service/Demo/Allowed.antt =====
-- The demonstration with the remediation agent behind it, where the policy lets its request through.
mod Tests
use chat_aiagent.Prelude.{
  ℕ, suc, ◌≡◌, refl, ◌∙◌, strip, inl, inr, String, Bool, true, false, Option, none, some, List, [],
  ◌∷◌, ◌++◌, Text, Dict, map, codes, arith, Option-cases, Bool-cases, or_else, text_eq, lookup,
  if◌then◌else◌, ◌=s=◌,
}
use chat_aiagent.Prelude.Json.{
  Json, null, bool, num, str, arr, obj, Items, nil, cons, Fields, end, field, get,
}
use chat_aiagent.Remediation.{
  Response, answered, server_error, Planned, plan, raised, is_object, all_objects, count_of, logged,
  planned, response_of, graph_invoke, invoke_prompt, unfenced, invoke_endpoint, summary_of,
}
use chat_aiagent.Service.Events.{bearer}
use chat_aiagent.Service.Endpoints.{Agent}
use chat_aiagent.Service.Demo.{
  Sent, remediation_response, World, Call, Reply, reply, destructive, destructive_items,
  is_destructive, plan_event, graph_chain_stream,
}
use chat_aiagent.Service.Demo as Demo
use chat_aiagent.Service.Demo.Asks.{
  plan_of, plans, Asked, not_asked, asked, graph_chain_stream-Asked,
}

-- The response on the wire; `reason` is the text of the agent's exception.
abbrev pub reply_of : Text → Response → Reply
reply_of reason (answered j caller thread_id) = reply 200 (
    some
      (obj (field "plan" j (field "caller" (str caller) (field "thread_id" (str thread_id) end)))))
reply_of reason server_error = reply 500 (some (obj (field "error" (str reason) end)))

-- What is shown as the plan of a response.
abbrev pub shown_plan : Response → Json
shown_plan (answered j caller thread_id) = j
shown_plan server_error = obj end

-- The plans of which the agent has counted the destructive steps.
items_counted : (vs : Items) → all_objects vs ≡ true → (n : ℕ) × (destructive_items vs ≡ some n)
items_counted nil h = (0, refl)
items_counted (cons (obj fs) vs) h =
    let (n, e) = items_counted vs h in (if is_destructive fs then suc n else n, rw e refl)
items_counted (cons null vs) h = absurd (ground arith)
items_counted (cons (bool b) vs) h = absurd (ground arith)
items_counted (cons (num b) vs) h = absurd (ground arith)
items_counted (cons (str b) vs) h = absurd (ground arith)
items_counted (cons (arr b) vs) h = absurd (ground arith)

steps_counted :
    (steps : Option Json)
    → count_of true steps ≡ true
    → (n : ℕ) × (destructive (or_else steps (arr nil)) ≡ some n)
unfolding destructive
steps_counted none h = (0, refl)
steps_counted (some null) h = absurd (ground arith)
steps_counted (some (bool b)) h = absurd (ground arith)
steps_counted (some (num t)) h = absurd (ground arith)
steps_counted (some (str [])) h = (0, refl)
steps_counted (some (str (c ∷ t))) h = absurd (ground arith)
steps_counted (some (arr vs)) h = items_counted vs h
steps_counted (some (obj end)) h = (0, refl)
steps_counted (some (obj (field k v fs))) h = absurd (ground arith)

plan_event-plan :
    (reason : Text) (fs : Fields)
    → count_of true (get "steps" fs) ≡ true
    → plan_of (plan_event reason (obj fs)) ≡ obj fs ∷ []
plan_event-plan reason fs h = let (n, e) = steps_counted (get "steps" fs) h in ground (arith, e)

-- What the agent answers is shown as it is, and its failure as an empty plan.
module _ (reason why : Text) (caller thread_id : Text) where
  abbrev shown_of : Planned → List Json
  shown_of p = plan_of (Demo.answered reason (reply_of why (response_of caller thread_id p)))

  logged_shown :
      (j : Json)
      → shown_of (logged true j) ≡ shown_plan (response_of caller thread_id (logged true j)) ∷ []
  unfolding Demo.answered get
  logged_shown (obj fs) = elim (Bool-cases (count_of true (get "steps" fs))) [
    | inl e ↦ rw e (plan_event-plan reason fs e)
    | inr e ↦ rw e refl
  ]
  logged_shown j = refl

  planned_shown :
      (raw : Text) (j : Option Json)
      → shown_of (planned true raw j)
        ≡ shown_plan (response_of caller thread_id (planned true raw j)) ∷ []
  unfolding Demo.answered get
  planned_shown raw none = refl
  planned_shown raw (some j) = logged_shown j

module _ (loads : Text → Option Json) (model : Text → Option Text) (why caller : Text) where
  -- What the remediation agent answers a request of the demonstration.
  abbrev pub response : Call → Response
  response c = invoke_endpoint loads model caller c.message (codes c.thread_id)

  abbrev pub behind : World → World
  behind w = record w { remediation = λ c. reply_of why (response c) }

  response_shown :
      (reason : Text) (c : Call)
      → plan_of (Demo.answered reason (reply_of why (response c))) ≡ shown_plan (response c) ∷ []
  unfolding invoke_endpoint graph_invoke Demo.answered get
  response_shown reason c =
      elim (Option-cases (model (invoke_prompt (codes c.thread_id) c.message))) [
        | inl e ↦ rw e refl
        | inr (text, e) ↦
            let raw = unfenced (strip text) in
            rw e (planned_shown reason why caller (codes c.thread_id) raw (loads raw))
      ]

  Asked-plans :
      (w : World) (user_token : Text) (thread_id : String) (sent : List Sent) (calls : List Call)
      → Asked (behind w) user_token thread_id sent calls
      → plans sent ≡ map (λ c. shown_plan (response c)) calls
  Asked-plans w user_token thread_id _ _ (not_asked sent p) = p
  Asked-plans w user_token thread_id _ _ (asked sent c g t m p) = p ∙ response_shown w.reason c

  -- With the remediation agent behind the demonstration, and no policy that refuses its request, each
  -- request is shown as allowed, with the plan that the agent answers: whatever the model says, the
  -- reading of the plan raises nothing. Where the agent fails, the stream shows an allowed request
  -- with an empty plan, and no error.
  pub graph_chain_stream-plans :
      (w : World) (headers : Dict Text) (text : Text) (thread fresh : String) (a : Agent)
      → let l = graph_chain_stream (behind w) headers text thread fresh a in
        plans l.sent ≡ map (λ c. shown_plan (response c)) l.calls
  graph_chain_stream-plans w headers text thread fresh a =
      let l = graph_chain_stream (behind w) headers text thread fresh a in
      Asked-plans w (bearer (or_else (lookup "authorization" headers) []))
        (if thread =s= "" then fresh else thread) l.sent l.calls
        (graph_chain_stream-Asked (behind w) headers text thread fresh a)
