-- ===== src/Graph/Builder/Tests.antt =====
-- A run of the graph up to the output of its first tool: the intent is clear, the cache misses, the
-- model proposes a tool, and the human approves. In another one the intent is unclear.
use chat_aiagent.Prelude.{
  ℕ, ◌≡◌, ◌≤◌, refl, true, false, none, some, List, [], ◌∷◌, Text, codes, is_in, length, lookup,
  insert, lower, strip, is_some,
}
use chat_aiagent.Prelude.Json.{str, obj, end}
use chat_aiagent.Graph.State.{AgentState, Message, human, Intent, Thought, initial}
use chat_aiagent.Graph.Routes.{route_intent, route_cache, route_hitl_step_review}
use chat_aiagent.Graph.Builder.{
  manage_context, extract_intent, clarify, check_plan_cache, think, hitl_step_review, act, observe,
  node, next,
}
use chat_aiagent.Graph.Builder.Steps.{next-total, Reviewed}
use chat_aiagent.Graph.Builder.Runs.{
  Runs, manages, extracts, clarifies, checks, thinks, reviews, acts, observes, Reaches, start, step,
}
use chat_aiagent.Graph.Builder.Runs.Invariant.{Reaches-NumberedFrom, Reaches-Reviewed}
use chat_aiagent.Graph.Builder.Runs.Questions.{questions, questions_le}
use chat_aiagent.Nodes.Clarify
use chat_aiagent.Nodes.Loop
use chat_aiagent.Nodes.Intents
use chat_aiagent.Nodes.Intents.{Answers, valid_intents, pin, check_action, conclude, human_messages}
use chat_aiagent.Nodes.Think
use chat_aiagent.Nodes.Think.Gather.{no_context}
use chat_aiagent.Nodes.Think.Prompt.{build_prompt}
use chat_aiagent.Nodes.Cache
use chat_aiagent.Nodes.Loop.Steps.{NumberedFrom}
use chat_aiagent.Nodes.Review

abbrev request : List Message
request = record { role = human; content = codes "the tunnel is down" } ∷ []

abbrev registry : Answers
registry = record {
  search_domains = λ t. record { name = "network"; hint = none; intents = [] } ∷ [];
  get_intents = λ d. some [];
  get_playbook = λ d. some none;
}

abbrev heard : Intent
heard = record {
  action = "diagnose";
  domain = "network";
  confidence = 900000;
  ambiguous = false;
  ambiguity_reason = [];
}

abbrev no_ratio : Text → Text → ℕ
no_ratio a b = 0

abbrev understood : AgentState
understood = Intents.concluded heard (("network", "") ∷ []) (initial request)

abbrev thought : Thought
thought = record {
  reasoning = codes "look at the tunnel";
  tool_name = some (codes "get_tunnel_status");
  inputs = obj end;
  signal = none;
}

abbrev proposed : AgentState
proposed = Think.thought_produced thought understood

abbrev approved : AgentState
approved = (Review.hitl_step_review false false (λ p. codes "yes") proposed).0

first_intent :
    Intents.extract_intent registry [] no_ratio (λ n t ms. some heard) (initial request)
    ≡ some understood
unfolding Intents.extract_intent conclude check_action pin valid_intents lookup insert
first_intent = refl

thinks_proposed :
    Think.think (λ j. []) (λ d t. some no_context) (λ t ms. some thought) understood ≡ some proposed
unfolding Think.think build_prompt
thinks_proposed = refl

reaches_check : Reaches request (node check_plan_cache) understood
unfolding next route_intent lookup
reaches_check =
    step extract_intent (initial request) understood (node check_plan_cache)
      (step manage_context (initial request) (initial request) (node extract_intent) start
        (manages (initial request) request) refl)
      (extracts registry [] no_ratio (λ n t ms. some heard) (initial request) understood
        first_intent)
      refl

missed : Runs check_plan_cache understood understood
unfolding Cache.check_plan_cache lookup lower
missed = checks (λ rows. rows) (λ n. []) 0 30 none [] understood

reaches_act : Reaches request (node act) approved
unfolding next route_cache route_hitl_step_review lookup is_in strip lower Review.hitl_step_review
reaches_act =
    step hitl_step_review proposed approved (node act)
      (step think understood proposed (node hitl_step_review)
        (step check_plan_cache understood understood (node think) reaches_check missed refl)
        (thinks (λ j. []) (λ d t. some no_context) (λ t ms. some thought) understood proposed
          thinks_proposed)
        refl)
      (reviews false false (λ p. codes "yes") proposed) refl

Reaches-Reviewed_example :
    (s₀ : AgentState) × Reaches request (node hitl_step_review) s₀
    × Runs hitl_step_review s₀ approved
    × Reviewed approved
Reaches-Reviewed_example = Reaches-Reviewed request approved reaches_act

-- The tool answers, and its output is summarised.
abbrev called : AgentState
called = Loop.act (some (λ tool inputs. Loop.returned (str (codes "down")) none)) approved

abbrev seen : AgentState
seen = Loop.observed (λ j. codes "down") (codes "phase 2 is down") called

observes_seen :
    Loop.observe (λ j. codes "down") (λ t u. some (codes "phase 2 is down")) called ≡ some seen
unfolding Loop.observe Loop.finding_of
observes_seen = refl

reaches_think : Reaches request (node think) seen
unfolding next
reaches_think =
    step observe called seen (node think)
      (step act approved called (node observe) reaches_act
        (acts (some (λ tool inputs. Loop.returned (str (codes "down")) none)) approved) refl)
      (observes (λ j. codes "down") (λ t u. some (codes "phase 2 is down")) called seen
        observes_seen)
      refl

seen_step : length seen.step_history ≡ 1
unfolding Loop.act Review.hitl_step_review lower strip is_in
seen_step = refl

Reaches-NumberedFrom_example : NumberedFrom 1 seen.step_history
Reaches-NumberedFrom_example = Reaches-NumberedFrom request (node think) seen reaches_think

-- The intent is unclear, and the user is asked.
abbrev vague : Intent
vague = record heard { ambiguous = true; ambiguity_reason = codes "which tunnel?" }

abbrev unsure : AgentState
unsure = Intents.concluded vague (("network", "") ∷ []) (initial request)

vague_intent :
    Intents.extract_intent registry [] no_ratio (λ n t ms. some vague) (initial request)
    ≡ some unsure
unfolding Intents.extract_intent conclude check_action pin valid_intents lookup insert
vague_intent = refl

reaches_again : Reaches request (node extract_intent) (Clarify.clarify (λ q. codes "Boston") unsure)
unfolding next route_intent lookup
reaches_again =
    step clarify unsure (Clarify.clarify (λ q. codes "Boston") unsure) (node extract_intent)
      (step extract_intent (initial request) unsure (node clarify)
        (step manage_context (initial request) (initial request) (node extract_intent) start
          (manages (initial request) request) refl)
        (extracts registry [] no_ratio (λ n t ms. some vague) (initial request) unsure vague_intent)
        refl)
      (clarifies (λ q. codes "Boston") unsure) refl

asked_once : questions reaches_again ≡ 1
unfolding reaches_again
asked_once = refl

questions_le_example : questions reaches_again ≤ 2
questions_le_example =
    questions_le request (node extract_intent) (Clarify.clarify (λ q. codes "Boston") unsure)
      reaches_again

next-total_example : is_some (next hitl_step_review approved) ≡ true
next-total_example = next-total hitl_step_review approved
