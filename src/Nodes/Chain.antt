-- ===== src/Nodes/Chain.antt =====
-- agent/nodes/chain_remediate.py: the call of the remediation agent behind the report. What the page
-- of the user interface polls is the value under remediation:latest in Redis, `shown` here. The look
-- into the plan cache at the beginning has no effect: on a hit it reads `intent_str`, which is
-- assigned further down, and the exception is swallowed; it is left out. Redis is shown by which of
-- the node's writes it accepts, counted from 0; `loads` is json.loads, none where it raises.
pub mod Shown
mod Tests
pub mod Findings
use chat_aiagent.Prelude.{
  ℕ, ◌+◌, String, Bool, true, false, not, ◌&&◌, Option, none, some, List, [], ◌∷◌, ◌++◌, map, Text,
  codes, newline, join, starts_with, drop, or_else, ◌==◌, ◌=s=◌, text_eq, is_some, if◌then◌else◌,
}
use chat_aiagent.Prelude.Json.{
  Json, null, bool, num, str, arr, obj, nil, cons, Fields, end, field, get,
}
use chat_aiagent.Graph.State.{AgentState, Intent, ThoughtActObserve, RemediationResponse, truthy}
use chat_aiagent.Nodes.Chain.Findings.{action_of, domain_of, findings_text}
use chat_aiagent.Nodes.Loop.{shown_tool, truthy_json}

pub record Payload : Type 0 where
  pub thread_id : String
  pub intent : String
  pub domain : String
  pub opa_decision : String
  pub findings : Text
  pub plan : Json
  pub status : String
  pub raw_text : Text

-- The local variables of the node, what Redis shows, and how many writes were tried.
pub record Local : Type 0 where
  pub opa_decision : String
  pub plan : Json
  pub accumulated : Text
  pub shown : Option Payload
  pub tried : ℕ

-- `_base_payload`
abbrev pub payload : String → AgentState → String → Text → Local → Payload
payload thread_id s status raw_text l = record {
  thread_id = thread_id;
  intent = action_of "" s.intent;
  domain = domain_of "" s.intent;
  opa_decision = l.opa_decision;
  findings = findings_text s;
  plan = l.plan;
  status = status;
  raw_text = raw_text;
}

-- A write of remediation:latest, and whether it is accepted.
abbrev pub set_latest : (ℕ → Bool) → Payload → Local → Local × Bool
set_latest redis p l =
    if redis l.tried
    then (record l { shown = some p; tried = l.tried + 1 }, true)
    else (record l { tried = l.tried + 1 }, false)

abbrev decided : String → Local → Local
decided decision l = record l { opa_decision = decision }

abbrev planned : Json → Local → Local
planned plan l = record l { plan = plan }

-- `plan.get("steps") == []`
abbrev no_steps : Fields → Bool
no_steps fs = elim (get "steps" fs) [ some (arr nil) ↦ true | _ ↦ false ]

-- The plan inside a summary that is a document of its own.
abbrev inner_plan : Option Json → Fields → Fields
inner_plan (some (obj inner)) fs = if is_some (get "steps" inner) then inner else fs
inner_plan _ fs = fs

abbrev unwrapped : (Text → Option Json) → Fields → Fields
unwrapped loads fs = elim (get "summary" fs) [
  | some (str t) ↦ if no_steps fs then inner_plan (loads t) fs else fs
  | _ ↦ fs
]

-- `len(plan.get("steps", []))` does not raise.
abbrev has_length : Option Json → Bool
has_length (some null) = false
has_length (some (bool b)) = false
has_length (some (num n)) = false
has_length _ = true

-- The write of the plan cache, whose exception is swallowed.
abbrev cache_plan : Fields → Local → Local
cache_plan fs l = if truthy_json (obj fs) then record l { tried = l.tried + 1 } else l

-- The event "done"; false stands for an exception, here and below. A plan that is no object is
-- assigned before reading it raises.
unfoldable pub on_done : (Text → Option Json) → Json → Local → Local × Bool
on_done loads (obj fs) l =
    let plan = unwrapped loads fs in
    if has_length (get "steps" plan)
    then (cache_plan plan (planned (obj plan) l), true)
    else (planned (obj plan) l, false)
on_done loads v l = (planned v l, false)

abbrev text_of : Json → Option Text
text_of (str t) = some t
text_of _ = none

abbrev is_type : String → Fields → Bool
is_type name fs = elim (get "type" fs) [ some (str t) ↦ text_eq t (codes name) | _ ↦ false ]

-- What comes back from the remediation agent: no answer, or a status code and the lines of the
-- stream, with whether it ends or breaks off.
pub data Response : Type 0 where
  unreachable : Response
  answer : ℕ → List Text → Bool → Response

-- The token is exchanged only if there is one.
abbrev pub obo_token : (Text → Option Text) → Text → Option Text
obo_token exchange [] = none
obo_token exchange (c ∷ t) = exchange (c ∷ t)

module _ (redis : ℕ → Bool) (loads : Text → Option Json) (thread_id : String) (s : AgentState) where
  -- The event "chunk".
  unfoldable pub on_chunk : Json → Local → Local × Bool
  on_chunk v l = elim (text_of v) [
    | none ↦ (l, false)
    | some t ↦
        let l' : Local = record l { accumulated = l.accumulated ++ t } in
        set_latest redis (payload thread_id s "streaming" l'.accumulated l') l'
  ]

  unfoldable pub on_event : Json → Local → Local × Bool
  on_event (obj fs) l =
      if is_type "chunk" fs
      then on_chunk (or_else (get "text" fs) (str [])) l
      else if is_type "done" fs
      then on_done loads (or_else (get "plan" fs) (obj end)) l
      else if is_type "error" fs
      then (decided "ERROR" l, true)
      else (l, true)
  on_event v l = (l, false)

  unfoldable pub on_line : Text → Local → Local × Bool
  on_line line l =
      if starts_with line (codes "data: ")
      then elim (loads (drop 6 line)) [ none ↦ (l, true) | some event ↦ on_event event l ]
      else (l, true)

  -- The loop over the lines, up to the first exception.
  unfoldable pub on_lines : List Text → Local → Local × Bool
  on_lines [] l = (l, true)
  on_lines (line ∷ lines) l =
      let (l', ok) = on_line line l in
      let rest = on_lines lines l' in if ok then rest else (l', false)

  abbrev failed : Local × Bool → Local
  failed (l, true) = l
  failed (l, false) = decided "ERROR" l

  -- The request to the remediation agent, by what comes back.
  unfoldable pub call_agent : Response → Local → Local
  call_agent unreachable l = decided "ERROR" l
  call_agent (answer code lines ends) l =
      if code == 403
      then decided "DENY" l
      else let (l', ok) = on_lines lines (decided "ALLOW" l) in failed (l', ok && ends)

  -- The last write; its exception is swallowed.
  abbrev pub finish : Local → Local
  finish l = (set_latest redis (payload thread_id s "done" [] l) l).0

  abbrev pub start : String → Option Payload → Local
  start decision before = record {
    opa_decision = decision;
    plan = obj end;
    accumulated = [];
    shown = before;
    tried = 0;
  }

  -- With a token: if Redis refuses the first write, nothing is called.
  abbrev pub with_token : Response → Local → Local
  with_token r l =
      let (l', ok) = set_latest redis (payload thread_id s "streaming" [] l) l in
      if ok then finish (call_agent r l') else l'

  -- `exchange` is the answer of the auth service, none where it fails; `before` is what Redis shows.
  unfoldable pub outcome : (Text → Option Text) → Text → Response → Option Payload → Local
  outcome exchange token r before =
      if truthy (obo_token exchange token)
      then with_token r (start "UNKNOWN" before)
      else finish (start "NO_TOKEN" before)

  unfoldable pub chain_remediate :
      (Text → Option Text) → Text → Response → Option Payload → AgentState × Option Payload
  chain_remediate exchange token r before =
      let l = outcome exchange token r before in
      (
        record s {
          remediation_response = some (record { opa_decision = l.opa_decision; plan = l.plan });
        },
        l.shown,
      )
