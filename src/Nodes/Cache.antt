-- ===== src/Nodes/Cache.antt =====
-- agent/nodes/check_plan_cache.py, and the configuration of a run that `_make_config` of
-- worker_agent/main.py makes. A session factory is shown by the rows that its sessions read, none
-- where a session raises.
pub mod Miss
mod Tests
use chat_aiagent.Prelude.{
  ℕ, ◌+◌, String, Bool, true, false, Option, none, some, List, [], ◌∷◌, ◌++◌, Text, Dict, lookup,
  codes, newline, join, decimal, lower, text_eq, or_else, text_or, if◌then◌else◌,
}
use chat_aiagent.Graph.State.{AgentState, Intent}
use chat_aiagent.History.{PlanHistory, PlanStep, get_best_cached}

pub record Auth : Type 0 where
  pub user_id : Option String
  pub tenant_id : Option String
  pub token : Text

-- A value under `configurable`; `object` stands for a client that is only passed on.
pub data ConfigValue : Type 0 where
  nothing object : ConfigValue
  text : String → ConfigValue
  auth : Auth → ConfigValue
  flag : Bool → ConfigValue
  factory : Option (List PlanHistory) → ConfigValue

-- `metrics` and `sessions` are `nothing` where the agent has no collector or no database.
unfoldable pub make_config : String → Auth → Bool → ConfigValue → ConfigValue → Dict ConfigValue
make_config thread_id auth_context auto_approve metrics sessions =
    ("thread_id", text thread_id)
    ∷ ("auth", auth auth_context)
    ∷ ("registry", object)
    ∷ ("tool_dispatcher", object)
    ∷ ("llm_config", object)
    ∷ ("metrics_collector", metrics)
    ∷ ("ragas_collector", object)
    ∷ ("db_session_factory", sessions)
    ∷ ("auto_approve", flag auto_approve)
    ∷ []

step_line : ℕ → PlanStep → Text
step_line i step =
    let tool = or_else step.tool_name (codes "unknown") in
    let desc = text_or (or_else step.name []) (text_or (or_else step.description []) tool) in
    decimal i ++ (codes ". " ++ (desc ++ (codes " (tool: " ++ (tool ++ codes ")"))))

step_lines : ℕ → List PlanStep → List Text
unfolding step_line
step_lines i [] = []
step_lines i (s ∷ ss) = step_line i s ∷ step_lines (i + 1) ss

unfoldable pub format_cached_steps : List PlanStep → Text
unfolding step_lines
format_cached_steps [] = codes "(no steps recorded)"
format_cached_steps (s ∷ ss) = join newline (step_lines 1 (s ∷ ss))

-- `os.getenv("PLAN_CACHE_ENABLED", "true").lower() == "false"`
abbrev is_disabled : Option Text → Bool
is_disabled enabled = text_eq (lower (or_else enabled (codes "true"))) (codes "false")

abbrev tenant_of : Option ConfigValue → Option String
tenant_of (some (text t)) = some t
tenant_of _ = none

abbrev hit : (ℕ → Text) → PlanHistory → AgentState → AgentState
hit show_date row s = record s {
  plan_cache_hit = some true;
  cached_plan_proposal = some (format_cached_steps row.steps);
  analysis_findings =
      s.analysis_findings
      ++ (codes "[Cached plan from "
          ++ (show_date row.created_at ++ (codes "] " ++ row.intent_summary)))
        ∷ [];
}

module _ (order_desc : List PlanHistory → List PlanHistory) (show_date : ℕ → Text) where
  -- The query and what follows it, for an intent and a factory.
  unfoldable pub query_cache :
      ℕ → ℕ → Option String → Intent → Option (List PlanHistory) → AgentState → AgentState
  query_cache now ttl_days tenant intent rows s =
      elim (get_best_cached order_desc now ttl_days intent.action intent.domain tenant rows) [
        | none ↦ s
        | some row ↦ hit show_date row s
      ]

  -- `enabled` is the environment's PLAN_CACHE_ENABLED. A value that is no factory cannot be called:
  -- the exception is swallowed.
  unfoldable pub check_plan_cache : ℕ → ℕ → Option Text → Dict ConfigValue → AgentState → AgentState
  check_plan_cache now ttl_days enabled cfg s = if is_disabled enabled then s else elim s.intent [
    | none ↦ s
    | some intent ↦ elim (lookup "session_factory" cfg) [
      | some (factory rows) ↦
          query_cache now ttl_days (tenant_of (lookup "tenant_id" cfg)) intent rows s
      | _ ↦ s
    ]
  ]
