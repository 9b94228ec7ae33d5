-- ===== src/History.antt =====
-- worker_agent/persistence/plan_history_repo.py and the PlanHistory table of models.py: the history
-- of completed plans, its queries and its writer. The table is the list of its rows; times are in
-- seconds. What the database does for ORDER BY is a parameter with its documented behaviour, since
-- it leaves the order of equal keys open. The scrubbing of the intent text by regular expressions
-- is a parameter.
pub mod Ordered
pub mod Sorting
pub mod Serves
pub mod Queries
mod Tests
use chat_aiagent.Prelude.{
  ℕ, ◌+◌, ◌*◌, String, Bool, true, false, ◌&&◌, Option, none, some, List, [], ◌∷◌, ◌++◌, Text, Dict,
  insert, filter, take, leb, ◌=s=◌, if◌then◌else◌, is_some,
}

-- An item of `steps`: a JSON object whose keys may be missing.
pub record PlanStep : Type 0 where
  pub id : Option Text
  pub name : Option Text
  pub description : Option Text
  pub tool_name : Option Text
  pub dependencies : List Text

pub record ToolResult : Type 0 where
  pub status : String
  pub finding : Text

pub record PlanHistory : Type 0 where
  pub id : ℕ
  pub plan_id : String
  pub action : String
  pub domain : String
  pub intent_summary : Text
  pub entity_summary : Dict String
  pub steps : List PlanStep
  pub tool_results : List (Text × ToolResult)
  pub outcome : String
  pub tenant_id : Option String
  pub user_id : Option String
  pub created_at : ℕ

-- A Python value of which only the name of its type is looked at.
pub data Value : Type 0 where
  none_value : Value
  of_type : String → Value

-- What stands under a domain in `entities`: a dict, a Pydantic model, an object with attributes, of
-- which the private ones are marked, or a value of another kind.
pub data Entity : Type 0 where
  dict : Dict Value → Entity
  model : Dict Value → Entity
  object : List (String × Bool × Value) → Entity
  other : Entity

abbrev public_fields : List (String × Bool × Value) → Dict Value
public_fields [] = []
public_fields ((k, private, v) ∷ r) =
    let rest = public_fields r in if private then rest else (k, v) ∷ rest

abbrev entity_fields : Entity → Dict Value
entity_fields (dict fs) = fs
entity_fields (model fs) = fs
entity_fields (object fs) = public_fields fs
entity_fields other = []

abbrev type_name : Value → String
type_name none_value = "NoneType"
type_name (of_type t) = t

add_fields : Dict Value → Dict String → Dict String
add_fields [] result = result
add_fields ((f, v) ∷ fs) result = add_fields fs (insert f (type_name v) result)

-- The loop over the values of `entities`.
strip_entities : List Entity → Dict String → Dict String
strip_entities [] result = result
strip_entities (e ∷ es) result = strip_entities es (add_fields (entity_fields e) result)

pub strip_entity_summary : List Entity → Dict String
unfolding strip_entities add_fields
strip_entity_summary es = strip_entities es []

-- The arguments of `save` but the session, and the row that the table gives an id and a time.
pub record Plan : Type 0 where
  pub plan_id : String
  pub action : String
  pub domain : String
  pub intent_text : Text
  pub entities : List Entity
  pub steps : List PlanStep
  pub tool_results : List (Text × ToolResult)
  pub outcome : String
  pub tenant_id : Option String
  pub user_id : Option String

abbrev pub row_of : (Text → Text) → ℕ → ℕ → Plan → PlanHistory
row_of scrub id now p = record {
  id = id;
  plan_id = p.plan_id;
  action = p.action;
  domain = p.domain;
  intent_summary = scrub p.intent_text;
  entity_summary = strip_entity_summary p.entities;
  steps = p.steps;
  tool_results = p.tool_results;
  outcome = p.outcome;
  tenant_id = p.tenant_id;
  user_id = p.user_id;
  created_at = now;
}

-- `flushed` says whether the flush succeeds; its exception is swallowed, and no row is written.
unfoldable pub save : (Text → Text) → ℕ → ℕ → Bool → Plan → List PlanHistory → List PlanHistory
save scrub id now flushed p rows = if flushed then rows ++ row_of scrub id now p ∷ [] else rows

abbrev pub same_tenant : Option String → Option String → Bool
same_tenant (some a) (some b) = a =s= b
same_tenant _ _ = false

-- `if tenant_id is not None: stmt = stmt.where(tenant_id == …)`; NULL equals nothing.
abbrev pub tenant_ok : Option String → PlanHistory → Bool
tenant_ok none row = true
tenant_ok (some t) row = same_tenant row.tenant_id (some t)

-- created_at >= now - ttl
abbrev pub is_fresh : ℕ → ℕ → PlanHistory → Bool
is_fresh now ttl_days row = leb now (row.created_at + ttl_days * 86400)

-- The WHERE clause of `get_best_cached`.
abbrev pub is_candidate : ℕ → ℕ → String → String → Option String → PlanHistory → Bool
is_candidate now ttl_days action domain tenant row =
    (row.action =s= action)
    && (row.domain =s= domain)
    && (row.outcome =s= "COMPLETED")
    && is_fresh now ttl_days row
    && tenant_ok tenant row

abbrev pub first {ℓ} : {A : Type ℓ} → List A → Option A
first [] = none
first (x ∷ xs) = some x

abbrev pub outcome_ok : Option String → PlanHistory → Bool
outcome_ok none row = true
outcome_ok (some o) row = row.outcome =s= o

module _ (order_desc : List PlanHistory → List PlanHistory) where
  unfoldable pub get_all_recent : ℕ → Option String → List PlanHistory → List PlanHistory
  get_all_recent limit tenant rows = take limit (order_desc (filter (tenant_ok tenant) rows))

  -- `rows` is none where the query raises; the exception is swallowed.
  unfoldable pub get_best_cached :
      ℕ → ℕ → String → String → Option String → Option (List PlanHistory) → Option PlanHistory
  get_best_cached now ttl_days action domain tenant none = none
  get_best_cached now ttl_days action domain tenant (some rows) =
      first (take 1 (order_desc (filter (is_candidate now ttl_days action domain tenant) rows)))

  unfoldable pub get_recent :
      String → String → ℕ → Option String → List PlanHistory → List PlanHistory
  get_recent action domain limit outcome_filter rows = take limit (
      order_desc (
        filter
          (λ row.
            (row.action =s= action) && (row.domain =s= domain) && outcome_ok outcome_filter row)
          rows))
