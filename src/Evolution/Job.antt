-- ===== src/Evolution/Job.antt =====
-- worker_agent/evolution/job.py over the table of suggestions of worker_agent/persistence/models.py.
-- The order in which the database returns rows is an argument; a comparison with None in a query is IS NULL.
pub mod Blocked
pub mod Reported
use chat_aiagent.Prelude.{
  ℕ, ◌%◌, ◌+◌, String, Bool, true, false, ◌&&◌, Option, none, some, List, [], ◌∷◌, ◌++◌, Text,
  text_eq, filter, length, leb, ltb, ◌==◌, ◌=s=◌, if◌then◌else◌, take, is_empty,
}
use chat_aiagent.History.{PlanStep, PlanHistory}
use chat_aiagent.Evolution.Patterns.{
  Step, Library, Frequency, Candidate, hard_ordering, soft_parallel, extract_consistent_orderings,
  extract_parallel_patterns,
}

pub data Status : Type 0 where
  pending accepted rejected : Status

pub record PlaybookSuggestion : Type 0 where
  pub action : String
  pub domain : String
  pub rule_type : String
  pub before_tool : Option Text
  pub after_tool : Option Text
  pub tools : Option (List Text)
  pub frequency : Frequency
  pub status : Status

abbrev pub batch_size : ℕ
batch_size = 10

abbrev frequency_of : Candidate → Frequency
frequency_of (hard_ordering a b f) = f
frequency_of (soft_parallel ts f) = f

abbrev pub rule_type_of : Candidate → String
rule_type_of (hard_ordering a b f) = "hard_ordering"
rule_type_of (soft_parallel ts f) = "soft_parallel"

abbrev pub before_of : Candidate → Option Text
before_of (hard_ordering a b f) = some a
before_of (soft_parallel ts f) = none

abbrev pub after_of : Candidate → Option Text
after_of (hard_ordering a b f) = some b
after_of (soft_parallel ts f) = none

abbrev tools_of : Candidate → Option (List Text)
tools_of (hard_ordering a b f) = none
tools_of (soft_parallel ts f) = some ts

-- A column that equals a value, or is NULL where the value is None.
abbrev pub is_value : Option Text → Option Text → Bool
is_value none none = true
is_value (some s) (some t) = text_eq s t
is_value _ _ = false

abbrev pub is_settled : Status → Bool
is_settled pending = false
is_settled _ = true

-- The WHERE clause for a suggestion that is already settled.
abbrev pub settles : String → String → Candidate → PlaybookSuggestion → Bool
settles action domain c r =
    (r.action =s= action)
    && ((r.domain =s= domain)
        && ((r.rule_type =s= rule_type_of c)
            && (is_value r.before_tool (before_of c)
                && (is_value r.after_tool (after_of c) && is_settled r.status))))

abbrev pub new_row : String → String → Candidate → PlaybookSuggestion
new_row action domain c = record {
  action = action;
  domain = domain;
  rule_type = rule_type_of c;
  before_tool = before_of c;
  after_tool = after_of c;
  tools = tools_of c;
  frequency = frequency_of c;
  status = pending;
}

-- The rows, and whether the loop went through: of several rows that settle a candidate
-- scalar_one_or_none raises.
unfoldable pub write_suggestions :
    String → String → List Candidate → List PlaybookSuggestion → List PlaybookSuggestion × Bool
write_suggestions action domain [] rows = (rows, true)
write_suggestions action domain (c ∷ cs) rows = elim (filter (settles action domain c) rows) [
  | [] ↦ write_suggestions action domain cs (rows ++ new_row action domain c ∷ [])
  | r ∷ rs ↦ elim rs [ [] ↦ write_suggestions action domain cs rows | s ∷ ss ↦ (rows, false) ]
]

-- The steps of a saved plan; none where one has no id, which no graph takes. That reading a step
-- without the key "tool_name" raises is left out: it counts as a step whose tool is None.
abbrev also : Step → Option (List Step) → Option (List Step)
also s none = none
also s (some ss) = some (s ∷ ss)

abbrev pub stepped : PlanStep → Option (List Step) → Option (List Step)
stepped p rest = elim p.id [
  | none ↦ none
  | some id ↦ also (record { id = id; tool_name = p.tool_name; dependencies = p.dependencies }) rest
]

abbrev pub steps_of : List PlanStep → Option (List Step)
steps_of [] = some []
steps_of (p ∷ ps) = stepped p (steps_of ps)

abbrev beside : Option (List Step) → Option (List (List Step)) → Option (List (List Step))
beside (some ss) (some rest) = some (ss ∷ rest)
beside _ _ = none

abbrev pub plans_of : List PlanHistory → Option (List (List Step))
plans_of [] = some []
plans_of (r ∷ rs) = beside (steps_of r.steps) (plans_of rs)

abbrev pub is_completed : String → String → PlanHistory → Bool
is_completed action domain r =
    (r.action =s= action) && ((r.domain =s= domain) && (r.outcome =s= "COMPLETED"))

abbrev pub with_parallels : List Candidate → Option (List Candidate) → Option (List Candidate)
with_parallels cs none = none
with_parallels cs (some ds) = some (cs ++ ds)

-- What both functions find in the plans; none where one of them raises.
unfoldable pub candidates : Library → Option (List (List Step)) → Option (List Candidate)
unfolding extract_consistent_orderings extract_parallel_patterns
candidates lib none = none
candidates lib (some plans) =
    with_parallels (extract_consistent_orderings lib 900000 plans)
      (extract_parallel_patterns lib 800000 plans)

abbrev pub written :
    String
    → String
    → List PlaybookSuggestion
    → Option (List Candidate)
    → List PlaybookSuggestion × Bool
written action domain rows none = (rows, false)
written action domain rows (some cs) = write_suggestions action domain cs rows

-- `order` is ORDER BY created_at DESC.
unfoldable pub run :
    Library
    → (List PlanHistory → List PlanHistory)
    → String
    → String
    → List PlanHistory
    → List PlaybookSuggestion
    → List PlaybookSuggestion × Bool
unfolding write_suggestions candidates
run lib order action domain history rows =
    let plans = take batch_size (order (filter (is_completed action domain) history)) in
    if ltb (length plans) batch_size
    then (rows, true)
    else written action domain rows (candidates lib (plans_of plans))

-- `count_completed`
unfoldable pub count_completed : String → String → List PlanHistory → ℕ
count_completed action domain history = length (filter (is_completed action domain) history)

-- What the job raises is dropped, and the rows that it has added to the session stay.
unfoldable pub trigger_evolution_check :
    Library
    → (List PlanHistory → List PlanHistory)
    → String
    → String
    → List PlanHistory
    → List PlaybookSuggestion
    → List PlaybookSuggestion
unfolding run count_completed
trigger_evolution_check lib order action domain history rows =
    let completed = count_completed action domain history in
    if leb batch_size completed && (completed % batch_size == 0)
    then (run lib order action domain history rows).0
    else rows
