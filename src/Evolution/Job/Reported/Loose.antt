-- ===== src/Evolution/Job/Reported/Loose.antt =====
-- The steps that the report saves have no dependencies, nor have those the job selects.
use chat_aiagent.Prelude.{
  ℕ, ◌≡◌, refl, inl, inr, String, Bool, true, Option, some, List, [], ◌∷◌, Text, map, filter, All,
  count, not, ◌&&◌, ◌∙◌, is_empty, Option-cases, Bool-cases, arith,
}
use chat_aiagent.Graph.State.{AgentState, ThoughtActObserve}
use chat_aiagent.History.{PlanStep, PlanHistory, Plan, row_of}
use chat_aiagent.History.Ordered.{IsOrderDesc, count-All}
use chat_aiagent.Nodes.Report.{plan_step, plan_to_save}

-- A row of the history that `_save_plan_history` of a run has written.
pub record IsReported (row : PlanHistory) : Type 0 where
  pub plan_id : String
  pub tenant_id : Option String
  pub user_id : Option String
  pub state : AgentState
  pub plan : Plan
  pub scrub : Text → Text
  pub id : ℕ
  pub now : ℕ
  pub saved : plan_to_save plan_id tenant_id user_id state ≡ some plan
  pub is_row : row ≡ row_of scrub id now plan

-- Steps of which none depends on another.
abbrev pub loose : List PlanStep → Bool
loose [] = true
loose (p ∷ ps) = is_empty p.dependencies && loose ps

abbrev pub is_loose : PlanHistory → Bool
is_loose row = loose row.steps

reported_steps-loose : (ts : List ThoughtActObserve) → loose (map plan_step ts) ≡ true
reported_steps-loose [] = refl
reported_steps-loose (t ∷ ts) = reported_steps-loose ts

plan_to_save_steps :
    (i : String) (t u : Option String) (s : AgentState) (p : Plan)
    → plan_to_save i t u s ≡ some p
    → loose p.steps ≡ true
unfolding plan_to_save
plan_to_save_steps i t u s p h = elim (Option-cases s.intent) [
  | inl e ↦ absurd (ground (arith, e))
  | inr (x, e) ↦
      let same : p.steps ≡ map plan_step s.step_history = ground (arith, e) in
      rw same (reported_steps-loose s.step_history)
]

IsReported-loose : (row : PlanHistory) → IsReported row → is_loose row ≡ true
IsReported-loose row r =
    rw r.is_row (plan_to_save_steps r.plan_id r.tenant_id r.user_id r.state r.plan r.saved)

pub All-loose : (rows : List PlanHistory) → All IsReported rows → All (λ r. is_loose r ≡ true) rows
All-loose [] h = tt
All-loose (r ∷ rows) h = (IsReported-loose r h.0, All-loose rows h.1)

pub All-filter :
    (p : PlanHistory → Bool) (P : PlanHistory → Type 0) (rows : List PlanHistory)
    → All P rows
    → All P (filter p rows)
All-filter p P [] h = tt
All-filter p P (r ∷ rows) h = elim (Bool-cases (p r)) [
  | inl e ↦ rw e (h.0, All-filter p P rows h.1)
  | inr e ↦ rw e (All-filter p P rows h.1)
]

none_tight :
    (rows : List PlanHistory)
    → All (λ r. is_loose r ≡ true) rows
    → count (λ r. not (is_loose r)) rows ≡ 0
none_tight [] h = refl
none_tight (r ∷ rows) h = ground (arith, none_tight rows)

module _ (order : List PlanHistory → List PlanHistory) (desc : IsOrderDesc order) where
  pub order-loose :
      (rows : List PlanHistory)
      → All (λ r. is_loose r ≡ true) rows
      → All (λ r. is_loose r ≡ true) (order rows)
  order-loose rows h =
      count-All is_loose (order rows)
        (desc.same_rows (λ r. not (is_loose r)) rows ∙ none_tight rows h)
