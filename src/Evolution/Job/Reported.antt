-- ===== src/Evolution/Job/Reported.antt =====
-- What the job finds in the plans that the report of a run saves.
mod Loose
mod Orderings
mod Added
mod Tests
use chat_aiagent.Prelude.{
  ℕ, ◌≡◌, refl, sym, subst, inl, inr, String, Bool, true, false, Option, none, some, List, [], ◌∷◌,
  ◌++◌, Text, map, filter, take, zero, suc, All, count, not, ◌&&◌, ◌∙◌, is_empty, length, ltb,
  List-cases, Option-cases, Bool-cases, arith, if◌then◌else◌,
}
use chat_aiagent.Graph.State.{AgentState, ThoughtActObserve}
use chat_aiagent.History.{PlanStep, PlanHistory, Plan, row_of}
use chat_aiagent.History.Ordered.{IsOrderDesc, count-All, All-take}
use chat_aiagent.Nodes.Report.{plan_step, plan_to_save}
use chat_aiagent.Evolution.Patterns.{
  Step, Graph, Library, Frequency, Candidate, hard_ordering, soft_parallel, Counts, edges_of, ids,
  graph_of, count_orderings, parallels, extract_consistent_orderings, extract_parallel_patterns,
  parallels_in, count_parallels, is_frequent,
}
use chat_aiagent.Evolution.Job.{
  PlaybookSuggestion, settles, new_row, write_suggestions, steps_of, plans_of, stepped,
  is_completed, batch_size, with_parallels, candidates, written, run,
}
use chat_aiagent.Evolution.Job.Blocked.{Parallel}
use chat_aiagent.Evolution.Job.Reported.Loose.{
  IsReported, is_loose, All-loose, order-loose, All-filter,
}
use chat_aiagent.Evolution.Job.Reported.Orderings.{Free, Closes, no_orderings, plans_of-Free}
use chat_aiagent.Evolution.Job.Reported.Added.{
  Parallels, same_rows, write_suggestions-Parallels, extract_parallel_patterns-Parallel,
}

module _ (lib : Library) (closes : Closes lib) (action domain : String)
    (rows : List PlaybookSuggestion) where
  written-Parallels :
      (plans : Option (List (List Step)))
      → ((ps : List (List Step)) → plans ≡ some ps → All Free ps)
      → Parallels rows (written action domain rows (candidates lib plans)).0
  unfolding candidates
  written-Parallels none h = same_rows
  written-Parallels (some ps) h = elim (Option-cases (extract_parallel_patterns lib 800000 ps)) [
    | inl e ↦ rw e same_rows
    | inr (cs, e) ↦ rw (no_orderings lib closes 900000 ps (h ps refl)) (
        rw e (
          write_suggestions-Parallels action domain rows cs rows
            (extract_parallel_patterns-Parallel lib 800000 ps cs e) same_rows))
  ]

  -- Where every plan in the history was saved by the report of a run, the evolution of playbooks never
  -- suggests an ordering of tools, whatever the runs were and whatever the history holds: the report
  -- saves each step without dependencies, so the rows that the job adds are all for parallel tools.
  -- This is so where the database orders rows as ORDER BY promises, and the closure of a graph without
  -- edges has none.
  pub run-Parallels :
      (order : List PlanHistory → List PlanHistory) (history : List PlanHistory)
      → IsOrderDesc order
      → All IsReported history
      → Parallels rows (run lib order action domain history rows).0
  unfolding run
  run-Parallels order history desc h =
      let selected = order (filter (is_completed action domain) history) in
      let plans = take batch_size selected in
      let loose_plans =
        All-take (λ r. is_loose r ≡ true) batch_size selected
          (order-loose order desc (filter (is_completed action domain) history) (
            All-filter (is_completed action domain) (λ r. is_loose r ≡ true) history
              (All-loose history h))) in
      elim (Bool-cases (ltb (length plans) batch_size)) [
        | inl e ↦ rw e same_rows
        | inr e ↦
            rw e (written-Parallels (plans_of plans) (λ ps p. plans_of-Free plans ps loose_plans p))
      ]
