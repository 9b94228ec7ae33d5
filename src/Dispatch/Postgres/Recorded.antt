-- ===== src/Dispatch/Postgres/Recorded.antt =====
-- What the completion of a step that its worker holds leaves in the tables.
use chat_aiagent.Prelude.{
  ℕ, ◌≡◌, refl, String, true, Option, none, some, [], ◌∷◌, ◌++◌, lookup, arith,
}
use chat_aiagent.Dispatch.Base.{StepResultPayload}
use chat_aiagent.Dispatch.Postgres.{finished, Step, Store, holds, released, result_row, complete}
use chat_aiagent.Dispatch.Postgres.Update.{lookup-update_step_self, update_step_row}
use chat_aiagent.Dispatch.Postgres.Lease.{is_held_row, Held}

-- `after` is what the completion of step `k` by `w` makes of `st`: the step has the status of the
-- result and no lease, and the results have one row more, that of this worker.
abbrev pub Recorded : ℕ → String → String → StepResultPayload → Store → Store → Type 0
Recorded now k w p st after =
    (r : Step) × (s : Step) × (lookup k st.steps ≡ some r)
    × (lookup k after.steps ≡ some s)
    × (s.status ≡ finished p.status)
    × (s.lock_token ≡ none)
    × (after.results ≡ st.results ++ result_row now k w p r.attempts ∷ [])

-- The row of a held step.
held_row :
    (w : String) (row : Option Step)
    → is_held_row w row ≡ true
    → (r : Step) × (row ≡ some r) × (holds w r ≡ true)
held_row w none h = absurd (ground arith)
held_row w (some r) h = (r, refl, ground arith)

pub complete-Recorded :
    (now : ℕ) (k w : String) (p : StepResultPayload) (st : Store)
    → Held w k st
    → ((complete now k w p st).1 ≡ none) × Recorded now k w p st (complete now k w p st).0
unfolding complete
complete-Recorded now k w p st h =
    let (r, e, own) = held_row w (lookup k st.steps) h in
    let row = update_step_row k (holds w) (released (finished p.status)) st.steps in
    let self = lookup-update_step_self k (holds w) (released (finished p.status)) st.steps in
    (
      ground (arith, row),
      (
        r,
        released (finished p.status) r,
        e,
        ground (arith, row, self),
        refl,
        refl,
        ground (arith, row),
      ),
    )
