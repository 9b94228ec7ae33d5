-- ===== src/Dispatch/Repo/Latest.antt =====
-- What the reader of a result finds behind a completion.
mod Tests
use chat_aiagent.Prelude.{
  ℕ, ◌≡◌, refl, inl, inr, ◌∙◌, String, Bool, true, false, Option, none, some, List, [], ◌∷◌, ◌++◌,
  Bool-cases, Option-cases, ◌=s=◌, if◌then◌else◌, arith, lookup, is_some,
}
use chat_aiagent.Dispatch.Base.{StepResultPayload, Error}
use chat_aiagent.Dispatch.Postgres.{
  Step, StepResult, Store, complete, result_row, update_step, holds, released, finished,
}
use chat_aiagent.Dispatch.Postgres.Lease.{Held}
use chat_aiagent.Dispatch.Postgres.Recorded.{complete-Recorded}
use chat_aiagent.Dispatch.Repo.{latest, get_step, get_step_result, write_result, written}

latest_snoc :
    (k : String) (rs : List StepResult) (r : StepResult)
    → latest k (rs ++ r ∷ []) ≡ (if r.step_id =s= k then some r else latest k rs)
latest_snoc k [] r = refl
latest_snoc k (q ∷ rs) r = elim (Bool-cases (r.step_id =s= k)) [
  | inl e ↦ ground (arith, latest_snoc k rs r, e)
  | inr e ↦ ground (arith, latest_snoc k rs r, e)
]

-- Behind the completion of a step by the worker that holds it, the reader of results finds the worker's
-- result under the step, with the step's count of attempts, and under each other step what it found
-- before.
pub get_step_result-complete :
    (now : ℕ) (k w j : String) (p : StepResultPayload) (st : Store)
    → Held w k st
    → (r : Step) × (get_step k st ≡ some r)
      × (get_step_result j (complete now k w p st).0
          ≡ (if k =s= j then some (result_row now k w p r.attempts) else get_step_result j st))
unfolding get_step get_step_result
get_step_result-complete now k w j p st h =
    let (ok, left) = complete-Recorded now k w p st h in
    let (r, s, found, later, status, free, rows) = left in
    (r, found, rw rows (latest_snoc j st.results (result_row now k w p r.attempts)))

-- What `write_result` has written for a step that exists is read back likewise.
pub get_step_result-write_result :
    (k j : String) (p : StepResultPayload) (worker : Option String) (st after : Store) (r : Step)
    → get_step k st ≡ some r
    → write_result k p worker st ≡ some after
    → (get_step_result j after
        ≡ (if k =s= j then some (written k p worker r.attempts) else get_step_result j st))
unfolding get_step get_step_result write_result
get_step_result-write_result k j p worker st after r e h =
    let rows : after.results ≡ st.results ++ written k p worker r.attempts ∷ [] =
      ground (arith, e, h) in
    rw rows (latest_snoc j st.results (written k p worker r.attempts))
