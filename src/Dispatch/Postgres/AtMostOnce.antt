-- ===== src/Dispatch/Postgres/AtMostOnce.antt =====
-- How often a step is completed.
use chat_aiagent.Prelude.{
  ℕ, ◌+◌, ◌≤◌, ◌≡◌, inl, inr, refl, sym, subst, String, Bool, true, false, not, Option, none, some,
  List, [], ◌∷◌, ◌++◌, Dict, lookup, count, ◌=s=◌, if◌then◌else◌, is_some, arith, eq_iff, eq_refl,
  Bool-cases, Option-cases,
}
use chat_aiagent.Dispatch.Base.{StepResultPayload}
use chat_aiagent.Dispatch.Postgres.{
  StepStatus, pending, finished, Step, StepResult, Store, is_claimable, claimed, holds, released,
  renewed, result_row, update_step, enqueue, claim, extend, complete, release,
}
use chat_aiagent.Dispatch.Postgres.Update.{
  updated, lookup-update_step, lookup-update_step_self, update_step_row,
}
use chat_aiagent.Dispatch.Postgres.Lease.{
  Op, enqueue_op, claim_op, extend_op, complete_op, release_op, run_op, run_ops,
}

abbrev is_result_of : String → StepResult → Bool
is_result_of k r = r.step_id =s= k

-- The rows of results that step `k` has.
unfoldable pub completions : String → Store → ℕ
completions k st = count (is_result_of k) st.results

-- How often step `k` is enqueued.
abbrev pub enqueues_of : String → Op → ℕ
enqueues_of k (enqueue_op p j) = if j =s= k then 1 else 0
enqueues_of k _ = 0

unfoldable pub enqueues : String → List Op → ℕ
enqueues k [] = 0
enqueues k (op ∷ ops) = enqueues_of k op + enqueues k ops

abbrev is_finished : StepStatus → Bool
is_finished (finished s) = true
is_finished _ = false

-- One more completion that a step which is not finished may see.
abbrev pub open_row : Option Step → ℕ
open_row none = 0
open_row (some r) = if is_finished r.status then 0 else 1

-- A finished step has no lease.
abbrev pub is_tidy : Option Step → Bool
is_tidy none = true
is_tidy (some r) = if is_finished r.status then not (is_some r.lock_token) else true

abbrev pub Tidy : String → Store → Type 0
Tidy k st = is_tidy (lookup k st.steps) ≡ true

-- What an update does to a tidy row: the row is tidy, and open for at most `n` completions more.
abbrev Calm : ℕ → (Step → Bool) → (Step → Step) → Type 0
Calm n c f =
    (r : Step)
    → is_tidy (some r) ≡ true
    → (is_tidy (some (if c r then f r else r)) ≡ true)
      × (open_row (some (if c r then f r else r)) ≤ open_row (some r) + n)

updated-Calm :
    (n : ℕ) (c : Step → Bool) (f : Step → Step) (row : Option Step)
    → Calm n c f
    → is_tidy row ≡ true
    → (is_tidy (updated c f row) ≡ true) × (open_row (updated c f row) ≤ open_row row + n)
updated-Calm n c f none calm h = (refl, omega arith)
updated-Calm n c f (some r) calm h = calm r h

-- The update of one step, as another one or the same sees it.
update_step-Calm :
    (n : ℕ) (k j : String) (c : Step → Bool) (f : Step → Step) (steps : Dict Step)
    → Calm n c f
    → is_tidy (lookup k steps) ≡ true
    → (is_tidy (lookup k (update_step j c f steps).0) ≡ true)
      × (open_row (lookup k (update_step j c f steps).0)
          ≤ open_row (lookup k steps) + (if j =s= k then n else 0))
update_step-Calm n k j c f steps calm h = elim (Bool-cases (j =s= k)) [
  | inl e ↦
      let same : j ≡ k = (eq_iff j k).0 e in
      ground
        (arith, e, lookup-update_step j k c f steps, updated-Calm n c f (lookup k steps) calm h)
  | inr e ↦ ground (arith, e, lookup-update_step j k c f steps)
]

enqueue-Calm : Calm 1 (λ r. true) (λ r. record r { status = pending })
enqueue-Calm r h = ground arith

claim-Calm : (now secs : ℕ) (w : String) → Calm 0 (is_claimable now) (claimed now w secs)
claim-Calm now secs w r h = ground arith

extend-Calm : (now secs : ℕ) (w : String) → Calm 0 (holds w) (renewed now secs)
extend-Calm now secs w r h = ground arith

release-Calm : (w : String) → Calm 0 (holds w) (released pending)
release-Calm w r h = ground arith

count_last :
    (p : StepResult → Bool) (rs : List StepResult) (r : StepResult)
    → count p (rs ++ r ∷ []) ≡ count p rs + (if p r then 1 else 0)
count_last p [] r = ground arith
count_last p (x ∷ rs) r = ground (arith, count_last p rs r)

-- The account of an operation: the step stays tidy, and what it has been completed and may still be
-- grows by its enqueueings only.
abbrev pub Accounts : String → ℕ → Store → Store → Type 0
Accounts k n st after =
    Tidy k after
    × (completions k after + open_row (lookup k after.steps)
        ≤ completions k st + open_row (lookup k st.steps) + n)

complete-Accounts_self :
    (k : String) (now : ℕ) (w : String) (p : StepResultPayload) (st : Store)
    → Tidy k st
    → Accounts k 0 st (complete now k w p st).0
unfolding complete completions
complete-Accounts_self k now w p st h = elim (Option-cases (lookup k st.steps)) [
  | inl e ↦ ground (arith, e)
  | inr (r, e) ↦ ground (
    arith,
    e,
    update_step_row k (holds w) (released (finished p.status)) st.steps,
    lookup-update_step_self k (holds w) (released (finished p.status)) st.steps,
    count_last (is_result_of k) st.results (result_row now k w p r.attempts),
    eq_refl k,
  )
]

complete-Accounts_other :
    (k : String) (now : ℕ) (j w : String) (p : StepResultPayload) (st : Store)
    → (j =s= k) ≡ false
    → Tidy k st
    → Accounts k 0 st (complete now j w p st).0
unfolding complete completions
complete-Accounts_other k now j w p st ne h = elim (Option-cases (lookup j st.steps)) [
  | inl e ↦ ground (arith, e)
  | inr (r, e) ↦ ground (
    arith,
    e,
    ne,
    update_step_row j (holds w) (released (finished p.status)) st.steps,
    lookup-update_step j k (holds w) (released (finished p.status)) st.steps,
    count_last (is_result_of k) st.results (result_row now j w p r.attempts),
  )
]

run_op-Accounts :
    (k : String) (op : Op) (st : Store)
    → Tidy k st
    → Accounts k (enqueues_of k op) st (run_op op st)
unfolding run_op enqueue claim extend release completions
run_op-Accounts k (enqueue_op p j) st h =
    let step = update_step-Calm 1 k j _ _ st.steps enqueue-Calm h in (step.0, omega (arith, step.1))
run_op-Accounts k (claim_op now j w secs) st h =
    let step = update_step-Calm 0 k j _ _ st.steps (claim-Calm now secs w) h in
    (step.0, ground (arith, step.1))
run_op-Accounts k (extend_op now j w secs) st h =
    let step = update_step-Calm 0 k j _ _ st.steps (extend-Calm now secs w) h in
    (step.0, ground (arith, step.1))
run_op-Accounts k (complete_op now j w p) st h = elim (Bool-cases (j =s= k)) [
  | inl e ↦
      subst (λ i. Accounts k 0 st (complete now i w p st).0) (sym ((eq_iff j k).0 e))
        (complete-Accounts_self k now w p st h)
  | inr e ↦ complete-Accounts_other k now j w p st e h
]
run_op-Accounts k (release_op j w) st h =
    let step = update_step-Calm 0 k j _ _ st.steps (release-Calm w) h in
    (step.0, ground (arith, step.1))

run_ops-Accounts :
    (k : String) (ops : List Op) (st : Store)
    → Tidy k st
    → Accounts k (enqueues k ops) st (run_ops ops st)
unfolding run_ops enqueues
run_ops-Accounts k [] st h = (h, omega arith)
run_ops-Accounts k (op ∷ ops) st h =
    let first = run_op-Accounts k op st h in
    let rest = run_ops-Accounts k ops (run_op op st) first.0 in
    (rest.0, omega (arith, first.1, rest.1))

-- A step is completed at most once for each time that it is enqueued: whatever the workers do, in
-- whatever order and at whatever times, the results have at most as many new rows of a step as it is
-- enqueued again, and one more if it was not finished at first; where a finished step has no lease at
-- first.
pub completions-run_ops :
    (k : String) (ops : List Op) (st : Store)
    → Tidy k st
    → completions k (run_ops ops st)
      ≤ completions k st + open_row (lookup k st.steps) + enqueues k ops
completions-run_ops k ops st h = omega (arith, (run_ops-Accounts k ops st h).1)
