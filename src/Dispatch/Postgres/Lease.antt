-- ===== src/Dispatch/Postgres/Lease.antt =====
-- Leases on the steps of a plan: who may claim, extend, complete and release a step.
use chat_aiagent.Prelude.{
  ℕ, ◌≡◌, ◌≢◌, ◌⊎◌, inl, inr, sym, subst, String, Bool, true, false, ◌&&◌, Option, none, some, List,
  [], ◌∷◌, Dict, lookup, ◌=s=◌, if◌then◌else◌, arith, eq_iff, eq_refl, All, Option-cases,
  Bool-cases,
}
use chat_aiagent.Dispatch.Postgres.Update.{
  updated, lookup-update_step, lookup-update_step_self, lookup-update_step_ne, update_step_row,
}
use chat_aiagent.Dispatch.Base.{StepResultPayload, StepMessage}
use chat_aiagent.Dispatch.Postgres.{
  StepStatus, pending, running, finished, Step, Store, is_token, is_claimable, claimed, holds,
  renewed, released, update_step, enqueue, claim, extend, complete, release,
}

-- One operation of the adapter, by whichever worker.
pub data Op : Type 0 where
  enqueue_op : String → String → Op
  claim_op : ℕ → String → String → ℕ → Op
  extend_op : ℕ → String → String → ℕ → Op
  complete_op : ℕ → String → String → StepResultPayload → Op
  release_op : String → String → Op

unfoldable pub run_op : Op → Store → Store
run_op (enqueue_op p k) st = enqueue p k st
run_op (claim_op now k w secs) st = (claim now k w secs st).0
run_op (extend_op now k w secs) st = (extend now k w secs st).0
run_op (complete_op now k w p) st = (complete now k w p st).0
run_op (release_op k w) st = release k w st

unfoldable pub run_ops : List Op → Store → Store
run_ops [] st = st
run_ops (op ∷ ops) st = run_ops ops (run_op op st)

abbrev is_running : StepStatus → Bool
is_running running = true
is_running _ = false

abbrev pub is_held_row : String → Option Step → Bool
is_held_row w none = false
is_held_row w (some r) = is_running r.status && is_token r.lock_token w

-- Step `k` runs under the lease of worker `w`.
abbrev pub Held : String → String → Store → Type 0
Held w k st = is_held_row w (lookup k st.steps) ≡ true

-- An operation that neither enqueues step `k` again nor completes or releases it as worker `w`.
abbrev pub Spares : String → String → Op → Type 0
Spares w k (enqueue_op p j) = j ≢ k
Spares w k (claim_op now j v secs) = Unit
Spares w k (extend_op now j v secs) = Unit
Spares w k (complete_op now j v p) = (j ≢ k) ⊎ (v ≢ w)
Spares w k (release_op j v) = (j ≢ k) ⊎ (v ≢ w)

-- What an UPDATE does to a step that is held.
abbrev Keeps : String → (Step → Bool) → (Step → Step) → Type 0
Keeps w c f =
    (r : Step)
    → is_held_row w (some r) ≡ true
    → is_held_row w (some (if c r then f r else r)) ≡ true

updated-Held :
    (w : String) (c : Step → Bool) (f : Step → Step) (row : Option Step)
    → Keeps w c f
    → is_held_row w row ≡ true
    → is_held_row w (updated c f row) ≡ true
updated-Held w c f none keeps h = h
updated-Held w c f (some r) keeps h = keeps r h

update_step-Held :
    (w k j : String) (c : Step → Bool) (f : Step → Step) (steps : Dict Step)
    → is_held_row w (lookup k steps) ≡ true
    → (j ≢ k) ⊎ Keeps w c f
    → is_held_row w (lookup k (update_step j c f steps).0) ≡ true
update_step-Held w k j c f steps h (inl ne) = rw (lookup-update_step_ne j k c f steps ne) h
update_step-Held w k j c f steps h (inr keeps) = elim (Bool-cases (j =s= k)) [
  | inl e ↦
      let same : j ≡ k = (eq_iff j k).0 e in
      subst (λ i. is_held_row w (lookup k (update_step i c f steps).0) ≡ true) (sym same)
        (rw (lookup-update_step_self k c f steps) (updated-Held w c f (lookup k steps) keeps h))
  | inr e ↦ rw (lookup-update_step j k c f steps) (rw e h)
]

claimed-Keeps : (w v : String) (now secs : ℕ) → Keeps w (is_claimable now) (claimed now v secs)
claimed-Keeps w v now secs r h = ground arith

renewed-Keeps : (w v : String) (now secs : ℕ) → Keeps w (holds v) (renewed now secs)
renewed-Keeps w v now secs r h = ground arith

released-Keeps : (w v : String) (status : StepStatus) → v ≢ w → Keeps w (holds v) (released status)
released-Keeps w v status ne r h = elim (Option-cases r.lock_token) [
  | inl e ↦ ground arith
  | inr (t, e) ↦ ground (arith, eq_iff t v, eq_iff t w)
]

freed :
    {w v k j : String} (status : StepStatus)
    → (j ≢ k) ⊎ (v ≢ w)
    → (j ≢ k) ⊎ Keeps w (holds v) (released status)
freed status (inl a) = inl a
freed {w} {v} status (inr b) = inr (released-Keeps w v status b)

complete-Held :
    (w k : String) (now : ℕ) (j v : String) (p : StepResultPayload) (st : Store)
    → Held w k st
    → (j ≢ k) ⊎ (v ≢ w)
    → Held w k (complete now j v p st).0
unfolding complete
complete-Held w k now j v p st h s = ground (
  arith,
  update_step-Held w k j (holds v) (released (finished p.status)) st.steps h
      (freed (finished p.status) s),
)

-- Nothing but the worker's own completion or release, or a new enqueueing, takes a running step
-- from it.
pub run_op-Held :
    (w k : String) (op : Op) (st : Store) → Held w k st → Spares w k op → Held w k (run_op op st)
unfolding run_op enqueue claim extend release
run_op-Held w k (enqueue_op p j) st h s = update_step-Held w k j _ _ st.steps h (inl s)
run_op-Held w k (claim_op now j v secs) st h s =
    update_step-Held w k j _ _ st.steps h (inr (claimed-Keeps w v now secs))
run_op-Held w k (extend_op now j v secs) st h s =
    update_step-Held w k j _ _ st.steps h (inr (renewed-Keeps w v now secs))
run_op-Held w k (complete_op now j v p) st h s = complete-Held w k now j v p st h s
run_op-Held w k (release_op j v) st h s = update_step-Held w k j _ _ st.steps h (freed pending s)

pub run_ops-Held :
    (w k : String) (ops : List Op) (st : Store)
    → Held w k st
    → All (Spares w k) ops
    → Held w k (run_ops ops st)
unfolding run_ops
run_ops-Held w k [] st h s = h
run_ops-Held w k (op ∷ ops) st h s =
    run_ops-Held w k ops (run_op op st) (run_op-Held w k op st h s.0) s.1

claim_of_Held :
    (w k : String) (now : ℕ) (v : String) (secs : ℕ) (st : Store)
    → Held w k st
    → (claim now k v secs st).1 ≡ none
unfolding claim
claim_of_Held w k now v secs st h =
    ground (arith, update_step_row k (is_claimable now) (claimed now v secs) st.steps)

-- Mutual exclusion: while worker `w` holds step `k`, and whatever the workers do other than a
-- completion or release of `k` by `w` itself or a new enqueueing of `k`, no claim of `k` succeeds,
-- at any time, also long after the lease has run out.
pub exclusive_claim :
    (w k : String) (ops : List Op) (st : Store) (now : ℕ) (v : String) (secs : ℕ)
    → Held w k st
    → All (Spares w k) ops
    → (claim now k v secs (run_ops ops st)).1 ≡ none
exclusive_claim w k ops st now v secs h s =
    claim_of_Held w k now v secs (run_ops ops st) (run_ops-Held w k ops st h s)

-- A claim that succeeds makes the step run under the lease of the worker that made it.
pub claim-Held :
    (now : ℕ) (k w : String) (secs : ℕ) (st : Store) (m : StepMessage)
    → (claim now k w secs st).1 ≡ some m
    → Held w k (claim now k w secs st).0
unfolding claim
claim-Held now k w secs st m e = ground (
  arith,
  update_step_row k (is_claimable now) (claimed now w secs) st.steps,
  lookup-update_step_self k (is_claimable now) (claimed now w secs) st.steps,
  eq_refl w,
)
