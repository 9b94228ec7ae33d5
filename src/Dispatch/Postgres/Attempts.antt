-- ===== src/Dispatch/Postgres/Attempts.antt =====
-- How often a step has been claimed.
use native.Mathlib.Nat.{add-zero}
use chat_aiagent.Prelude.{
  ℕ, ◌+◌, ◌≡◌, inl, inr, refl, sym, ◌∙◌, subst, String, Bool, Option, none, some, List, [], ◌∷◌,
  Dict, lookup, ◌=s=◌, if◌then◌else◌, is_some, arith, eq_iff, eq_refl, Bool-cases,
}
use chat_aiagent.Dispatch.Base.{StepResultPayload}
use chat_aiagent.Dispatch.Postgres.{
  finished, Step, Store, is_claimable, claimed, holds, released, update_step, enqueue, claim,
  extend, complete, release,
}
use chat_aiagent.Dispatch.Postgres.Update.{
  updated, lookup-update_step, lookup-update_step_self, update_step_row,
}
use chat_aiagent.Dispatch.Postgres.Lease.{
  Op, enqueue_op, claim_op, extend_op, complete_op, release_op, run_op, run_ops,
}

attempts_in : Option Step → ℕ
attempts_in none = 0
attempts_in (some r) = r.attempts

-- `attempts` of step `k`.
unfoldable pub attempts : String → Store → ℕ
unfolding attempts_in
attempts k st = attempts_in (lookup k st.steps)

-- The claims of step `k` that succeed when the operations are run from a state.
abbrev pub claim_count : String → Op → Store → ℕ
claim_count k (claim_op now j w secs) st =
    if j =s= k then (if is_some (claim now j w secs st).1 then 1 else 0) else 0
claim_count k _ st = 0

unfoldable pub claims : String → List Op → Store → ℕ
claims k [] st = 0
claims k (op ∷ ops) st = claim_count k op st + claims k ops (run_op op st)

attempts-updated :
    (c : Step → Bool) (f : Step → Step) (row : Option Step)
    → ((r : Step) → (f r).attempts ≡ r.attempts)
    → attempts_in (updated c f row) ≡ attempts_in row
unfolding attempts_in
attempts-updated c f none keeps = refl
attempts-updated c f (some r) keeps = ground (arith, keeps r)

attempts-update_step :
    (k j : String) (c : Step → Bool) (f : Step → Step) (steps : Dict Step)
    → ((r : Step) → (f r).attempts ≡ r.attempts)
    → attempts_in (lookup k (update_step j c f steps).0) ≡ attempts_in (lookup k steps)
unfolding attempts_in
attempts-update_step k j c f steps keeps = elim (Bool-cases (j =s= k)) [
  | inl e ↦
      let same : j ≡ k = (eq_iff j k).0 e in
      subst (λ i. attempts_in (lookup k (update_step i c f steps).0) ≡ attempts_in (lookup k steps))
        (sym same)
        (rw (lookup-update_step_self k c f steps) (attempts-updated c f (lookup k steps) keeps))
  | inr e ↦ rw (lookup-update_step j k c f steps) (rw e)
]

attempts-claim :
    (k j : String) (now : ℕ) (w : String) (secs : ℕ) (st : Store)
    → attempts k (claim now j w secs st).0
      ≡ attempts k st + claim_count k (claim_op now j w secs) st
unfolding attempts claim
attempts-claim k j now w secs st = elim (Bool-cases (j =s= k)) [
  | inl e ↦
      let same : j ≡ k = (eq_iff j k).0 e in
      let row = update_step_row k (is_claimable now) (claimed now w secs) st.steps in
      let left = lookup-update_step_self k (is_claimable now) (claimed now w secs) st.steps in
      subst
        (λ i.
          attempts k (claim now i w secs st).0
          ≡ attempts k st + claim_count k (claim_op now i w secs) st)
        (sym same) (ground (arith, row, left, eq_refl k))
  | inr e ↦ ground (arith, lookup-update_step j k (is_claimable now) (claimed now w secs) st.steps)
]

attempts-complete :
    (k : String) (now : ℕ) (j w : String) (p : StepResultPayload) (st : Store)
    → attempts k (complete now j w p st).0 ≡ attempts k st
unfolding attempts complete
attempts-complete k now j w p st =
    ground (
      arith,
      attempts-update_step k j (holds w) (released (finished p.status)) st.steps (λ r. refl),
    )

attempts-run_op :
    (k : String) (op : Op) (st : Store)
    → attempts k (run_op op st) ≡ attempts k st + claim_count k op st
unfolding attempts run_op enqueue extend release
attempts-run_op k (enqueue_op p j) st =
    attempts-update_step k j _ _ st.steps (λ r. refl) ∙ sym (add-zero _)
attempts-run_op k (claim_op now j w secs) st = attempts-claim k j now w secs st
attempts-run_op k (extend_op now j w secs) st =
    attempts-update_step k j _ _ st.steps (λ r. refl) ∙ sym (add-zero _)
attempts-run_op k (complete_op now j w p) st = attempts-complete k now j w p st ∙ sym (add-zero _)
attempts-run_op k (release_op j w) st =
    attempts-update_step k j _ _ st.steps (λ r. refl) ∙ sym (add-zero _)

-- The column `attempts` of a step counts exactly its successful claims: over any operations of any
-- workers it grows by the number of claims of the step that succeed, and no other operation
-- changes it.
pub attempts-run_ops :
    (k : String) (ops : List Op) (st : Store)
    → attempts k (run_ops ops st) ≡ attempts k st + claims k ops st
unfolding run_ops claims
attempts-run_ops k [] st = omega arith
attempts-run_ops k (op ∷ ops) st =
    omega (arith, attempts-run_op k op st, attempts-run_ops k ops (run_op op st))
