-- ===== src/Dispatch/Postgres/Outcomes.antt =====
-- What a worker is told: by a completion, a heartbeat and a release, with and without the lease.
use chat_aiagent.Prelude.{
  ℕ, ◌+◌, ◌≡◌, ◌≢◌, ◌↔◌, inl, inr, refl, String, Bool, true, false, Option, none, some, lookup,
  arith, eq_iff, Option-cases,
}
use chat_aiagent.Dispatch.Base.{StepResultPayload, Error, lease_expired}
use chat_aiagent.Dispatch.Postgres.{
  pending, finished, Step, Store, is_claimable, claimed, holds, released, update_step, claim,
  extend, complete, release,
}
use chat_aiagent.Dispatch.Postgres.Update.{lookup-update_step_self, update_step_row}
use chat_aiagent.Dispatch.Postgres.Lease.{is_held_row, Held}

abbrev is_owner : String → Option Step → Bool
is_owner w none = false
is_owner w (some r) = holds w r

-- `w` is the lock token of step `k`.
abbrev pub Owns : String → String → Store → Type 0
Owns w k st = is_owner w (lookup k st.steps) ≡ true

-- A completion succeeds exactly when the worker's token is on the step; if it raises, the store is
-- as it was, the row of the result included.
pub complete_fenced :
    (now : ℕ) (k w : String) (p : StepResultPayload) (st : Store)
    → (((complete now k w p st).1 ≡ none) ↔ Owns w k st)
      × ((e : Error) → (complete now k w p st).1 ≡ some e → (complete now k w p st).0 ≡ st)
unfolding complete
complete_fenced now k w p st = elim (Option-cases (lookup k st.steps)) [
  | inl e ↦ ((λ h. ground arith, λ h. ground arith), λ x h. ground arith)
  | inr (r, e) ↦
      let row = update_step_row k (holds w) (released (finished p.status)) st.steps in
      ((λ h. ground (arith, row), λ h. ground (arith, row)), λ x h. ground (arith, row))
]

-- A row that is another worker's.
not_owned :
    (v w : String) (row : Option Step)
    → is_held_row v row ≡ true
    → v ≢ w
    → (r : Step) × (row ≡ some r) × (holds w r ≡ false)
not_owned v w none h ne = absurd (ground arith)
not_owned v w (some r) h ne = elim (Option-cases r.lock_token) [
  | inl e ↦ absurd (ground arith)
  | inr (t, e) ↦ (r, refl, ground (arith, eq_iff t v, eq_iff t w))
]

-- A worker whose step another worker has claimed since cannot complete it, extend its lease or
-- release it: the completion raises LeaseExpiredError, the heartbeat learns of it, and none of the
-- three changes anything.
pub stale_worker :
    (v w k : String) (now secs : ℕ) (p : StepResultPayload) (st : Store)
    → Held v k st
    → v ≢ w
    → (complete now k w p st ≡ (st, some lease_expired))
      × (extend now k w secs st ≡ (st, false))
      × (release k w st ≡ st)
unfolding complete extend release update_step
stale_worker v w k now secs p st h ne =
    let (r, e, other) = not_owned v w (lookup k st.steps) h ne in
    (ground arith, ground arith, ground arith)

-- A step that its worker releases can be claimed at once, by any worker, and the message counts one
-- attempt more.
pub release-claim :
    (w v k : String) (now secs : ℕ) (st : Store) (r : Step)
    → lookup k st.steps ≡ some r
    → holds w r ≡ true
    → (claim now k v secs (release k w st)).1
      ≡ some (record { plan_id = r.plan_id; step_id = k; attempt = r.attempts + 1 })
unfolding claim release
release-claim w v k now secs st r e h = ground (
  arith,
  lookup-update_step_self k (holds w) (released pending) st.steps,
  update_step_row k (is_claimable now) (claimed now v secs)
      (update_step k (holds w) (released pending) st.steps).0,
)
