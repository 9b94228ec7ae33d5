-- ===== src/Dispatch/Postgres/Update.antt =====
-- The UPDATE of one row of the table of steps.
use chat_aiagent.Prelude.{
  ◌≡◌, ◌≢◌, inl, inr, String, Bool, Option, none, some, Dict, lookup, lookup-insert, ◌=s=◌,
  if◌then◌else◌, arith, eq_iff, eq_refl, Option-cases,
}
use chat_aiagent.Dispatch.Postgres.{Step, update_step}

-- What an UPDATE makes of a row, and what it leaves under each key.
abbrev pub updated : (Step → Bool) → (Step → Step) → Option Step → Option Step
updated c f none = none
updated c f (some r) = some (if c r then f r else r)

pub lookup-update_step :
    (k j : String) (c : Step → Bool) (f : Step → Step) (steps : Dict Step)
    → lookup j (update_step k c f steps).0
      ≡ (if k =s= j then updated c f (lookup k steps) else lookup j steps)
unfolding update_step
lookup-update_step k j c f steps = elim (Option-cases (lookup k steps)) [
  | inl e ↦ ground (arith, eq_iff k j)
  | inr (r, e) ↦ ground (arith, eq_iff k j, lookup-insert k j (f r) steps)
]

pub lookup-update_step_self :
    (k : String) (c : Step → Bool) (f : Step → Step) (steps : Dict Step)
    → lookup k (update_step k c f steps).0 ≡ updated c f (lookup k steps)
lookup-update_step_self k c f steps = rw (lookup-update_step k k c f steps) (rw (eq_refl k))

pub lookup-update_step_ne :
    (k j : String) (c : Step → Bool) (f : Step → Step) (steps : Dict Step)
    → k ≢ j
    → lookup j (update_step k c f steps).0 ≡ lookup j steps
lookup-update_step_ne k j c f steps h = ground (arith, lookup-update_step k j c f steps, eq_iff k j)

-- The result of an UPDATE is the row that it changed, if the row is there and meets the condition.
pub update_step_row :
    (k : String) (c : Step → Bool) (f : Step → Step) (steps : Dict Step)
    → (update_step k c f steps).1
      ≡ elim (lookup k steps) [ none ↦ none | some r ↦ if c r then some (f r) else none ]
unfolding update_step
update_step_row k c f steps = ground arith
