-- ===== src/Dispatch/Base.antt =====
-- worker_agent/dispatch/base.py: the messages between the control plane and the workers, and the
-- interface that each adapter implements over a state of its own. The status of a step is one of
-- the words that the adapters write; that of a result is one of the three of StepResultPayload.
use chat_aiagent.Prelude.{ℕ, String, Bool, Option, Text}
use chat_aiagent.Prelude.Json.{Json}

pub data ResultStatus : Type 0 where
  completed failed skipped : ResultStatus

pub record StepMessage : Type 0 where
  pub plan_id : Option String
  pub step_id : String
  pub attempt : ℕ

pub record StepResultPayload : Type 0 where
  pub status : ResultStatus
  pub output : Option Json
  pub error : Option Text

-- What an operation of an adapter can raise: LeaseExpiredError, or the error of its back end.
pub data Error : Type 0 where
  lease_expired : Error
  backend : Error

-- Each operation returns the new state of the back end with its result; `now` is the clock.
pub record DispatchAdapter (S : Type 0) : Type 0 where
  pub enqueue : String → String → S → S × Option Error
  pub claim : ℕ → String → String → ℕ → S → S × Option StepMessage
  pub extend : ℕ → String → String → ℕ → S → S × Bool
  pub complete : ℕ → String → String → StepResultPayload → S → S × Option Error
  pub release : String → String → S → S × Option Error
  -- `hasattr(adapter, "next_pending_step_id")`, and what it returns
  pub next_pending_step_id : Option (S → Option String)
