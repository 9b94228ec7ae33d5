-- ===== src/Worker/Signals.antt =====
-- worker_agent/worker/main.py, main: the signal handler and the loop each have a Worker of their own.
-- The loop is taken here from one await to the next, so that a signal, or another process, comes
-- between any two of them. The drain's wait for a task is one moment.
use chat_aiagent.Prelude.{
  ℕ, ◌≡◌, refl, ap, sym, subst, String, Bool, true, false, Option, none, some, List, [], ◌∷◌,
  if◌then◌else◌, is_some, arith,
}
use chat_aiagent.Dispatch.Base.{StepMessage, Error, DispatchAdapter}
use chat_aiagent.Worker.{
  unfinished, done, Worker, new_worker, stop, drained, graceful_shutdown, Call, Round,
  next_pending_step_id, execute_and_complete, run_claimed, turn,
}

-- What the process meets: the loop goes on, at a time; another process acts; or SIGTERM, with whether
-- the drain ends in time.
pub data Moment (S : Type 0) : Type 0 where
  go : ℕ → Moment S
  others : (S → S) → Moment S
  sigterm : Bool → Moment S

-- Where the loop stands: before a poll, before the claim of a step, or while the task of a message
-- runs.
pub data Phase : Type 0 where
  polling : Phase
  claiming : String → Phase
  executing : StepMessage → Phase

-- `signalled` is the Worker that `main` gives to the handler, `own` the one that run_worker makes.
pub record Process (S : Type 0) : Type 0 where
  pub signalled : Worker
  pub own : Worker
  pub phase : Phase
  pub back_end : S
  -- the exception that ended the loop
  pub crashed : Option Error

module _ {S : Type 0} (a : DispatchAdapter S) (tools : String → Option (Call S)) (secs : ℕ) where
  unfoldable pub start : String → S → Process S
  unfolding new_worker
  start worker_id st = record {
    signalled = new_worker worker_id;
    own = new_worker worker_id;
    phase = polling;
    back_end = st;
    crashed = none;
  }

  abbrev pub polled : Option String → Process S → Process S
  polled none p = p
  polled (some k) p = record p { phase = claiming k }

  -- The message of the claim, whose task is the worker's current one from here on.
  abbrev pub claimed : Option StepMessage → S → Process S → Process S
  claimed none st p = record p { phase = polling; back_end = st }
  claimed (some m) st p = record p {
    own = record p.own { current_step_id = some m.step_id; current_task = some unfinished };
    phase = executing m;
    back_end = st;
  }

  abbrev pub executed : S × Option Error → Process S → Process S
  executed (st, e) p = record p {
    own = record p.own { current_task = some done };
    phase = polling;
    back_end = st;
    crashed = e;
  }

  -- The loop from one await to the next; the worker accepts where it looks for a step.
  abbrev pub proceed : ℕ → Phase → Process S → Process S
  proceed now polling p =
      if p.own.accepting then polled (next_pending_step_id a p.back_end) p else p
  proceed now (claiming k) p =
      let (st, m) = a.claim now k p.own.worker_id secs p.back_end in claimed m st p
  proceed now (executing m) p =
      executed (execute_and_complete a tools now m p.own.worker_id secs p.back_end) p

  abbrev pub after_signal : Worker × S → Process S → Process S
  after_signal (w, st) p = record p { signalled = w; back_end = st }

  unfoldable pub moment : Moment S → Process S → Process S
  unfolding next_pending_step_id execute_and_complete graceful_shutdown
  moment (sigterm in_time) p = after_signal (graceful_shutdown a in_time p.signalled p.back_end) p
  moment (others f) p = record p { back_end = f p.back_end }
  moment (go now) p = if is_some p.crashed then p else proceed now p.phase p

  unfoldable pub live : List (Moment S) → Process S → Process S
  live [] p = p
  live (m ∷ ms) p = live ms (moment m p)

  -- The moments without the signals.
  abbrev pub unsignalled : List (Moment S) → List (Moment S)
  unsignalled [] = []
  unsignalled (sigterm b ∷ ms) = unsignalled ms
  unsignalled (go now ∷ ms) = go now ∷ unsignalled ms
  unsignalled (others f ∷ ms) = others f ∷ unsignalled ms

  -- What the loop and the back end see of a process.
  abbrev pub Same : Process S → Process S → Type 0
  Same p q =
      (p.own ≡ q.own) × (p.phase ≡ q.phase) × (p.back_end ≡ q.back_end) × (p.crashed ≡ q.crashed)

  -- The process with another Worker for the handler.
  abbrev handled_by : Worker → Process S → Process S
  handled_by w p = record p { signalled = w }

  polled-handled_by :
      (o : Option String) (w : Worker) (p : Process S)
      → polled o (handled_by w p) ≡ handled_by w (polled o p)
  polled-handled_by none w p = refl
  polled-handled_by (some k) w p = refl

  claimed-handled_by :
      (m : Option StepMessage) (st : S) (w : Worker) (p : Process S)
      → claimed m st (handled_by w p) ≡ handled_by w (claimed m st p)
  claimed-handled_by none st w p = refl
  claimed-handled_by (some m) st w p = refl

  if-handled_by :
      (b : Bool) (p q : Process S) (w : Worker)
      → (if b then handled_by w p else handled_by w q) ≡ handled_by w (if b then p else q)
  if-handled_by true p q w = refl
  if-handled_by false p q w = refl

  proceed-handled_by :
      (now : ℕ) (f : Phase) (w : Worker) (p : Process S)
      → proceed now f (handled_by w p) ≡ handled_by w (proceed now f p)
  proceed-handled_by now polling w p =
      let o = next_pending_step_id a p.back_end in
      rw (polled-handled_by o w p) (if-handled_by p.own.accepting (polled o p) p w)
  proceed-handled_by now (claiming k) w p =
      let out = a.claim now k p.own.worker_id secs p.back_end in claimed-handled_by out.1 out.0 w p
  proceed-handled_by now (executing m) w p = refl

  go-handled_by :
      (now : ℕ) (w : Worker) (p : Process S)
      → moment (go now) (handled_by w p) ≡ handled_by w (moment (go now) p)
  unfolding moment
  go-handled_by now w p =
      rw (proceed-handled_by now p.phase w p)
        (if-handled_by (is_some p.crashed) p (proceed now p.phase p) w)

  others-handled_by :
      (f : S → S) (w : Worker) (p : Process S)
      → moment (others f) (handled_by w p) ≡ handled_by w (moment (others f) p)
  unfolding moment
  others-handled_by f w p = refl

  -- A signal to a Worker without a task only stops that Worker.
  sigterm-handled_by :
      (b : Bool) (w : Worker) (p : Process S)
      → w.current_task ≡ none
      → moment (sigterm b) (handled_by w p) ≡ handled_by (stop w) p
  unfolding moment graceful_shutdown
  sigterm-handled_by b w p h =
      let kept : drained a b w p.back_end ≡ p.back_end = ground (arith, h) in
      ap (λ st. record p { signalled = stop w; back_end = st }) kept

  live-Same :
      (ms : List (Moment S)) (w : Worker) (p : Process S)
      → w.current_task ≡ none
      → Same (live ms (handled_by w p)) (live (unsignalled ms) p)
  unfolding live stop
  live-Same [] w p h = (refl, refl, refl, refl)
  live-Same (sigterm b ∷ ms) w p h =
      subst (λ x. Same (live ms x) (live (unsignalled ms) p)) (sym (sigterm-handled_by b w p h))
        (live-Same ms (stop w) p h)
  live-Same (others f ∷ ms) w p h =
      subst (λ x. Same (live ms x) (live (unsignalled ms) (moment (others f) p)))
        (sym (others-handled_by f w p)) (live-Same ms w (moment (others f) p) h)
  live-Same (go now ∷ ms) w p h =
      subst (λ x. Same (live ms x) (live (unsignalled ms) (moment (go now) p)))
        (sym (go-handled_by now w p)) (live-Same ms w (moment (go now) p) h)

  -- SIGTERM changes nothing that the loop or the back end sees, however often it comes, and between
  -- whichever two awaits of the loop, also while a step is being executed, and whether or not the
  -- drain would end in time: the process that receives it polls, claims and completes like one that
  -- does not, and no lease is released for it.
  pub signals_without_effect :
      (worker_id : String) (ms : List (Moment S)) (st : S)
      → Same (live ms (start worker_id st)) (live (unsignalled ms) (start worker_id st))
  unfolding start new_worker
  signals_without_effect worker_id ms st =
      live-Same ms (new_worker worker_id) (start worker_id st) refl

  -- The moments of one turn in which a step is found and claimed.
  abbrev pub moments : Round S → List (Moment S)
  moments r =
      others r.before_poll
      ∷ go r.claimed_at
      ∷ others r.before_claim
      ∷ go r.claimed_at
      ∷ others r.before_complete
      ∷ go r.completed_at
      ∷ []

  -- They do what the turn does.
  live-turn :
      (r : Round S) (p : Process S) (k : String) (m : StepMessage)
      → p.phase ≡ polling
      → p.crashed ≡ none
      → p.own.accepting ≡ true
      → next_pending_step_id a (r.before_poll p.back_end) ≡ some k
      → (a.claim r.claimed_at k p.own.worker_id secs (r.before_claim (r.before_poll p.back_end))).1
        ≡ some m
      → let q = live (moments r) p in
        (q.own, q.back_end, q.crashed) ≡ turn a tools secs r p.own p.back_end
  unfolding live moment turn run_claimed
  live-turn r p k m polls fine accepts poll got = ground (arith, polls, fine, accepts, poll, got)
