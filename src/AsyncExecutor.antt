-- ===== src/AsyncExecutor.antt =====
-- .patroni/patroni/async_executor.py: the executor that runs one long action at a time in a
-- thread of its own, and the critical task that such an action may have.
pub mod Threads
use otus_hightload.Prelude.{Bool, true, false, Option, none, some, is_some, if◌then◌else◌}
use otus_hightload.Prelude.Text.{Text}

-- `result` is `None` until the task has run
pub record CriticalTask {ℓ} (A : Type ℓ) : Type ℓ where
  pub is_cancelled : Bool
  pub result : Option A

module _ {ℓ} {A : Type ℓ} where
  unfoldable pub reset : CriticalTask A → CriticalTask A
  reset t = record { is_cancelled = false; result = none }

  unfoldable pub cancel_task : CriticalTask A → CriticalTask A × Bool
  cancel_task t =
      if is_some t.result then (t, false) else (record { is_cancelled = true; result = none }, true)

  unfoldable pub complete : A → CriticalTask A → CriticalTask A
  complete r t = record { is_cancelled = t.is_cancelled; result = some r }

pub record Executor {ℓ} (A : Type ℓ) : Type ℓ where
  pub scheduled_action : Option Text
  pub is_cancelled : Bool
  pub finish_event : Bool
  pub task : CriticalTask A

module _ {ℓ} {A : Type ℓ} where
  unfoldable pub init : Executor A
  init = record {
    scheduled_action = none;
    is_cancelled = false;
    finish_event = false;
    task = record { is_cancelled = false; result = none };
  }

  unfoldable pub busy : Executor A → Bool
  busy e = is_some e.scheduled_action

  place : Text → Executor A → Option Text → Executor A × Option Text
  place action e (some prev) = (e, some prev)
  place action e none =
      (record e { scheduled_action = some action; is_cancelled = false; finish_event = true }, none)

  -- `none`: the action was scheduled; otherwise the one that is in progress
  unfoldable pub schedule : Text → Executor A → Executor A × Option Text
  unfolding place
  schedule action e = place action e e.scheduled_action

  unfoldable pub reset_scheduled_action : Executor A → Executor A
  reset_scheduled_action e = record e { scheduled_action = none }

  -- `run` up to the call of the function, which is made if the answer is `true`
  unfoldable pub begin_run : Executor A → Executor A × Bool
  begin_run e = if e.is_cancelled then (e, false) else (record e { finish_event = false }, true)

  -- the `finally` of `run`
  unfoldable pub end_run : Executor A → Executor A
  end_run e =
      let e' = reset_scheduled_action e in record e' { finish_event = true; task = reset e.task }

  -- `cancel` up to its wait; it waits if the answer is `true`
  unfoldable pub begin_cancel : Executor A → Executor A × Bool
  begin_cancel e = if busy e then (record e { is_cancelled = true }, true) else (e, false)

  -- `cancel` after `_finish_event.wait()`
  unfoldable pub end_cancel : Executor A → Executor A
  end_cancel e = reset_scheduled_action e
