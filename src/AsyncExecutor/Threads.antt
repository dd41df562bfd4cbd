-- ===== src/AsyncExecutor/Threads.antt =====
-- The threads of async_executor.py as interleaved steps: callers that schedule and cancel, and
-- background threads that begin and end.
use otus_hightload.Prelude.{
  inl, ℕ, ◌+◌, ◌-◌, ◌≤◌, ◌<◌, Bool, true, false, ◌≡◌, refl, ◌⊎◌, none, some, arith, if◌then◌else◌,
}
use otus_hightload.Prelude.Text.{Text}
use otus_hightload.AsyncExecutor.{
  Executor, init, busy, schedule, begin_run, end_run, begin_cancel, end_cancel,
  reset_scheduled_action, reset,
}

pub record Threads : Type 0 where
  pub executor : Executor (Unit {0})
  pub pending : ℕ  -- started, before the test of `_is_cancelled`
  pub running : ℕ  -- in the function
  pub cancelling : ℕ  -- in `cancel`, before or in the wait

unfoldable pub idle : Threads
idle = record { executor = init; pending = 0; running = 0; cancelling = 0 }

-- `calm` steps begin no cancellation before the thread has passed its test, and schedule nothing
-- while a cancellation waits.
pub data Step : Bool → Threads → Threads → Type 0 where
  starts :
      (calm : Bool) (s : Threads) (action : Text)
      → (schedule action s.executor).1 ≡ none
      → (calm ≡ false) ⊎ (s.cancelling ≡ 0)
      → Step calm s
          (record s { executor = (schedule action s.executor).0; pending = s.pending + 1 })
  runs :
      (calm : Bool) (s : Threads)
      → 0 < s.pending
      → (begin_run s.executor).1 ≡ true
      → Step calm s (record s {
        executor = (begin_run s.executor).0;
        pending = s.pending - 1;
        running = s.running + 1;
      })
  skips :
      (calm : Bool) (s : Threads)
      → 0 < s.pending
      → (begin_run s.executor).1 ≡ false
      → Step calm s (record s { executor = end_run s.executor; pending = s.pending - 1 })
  ends :
      (calm : Bool) (s : Threads)
      → 0 < s.running
      → Step calm s (record s { executor = end_run s.executor; running = s.running - 1 })
  cancels :
      (calm : Bool) (s : Threads)
      → (begin_cancel s.executor).1 ≡ true
      → (calm ≡ false) ⊎ (s.pending ≡ 0)
      → Step calm s
          (record s { executor = (begin_cancel s.executor).0; cancelling = s.cancelling + 1 })
  returns :
      (calm : Bool) (s : Threads)
      → 0 < s.cancelling
      → s.executor.finish_event ≡ true
      → Step calm s (record s { executor = end_cancel s.executor; cancelling = s.cancelling - 1 })

pub data Reach (calm : Bool) (s : Threads) : Threads → Type 0 where
  here : Reach calm s s
  next : {t u : Threads} → Reach calm s t → Step calm t u → Reach calm s u

pub record IsExclusive (s : Threads) : Type 0 where
  pub one : s.pending + s.running ≤ 1
  pub counted : busy s.executor ≡ false → s.pending + s.running ≡ 0
  pub alive : busy s.executor ≡ true → s.pending + s.running ≡ 1
  pub unfinished : 0 < s.running → s.executor.finish_event ≡ false
  pub waited : 0 < s.cancelling → s.pending ≡ 0

step-IsExclusive : {s t : Threads} → Step true s t → IsExclusive s → IsExclusive t
unfolding schedule begin_run end_run begin_cancel end_cancel busy reset_scheduled_action reset
step-IsExclusive (starts calm s action e c) h = ground arith
step-IsExclusive (runs calm s p e) h = ground arith
step-IsExclusive (skips calm s p e) h = ground arith
step-IsExclusive (ends calm s p) h = ground arith
step-IsExclusive (cancels calm s e c) h = ground arith
step-IsExclusive (returns calm s p e) h = ground arith

idle-IsExclusive : IsExclusive idle
unfolding idle init busy
idle-IsExclusive = ground arith

Reach-IsExclusive : {s t : Threads} → IsExclusive s → Reach true s t → IsExclusive t
Reach-IsExclusive h here = h
Reach-IsExclusive h (next r st) = step-IsExclusive st (Reach-IsExclusive h r)

-- With calm steps at most one background thread is alive, and one is exactly while an action is
-- scheduled.
pub one_thread_at_a_time :
    {s : Threads}
    → Reach true idle s
    → (s.pending + s.running ≤ 1) × (s.pending + s.running ≡ (if busy s.executor then 1 else 0))
one_thread_at_a_time r = let h = Reach-IsExclusive idle-IsExclusive r in ground arith

-- Without that discipline the executor runs two actions at once: a cancellation that comes before
-- the thread has looked at `_is_cancelled` does not wait for it, and the next `schedule` clears the
-- mark. So it is for every two actions.
pub cancel_race :
    (a b : Text)
    → (s : Threads) × Reach false idle s × (s.running ≡ 2) × (s.executor.scheduled_action ≡ some b)
unfolding idle init schedule begin_run begin_cancel end_cancel busy reset_scheduled_action
cancel_race a b =
    let s0 = idle in
    let s1 : Threads = record s0 { executor = (schedule a s0.executor).0; pending = 1 } in
    let s2 : Threads = record s1 { executor = (begin_cancel s1.executor).0; cancelling = 1 } in
    let s3 : Threads = record s2 { executor = end_cancel s2.executor; cancelling = 0 } in
    let s4 : Threads = record s3 { executor = (schedule b s3.executor).0; pending = 2 } in
    let s5 : Threads = record s4 {
      executor = (begin_run s4.executor).0;
      pending = 1;
      running = 1;
    } in
    let s6 : Threads = record s5 {
      executor = (begin_run s5.executor).0;
      pending = 0;
      running = 2;
    } in
    let r1 : Reach false idle s1 = next here (starts false s0 a refl (inl refl)) in
    let r2 : Reach false idle s2 = next r1 (cancels false s1 refl (inl refl)) in
    let r3 : Reach false idle s3 = next r2 (returns false s2 (omega arith) refl) in
    let r4 : Reach false idle s4 = next r3 (starts false s3 b refl (inl refl)) in
    let r5 : Reach false idle s5 = next r4 (runs false s4 (omega arith) refl) in
    (s6, next r5 (runs false s5 (omega arith) refl), refl, refl)
