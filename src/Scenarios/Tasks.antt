-- ===== src/Scenarios/Tasks.antt =====
-- Background actions at concrete inputs.
use otus_hightload.Prelude.{◌+◌, ◌≤◌, true, false, some, ◌≡◌, refl, inr, if◌then◌else◌}
use otus_hightload.Prelude.Text.{codes}
use otus_hightload.AsyncExecutor.{init, busy, schedule}
use otus_hightload.AsyncExecutor.Threads.{
  Threads, idle, Step, Reach, one_thread_at_a_time, cancel_race,
}

-- a restart is scheduled
abbrev restarting : Threads
restarting = record idle {
  executor = (schedule (codes "restart") idle.executor).0;
  pending = idle.pending + 1;
}

restarting_reached : Reach true idle restarting
unfolding idle init schedule
restarting_reached = Reach.next Reach.here (Step.starts true idle (codes "restart") refl (inr refl))

one_thread_at_a_time_example :
    (restarting.pending + restarting.running ≤ 1)
    × (restarting.pending + restarting.running ≡ (if busy restarting.executor then 1 else 0))
one_thread_at_a_time_example = one_thread_at_a_time restarting_reached

cancel_race_example :
    (s : Threads) × Reach false idle s
    × (s.running ≡ 2)
    × (s.executor.scheduled_action ≡ some (codes "reinitialize"))
cancel_race_example = cancel_race (codes "restart") (codes "reinitialize")
