-- ===== src/Api/Failover/Answer.antt =====
-- The status codes of the answers to a failover or a switchover in .patroni/patroni/api.py.
use otus_hightload.Prelude.{
  ◌∙◌, Bool, true, false, not, ◌&&◌, ◌||◌, Option, none, some, is_some, ◌≡◌, refl, arith, String,
}
use otus_hightload.Prelude.Int.{ℤ}
use otus_hightload.Prelude.Text.{Text, text_eq, non_empty, codes}
use otus_hightload.Py.{Fields}
use otus_hightload.GlobalConfig.{is_paused}
use otus_hightload.Api.Schedule.{of_moment, Clock, parse_schedule, of_moment}
use otus_hightload.Api.Failover.{
  Action, failover, switchover, World, Progress, with_schedule, with_names, with_nodes,
  missing_name, refuse, of_schedule, impossible, effective_action, check_request, finish,
  after_write, name_in, candidate_in, do_post_failover,
}

pub is_switchover : Action → Bool
is_switchover failover = false
is_switchover switchover = true

-- the status of the answer, from what the checks have left
answer_status :
    (w : World) (candidate : Text) (p : Progress) (o : Option String)
    → is_some (finish w candidate p o).status ≡ (not (is_some o) || is_some p.status)
unfolding finish after_write
answer_status w candidate p (some why) = ground arith
answer_status w candidate p none = go p.scheduled_at w.written
  where
    go : (at : Option ℤ) (b : Bool) → is_some (after_write w candidate at b).status ≡ true
    go none false = refl
    go (some t) false = refl
    go none true = refl
    go (some t) true = refl

parse_schedule-status :
    (c : Clock) (schedule : Text)
    → is_some (parse_schedule c schedule).status ≡ is_some (parse_schedule c schedule).error
unfolding parse_schedule of_moment
parse_schedule-status c schedule = ground arith

checked_status :
    (w : World) (action : Action) (leader candidate schedule : Text)
    → let p = check_request w action leader candidate schedule in
      (not (is_some p.error) || is_some p.status)
      ≡ not (
          is_switchover action
          && non_empty leader
          && not (is_paused w.config)
          && non_empty schedule
          && not (is_some (parse_schedule w.clock schedule).error)
          && text_eq leader candidate)
unfolding check_request with_nodes with_names with_schedule missing_name impossible refuse
    of_schedule is_switchover effective_action
checked_status w failover leader candidate schedule = ground arith
checked_status w switchover leader candidate schedule =
    let same = parse_schedule-status w.clock schedule in ground arith

-- The handler has no status code for its answer exactly when a switchover that is scheduled, at a time
-- that can be read and is not over, outside a pause, names the same node as leader and as candidate.
pub no_status_iff :
    (w : World) (action : Action) (request : Fields)
    → is_some (do_post_failover w action request).status
      ≡ not (
          is_switchover action
          && non_empty (name_in request (codes "leader"))
          && not (is_paused w.config)
          && non_empty (name_in request (codes "scheduled_at"))
          && not (is_some (parse_schedule w.clock (name_in request (codes "scheduled_at"))).error)
          && text_eq (name_in request (codes "leader")) (candidate_in request))
unfolding do_post_failover
no_status_iff w action request =
    let leader = name_in request (codes "leader") in
    let schedule = name_in request (codes "scheduled_at") in
    let candidate = candidate_in request in
    let p = check_request w action leader candidate schedule in
    answer_status w candidate p p.error ∙ checked_status w action leader candidate schedule
