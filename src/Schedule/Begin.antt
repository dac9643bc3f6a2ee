-- ===== src/Schedule/Begin.antt =====
-- crawler/task/scheduler.go: what the first half of `executeSchedule` can come to.
use go_backend_kit.Common.{
  String, false, ◌≡◌, refl, some, Option-cases, Bool-cases, ◌⊎◌, inl, inr, Time, get, string_key,
  arith,
}
use go_backend_kit.Schedule.Types.{Schedule, Scheduler, World, Answer, accepted, refused, not_found}
use go_backend_kit.Schedule.Rules.{is_exhausted}
use go_backend_kit.Schedule.Engine.{disable_schedule, submit_run, begin_run}

module _ {C Q : Type 0} (w : World C Q) where
  submit_run_same :
      (now : Time) (task_id id : String) (sch : Schedule) (s : Scheduler C Q)
      → let s' = (submit_run w now task_id id sch s).0 in
        (s'.schedules ≡ s.schedules) × (s'.cron_jobs ≡ s.cron_jobs)
  unfolding submit_run
  submit_run_same now task_id id sch s = ground arith

  -- It leaves the scheduler alone, or disables a schedule that has used up its runs, or submits
  -- the task of a schedule that may run.
  pub begin_run_cases :
      (now : Time) (task_id id : String) (s : Scheduler C Q)
      → let r = begin_run w now task_id id s in
        ((a : Answer) × (r ≡ (s, some a)))
        ⊎ ((r ≡ ((disable_schedule w now id s).0, some accepted))
            ⊎ ((sch : Schedule) × (get id s.schedules ≡ some sch)
                × (is_exhausted sch ≡ false)
                × (r.0.schedules ≡ s.schedules)
                × (r.0.cron_jobs ≡ s.cron_jobs)))
  unfolding begin_run
  begin_run_cases now task_id id s = elim (Option-cases (get id s.schedules)) [
    | inl e ↦ inl (refused not_found, rw (e, begin_run) refl)
    | inr (sch, e) ↦ elim (Bool-cases sch.enabled) [
      | inr off ↦ inl (accepted, rw (e, off, begin_run) refl)
      | inl on ↦ elim (Bool-cases (is_exhausted sch)) [
        | inl b ↦ inr (inl (rw (e, on, b, begin_run) refl))
        | inr b ↦
            let (same, jobs) = submit_run_same now task_id id sch s in
            inr (inr (sch, e, b, rw (e, on, b, begin_run) same, rw (e, on, b, begin_run) jobs))
      ]
    ]
  ]
