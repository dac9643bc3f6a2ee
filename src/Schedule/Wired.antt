-- ===== src/Schedule/Wired.antt =====
-- crawler/task/scheduler.go: the job numbers that schedules keep are those of their own cron jobs.
use mathlib.Core.Path.{subst}
use go_backend_kit.Common.{
  wrap64, ◌+ℤ◌, pos, ℕ, String, Bool-cases, Option-cases, inl, inr, ◌≡◌, sym, ◌∙◌, ap, none, some,
  List, [], ◌∷◌, Time, Dict, All, ltb, get, string_key, arith,
}
use go_backend_kit.Schedule.Types.{Schedule, Scheduler, World, CronLaws, entry_of, entry_in}
use go_backend_kit.Schedule.Rules.{reload_job, reload_jobs, count_run}
use go_backend_kit.Schedule.Engine.{
  check_interval_schedules, reload_schedules, begin_run, finish_run,
}
use go_backend_kit.Schedule.Calls.{
  Call, adds, removes, enables, disables, checks, reloads, begins, finishes, occurs,
  begun_scheduler, step, run,
}
use go_backend_kit.Schedule.Fields.{Alike, advance-Alike, count_run-Alike, get-advance_all}
use go_backend_kit.Schedule.Begin.{begin_run_cases}
use go_backend_kit.Schedule.Jobs.{HasJob, add_func-keeps, IsWired}
use go_backend_kit.Schedule.Wiring.{
  store-IsWired, add_schedule-IsWired, remove_schedule-IsWired, enable_schedule-IsWired,
  disable_schedule-IsWired,
}

-- No schedule that is added brings a job number along.
abbrev pub BringsNone : Call → Type 0
BringsNone (adds now sch) = entry_of sch ≡ none
BringsNone _ = Unit {0}

module _ {C Q : Type 0} (w : World C Q) (laws : CronLaws w.cron_ops) where
  IsWired-same :
      (s s' : Scheduler C Q)
      → s'.schedules ≡ s.schedules
      → s'.cron_jobs ≡ s.cron_jobs
      → IsWired w laws s
      → IsWired w laws s'
  IsWired-same s s' schedules jobs h id sch e =
      let has = h id sch (rw schedules at e) in (has.0, λ n f. rw jobs (has.1 n f))

  Alike-HasJob :
      (id : String) (a b : Schedule) (c : C)
      → Alike a b
      → HasJob w laws id b c
      → HasJob w laws id a c
  unfolding entry_of
  Alike-HasJob id a b c alike has =
      (alike.same_id ∙ has.0, λ n f. has.1 n (ap entry_in (sym alike.same_metadata) ∙ f))

  check_interval_schedules-IsWired :
      (now : Time) (s : Scheduler C Q)
      → IsWired w laws s
      → IsWired w laws (check_interval_schedules w now s).0
  unfolding check_interval_schedules
  check_interval_schedules-IsWired now s h id sch e =
      let (y, found, same) = get-advance_all w.time_text now id s.schedules sch e in
      subst (λ x. HasJob w laws id x s.cron_jobs) (sym same)
        (Alike-HasJob id _ y s.cron_jobs (advance-Alike w.time_text now y).0 (h id y found))

  reload_jobs-keeps :
      (m : Dict String Schedule) (c : C) (n : ℕ) (id : String)
      → laws.job n c ≡ some id
      → laws.job n (reload_jobs w.cron_ops m c) ≡ some id
  unfolding reload_jobs reload_job
  reload_jobs-keeps [] c n id h = h
  reload_jobs-keeps ((i, sch) ∷ m) c n id h =
      reload_jobs-keeps m (reload_job w.cron_ops sch c) n id (one sch)
    where
      one : (sch : Schedule) → laws.job n (reload_job w.cron_ops sch c) ≡ some id
      one sch = elim (Option-cases (w.cron_ops.add_func sch.expression sch.id c)) [
        | inl e ↦ ground (arith, e)
        | inr ((k, c'), e) ↦
            ground (arith, e, add_func-keeps w laws sch.expression sch.id c k c' e n id h)
      ]

  reload_schedules-IsWired :
      (s : Scheduler C Q) → IsWired w laws s → IsWired w laws (reload_schedules w s)
  unfolding reload_schedules
  reload_schedules-IsWired s h id sch e =
      ((h id sch e).0, λ n f. reload_jobs-keeps s.schedules s.cron_jobs n id ((h id sch e).1 n f))

  begin_run-IsWired :
      (now : Time) (task_id id : String) (s : Scheduler C Q)
      → IsWired w laws s
      → IsWired w laws (begin_run w now task_id id s).0
  begin_run-IsWired now task_id id s h = elim (begin_run_cases w now task_id id s) [
    | inl (a, e) ↦ rw e h
    | inr (inl e) ↦ rw e (disable_schedule-IsWired w laws now id s h)
    | inr (inr (sch, _, _, schedules, jobs)) ↦
        IsWired-same s (begin_run w now task_id id s).0 schedules jobs h
  ]

  finish_run-IsWired :
      (now : Time) (id : String) (s : Scheduler C Q)
      → IsWired w laws s
      → IsWired w laws (finish_run w now id s)
  unfolding finish_run
  finish_run-IsWired now id s h = elim (Option-cases (get id s.schedules)) [
    | inl e ↦ rw (e, finish_run) h
    | inr (sch, e) ↦
        rw (e, finish_run)
          (store-IsWired w laws id (count_run w.cron_ops now sch)
            (record s { total_runs = wrap64 (s.total_runs +ℤ pos 1) }) h
            (Alike-HasJob id _ sch s.cron_jobs (count_run-Alike w.cron_ops now sch).0 (h id sch e)))
  ]

  step-IsWired :
      (k : ℕ) (c : Call) (s : Scheduler C Q) (js : List String)
      → BringsNone c
      → IsWired w laws s
      → IsWired w laws (step w k c (s, js)).0
  unfolding step
  step-IsWired k (adds now sch) s js e h = add_schedule-IsWired w laws now sch s e h
  step-IsWired k (removes id) s js e h = remove_schedule-IsWired w laws id s h
  step-IsWired k (enables now id) s js e h = enable_schedule-IsWired w laws now id s h
  step-IsWired k (disables now id) s js e h = disable_schedule-IsWired w laws now id s h
  step-IsWired k (checks now) s js e h = check_interval_schedules-IsWired now s h
  step-IsWired k reloads s js e h = reload_schedules-IsWired s h
  step-IsWired k (begins now task_id id) s js e h = elim (Bool-cases (ltb (occurs id js) k)) [
    | inl b ↦
        rw (b, step)
          (subst (IsWired w laws) (sym (begun_scheduler id js (begin_run w now task_id id s)))
            (begin_run-IsWired now task_id id s h))
    | inr b ↦ rw (b, step) h
  ]
  step-IsWired k (finishes now id) s js e h = elim (Bool-cases (ltb 0 (occurs id js))) [
    | inl b ↦ rw (b, step) (finish_run-IsWired now id s h)
    | inr b ↦ rw (b, step) h
  ]

  -- Over any cron library with the cron laws and through any sequence of calls in which no added
  -- schedule brings a job number along: if every schedule in the table stands under its identifier
  -- and every job number that a schedule keeps is that of a cron job for this very schedule, the
  -- same holds afterwards.
  pub run-IsWired :
      (k : ℕ) (cs : List Call) (s : Scheduler C Q × List String)
      → All BringsNone cs
      → IsWired w laws s.0
      → IsWired w laws (run w k cs s).0
  unfolding run
  run-IsWired k [] s brings h = h
  run-IsWired k (c ∷ cs) s (e, es) h =
      run-IsWired k cs (step w k c s) es (step-IsWired k c s.0 s.1 e h)
