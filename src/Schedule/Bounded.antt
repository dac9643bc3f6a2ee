-- ===== src/Schedule/Bounded.antt =====
-- crawler/task/scheduler.go: how far `MaxRuns` bounds the runs of a schedule, with several in progress.
use go_backend_kit.Common.{
  ℕ, String, ◌≢◌, Bool-cases, inl, inr, List, [], ◌∷◌, ℤ, pos, ◌+ℤ◌, ◌<ℤ◌, ◌≤ℤ◌, max_int64, ltb,
  string_key, All,
}
use go_backend_kit.Schedule.Types.{Scheduler, World}
use go_backend_kit.Schedule.Engine.{reload_schedules}
use go_backend_kit.Schedule.Calls.{
  Call, adds, removes, enables, disables, checks, reloads, begins, finishes, occurs, step, run,
}
use go_backend_kit.Schedule.Edits.{enable_schedule-IsUpdate, disable_schedule-IsUpdate}
use go_backend_kit.Schedule.Room.{IsWithin, update-IsWithin}
use go_backend_kit.Schedule.Slots.{
  add_schedule-IsWithin, remove_schedule-IsWithin, check_interval_schedules-IsWithin,
  begins-IsWithin, finish_run-IsWithin,
}

abbrev pub Spares : String → Call → Type 0
Spares x (adds now sch) = x ≢ sch.id
Spares x (removes id) = x ≢ id
Spares x _ = Unit {0}

module _ {C Q : Type 0} (w : World C Q) (x : String) (m : ℤ) (k : ℕ) where
  -- The bound holds for a state: a scheduler, and the runs in progress.
  abbrev pub IsLimited : Scheduler C Q × List String → Type 0
  IsLimited s = IsWithin x m k s.0.schedules (occurs x s.1)

  step-IsLimited :
      (c : Call) (s : Scheduler C Q) (js : List String)
      → pos 0 <ℤ m
      → (m +ℤ pos k) ≤ℤ max_int64
      → Spares x c
      → IsLimited (s, js)
      → IsLimited (step w k c (s, js))
  unfolding step reload_schedules
  step-IsLimited (adds now sch) s js positive small e h =
      add_schedule-IsWithin w x m k now sch s (occurs x js) e h
  step-IsLimited (removes id) s js positive small e h =
      remove_schedule-IsWithin w x m k id s (occurs x js) e h
  step-IsLimited (enables now id) s js positive small e h =
      update-IsWithin x m k id s.schedules _ (occurs x js) (enable_schedule-IsUpdate w now id s) h
  step-IsLimited (disables now id) s js positive small e h =
      update-IsWithin x m k id s.schedules _ (occurs x js) (disable_schedule-IsUpdate w now id s) h
  step-IsLimited (checks now) s js positive small e h =
      check_interval_schedules-IsWithin w x m k now s (occurs x js) h
  step-IsLimited reloads s js positive small e h = h
  step-IsLimited (begins now task_id id) s js positive small e h =
      elim (Bool-cases (ltb (occurs id js) k)) [
        | inl b ↦ rw (b, step) (begins-IsWithin w x m k now task_id id s js positive b h)
        | inr b ↦ rw (b, step) h
      ]
  step-IsLimited (finishes now id) s js positive small e h =
      elim (Bool-cases (ltb 0 (occurs id js))) [
        | inl b ↦ rw (b, step) (finish_run-IsWithin w x m k now id s js small b h)
        | inr b ↦ rw (b, step) h
      ]

  -- Through any sequence of calls that does not add or remove a schedule, with at most k of its runs
  -- in progress at a time, its run count plus its runs in progress stays below MaxRuns + k, if it
  -- was below, MaxRuns is positive and MaxRuns + k fits into 64 bits.
  pub run-IsLimited :
      (cs : List Call) (s : Scheduler C Q × List String)
      → pos 0 <ℤ m
      → (m +ℤ pos k) ≤ℤ max_int64
      → All (Spares x) cs
      → IsLimited s
      → IsLimited (run w k cs s)
  unfolding run
  run-IsLimited [] s positive small spared h = h
  run-IsLimited (c ∷ cs) s positive small (e, es) h =
      run-IsLimited cs (step w k c s) positive small es
        (step-IsLimited c s.0 s.1 positive small e h)
