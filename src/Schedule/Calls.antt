-- ===== src/Schedule/Calls.antt =====
-- crawler/task/scheduler.go: histories of calls on a scheduler, its runs in two steps each.
use go_backend_kit.Common.{
  ℕ, suc, String, ◌≡◌, refl, Option, none, some, List, [], ◌∷◌, Time, ltb, str_eq, if◌then◌else◌,
}
use go_backend_kit.Schedule.Types.{Schedule, Scheduler, World, Answer}
use go_backend_kit.Schedule.Engine.{
  add_schedule, remove_schedule, enable_schedule, disable_schedule, check_interval_schedules,
  reload_schedules, begin_run, finish_run,
}

-- A run begins with a fresh task identifier and the schedule's key, and finishes later.
pub data Call : Type 0 where
  adds : Time → Schedule → Call
  removes : String → Call
  enables disables : Time → String → Call
  checks : Time → Call
  reloads : Call
  begins : Time → String → String → Call
  finishes : Time → String → Call

-- How often a key is in the list of the runs in progress.
unfoldable pub occurs : String → List String → ℕ
occurs id [] = 0
occurs id (j ∷ js) = if str_eq j id then suc (occurs id js) else occurs id js

unfoldable pub remove_one : String → List String → List String
remove_one id [] = []
remove_one id (j ∷ js) = if str_eq j id then js else j ∷ remove_one id js

module _ {C Q : Type 0} where
  -- A run that has submitted its task is in progress.
  unfoldable pub begun :
      String → List String → Scheduler C Q × Option Answer → Scheduler C Q × List String
  begun id js (s, none) = (s, id ∷ js)
  begun id js (s, some a) = (s, js)

  pub begun_scheduler :
      (id : String) (js : List String) (r : Scheduler C Q × Option Answer) → (begun id js r).0 ≡ r.0
  unfolding begun
  begun_scheduler id js (s, none) = refl
  begun_scheduler id js (s, some a) = refl

  -- At most `k` runs of one schedule are in progress at a time; a call that would begin one more
  -- waits, and a call that finishes a run which is not in progress is none.
  unfoldable pub step :
      World C Q → ℕ → Call → Scheduler C Q × List String → Scheduler C Q × List String
  unfolding add_schedule remove_schedule enable_schedule disable_schedule check_interval_schedules
      reload_schedules begin_run finish_run begun occurs remove_one
  step w k (adds now sch) (s, js) = ((add_schedule w now sch s).0, js)
  step w k (removes id) (s, js) = ((remove_schedule w id s).0, js)
  step w k (enables now id) (s, js) = ((enable_schedule w now id s).0, js)
  step w k (disables now id) (s, js) = ((disable_schedule w now id s).0, js)
  step w k (checks now) (s, js) = ((check_interval_schedules w now s).0, js)
  step w k reloads (s, js) = (reload_schedules w s, js)
  step w k (begins now task_id id) (s, js) =
      if ltb (occurs id js) k then begun id js (begin_run w now task_id id s) else (s, js)
  step w k (finishes now id) (s, js) =
      if ltb 0 (occurs id js) then (finish_run w now id s, remove_one id js) else (s, js)

  unfoldable pub run :
      World C Q → ℕ → List Call → Scheduler C Q × List String → Scheduler C Q × List String
  unfolding step
  run w k [] s = s
  run w k (c ∷ cs) s = run w k cs (step w k c s)
