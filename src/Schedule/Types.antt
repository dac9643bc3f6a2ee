-- ===== src/Schedule/Types.antt =====
-- crawler/task/scheduler.go: schedules, the scheduler, and what it takes from outside.
use go_backend_kit.Common.{
  ℕ, String, Bool, ◌≡◌, Option, none, some, List, ℤ, Dict, Time, Duration, ◌==◌, if◌then◌else◌, get,
  string_key,
}
use go_backend_kit.Task.{Task, Value, entry}
use go_backend_kit.Queue.Interface.{QueueOps}
use go_backend_kit.Dispatch.{Dispatcher, SubmitError}

-- The named types, and any other text.
pub data ScheduleType : Type 0 where
  once interval cron event : ScheduleType
  other_type : String → ScheduleType

-- `metadata` is `none` where the map is nil: a write to it panics.
pub record Schedule : Type 0 where
  pub id : String
  pub name : String
  pub kind : ScheduleType
  pub expression : String
  pub task_template : Option Task
  pub enabled : Bool
  pub last_run : Option Time
  pub next_run : Option Time
  pub run_count : ℤ
  pub max_runs : ℤ
  pub metadata : Option (Dict String Value)
  pub created_at : Time
  pub updated_at : Time

pub record Event : Type 0 where
  pub kind : String
  pub source : String
  pub values : Dict String Value
  pub timestamp : Time

pub record Scheduler (C Q : Type 0) : Type 0 where
  pub schedules : Dict String Schedule
  pub cron_jobs : C
  pub dispatcher : Dispatcher Q
  pub event_chan : List Event
  pub total_runs : ℤ
  pub failed_runs : ℤ

pub data ScheduleError : Type 0 where
  id_required name_required template_required bad_cron bad_interval bad_time event_required
        unknown_type not_found no_next_run cron_refused :
      ScheduleError
  not_submitted : SubmitError → ScheduleError

-- A call succeeds, returns an error, or panics at a nil pointer or a nil map.
pub data Answer : Type 0 where
  accepted nil_panic : Answer
  refused : ScheduleError → Answer

-- github.com/robfig/cron: `ParseStandard` with `Next`, `AddFunc` of a job that executes a schedule,
-- and `Remove`.
pub record CronOps (C : Type 0) : Type 0 where
  pub parse : String → Option (Time → Time)
  pub add_func : String → String → C → Option (ℕ × C)
  pub remove : ℕ → C → C

-- What its documentation says: a new entry has a fresh number and is the only change, and removing
-- an entry changes no other.
pub record CronLaws {C : Type 0} (ops : CronOps C) : Type 0 where
  pub job : ℕ → C → Option String
  pub add_func_fresh :
      (expression id : String) (c : C) (n : ℕ) (c' : C)
      → ops.add_func expression id c ≡ some (n, c')
      → (job n c ≡ none) × ((m : ℕ) → job m c' ≡ (if m == n then some id else job m c))
  pub remove_only : (n m : ℕ) (c : C) → job m (ops.remove n c) ≡ (if m == n then none else job m c)

-- `time.ParseDuration` and `time.Parse`, with the functions that print.
pub record TimeText : Type 0 where
  pub parse_duration : String → Option Duration
  pub parse_time : String → Option Time
  pub print_duration : Duration → String
  pub print_time : Time → String

-- All that a scheduler is built on; `copied` is the copy of a task through JSON.
pub record World (C Q : Type 0) : Type 0 where
  pub cron_ops : CronOps C
  pub queue_ops : QueueOps Q
  pub time_text : TimeText
  pub copied : Task → Task

-- `schedule.Metadata["cron_entry_id"].(cron.EntryID)`
abbrev entry_value : Option Value → Option ℕ
entry_value (some (entry n)) = some n
entry_value _ = none

abbrev pub entry_in : Option (Dict String Value) → Option ℕ
entry_in none = none
entry_in (some m) = entry_value (get "cron_entry_id" m)

unfoldable pub entry_of : Schedule → Option ℕ
entry_of sch = entry_in sch.metadata
