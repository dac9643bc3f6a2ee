-- ===== src/Schedule/Rules.antt =====
-- crawler/task/scheduler.go: what the scheduler does with one schedule, and the builder.
use go_backend_kit.Common.{
  ℕ, String, Bool, true, false, ◌&&◌, not, Option, none, some, List, [], ◌∷◌, ℤ, pos, ◌+ℤ◌, ltb_ℤ,
  leb_ℤ, wrap64, Dict, put, delete, string_key, str_eq, Time, Duration, after, add_time,
  if◌then◌else◌, is_some,
}
use go_backend_kit.Task.{Task, entry}
use go_backend_kit.Schedule.Types.{
  ScheduleType, once, interval, cron, event, other_type, Schedule, Event, ScheduleError,
  id_required, name_required, template_required, bad_cron, bad_interval, bad_time, event_required,
  unknown_type, CronOps, TimeText, entry_of,
}

abbrev pub is_cron : ScheduleType → Bool
is_cron cron = true
is_cron _ = false

abbrev pub is_interval : ScheduleType → Bool
is_interval interval = true
is_interval _ = false

abbrev pub is_event : ScheduleType → Bool
is_event event = true
is_event _ = false

abbrev demand : Bool → ScheduleError → Option ScheduleError
demand true e = none
demand false e = some e

-- The `switch` of `validateSchedule`.
unfoldable pub validate_expression :
    {C : Type 0} → CronOps C → TimeText → ScheduleType → String → Option ScheduleError
validate_expression ops time_text cron x = demand (is_some (ops.parse x)) bad_cron
validate_expression ops time_text interval x =
    demand (is_some (time_text.parse_duration x)) bad_interval
validate_expression ops time_text once x = demand (is_some (time_text.parse_time x)) bad_time
validate_expression ops time_text event x = demand (not (str_eq x "")) event_required
validate_expression ops time_text (other_type kind) x = some unknown_type

unfoldable pub validate_schedule :
    {C : Type 0} → CronOps C → TimeText → Schedule → Option ScheduleError
unfolding validate_expression
validate_schedule ops time_text sch =
    if str_eq sch.id ""
    then some id_required
    else if str_eq sch.name ""
    then some name_required
    else if not (is_some sch.task_template)
    then some template_required
    else validate_expression ops time_text sch.kind sch.expression

-- `schedule.Metadata["cron_entry_id"] = entryID`; `none` is the panic at a nil map.
unfoldable pub set_entry : ℕ → Schedule → Option Schedule
set_entry n sch = elim sch.metadata [
  | none ↦ none
  | some m ↦ some (record sch { metadata = some (put "cron_entry_id" (entry n) m) })
]

unfoldable pub drop_entry : Schedule → Schedule
drop_entry sch = elim sch.metadata [
  | none ↦ sch
  | some m ↦ record sch { metadata = some (delete "cron_entry_id" m) }
]

-- The schedule that `DisableSchedule` leaves.
unfoldable pub switch_off : Time → Schedule → Schedule
unfolding entry_of drop_entry
switch_off now sch =
    let off : Schedule = record sch { enabled = false; updated_at = now } in
    elim (entry_of sch) [ none ↦ off | some _ ↦ drop_entry off ]

-- `matchesEventTrigger`
unfoldable pub matches_event_trigger : Schedule → Event → Bool
matches_event_trigger sch e =
    if str_eq sch.expression "" then false else str_eq sch.expression e.kind

unfoldable pub handle_event : Event → Dict String Schedule → List String
unfolding matches_event_trigger
handle_event e [] = []
handle_event e ((i, sch) ∷ m) =
    let rest = handle_event e m in
    if is_event sch.kind && (sch.enabled && matches_event_trigger sch e)
    then sch.id ∷ rest
    else rest

-- An interval schedule that is due at a time.
unfoldable pub is_due : Time → Schedule → Bool
is_due now sch =
    is_interval sch.kind
    && (sch.enabled && elim sch.next_run [ none ↦ false | some at ↦ after now at ])

unfoldable pub set_next_run : TimeText → Time → Schedule → Schedule
set_next_run time_text now sch = elim (time_text.parse_duration sch.expression) [
  | none ↦ sch
  | some d ↦ record sch { next_run = some (add_time now d) }
]

unfoldable pub advance : TimeText → Time → Schedule → Schedule
unfolding is_due set_next_run
advance time_text now sch = if is_due now sch then set_next_run time_text now sch else sch

unfoldable pub advance_all : TimeText → Time → Dict String Schedule → Dict String Schedule
unfolding advance
advance_all time_text now [] = []
advance_all time_text now ((i, sch) ∷ m) =
    (i, advance time_text now sch) ∷ advance_all time_text now m

-- The schedules that `checkIntervalSchedules` starts.
unfoldable pub due_ids : Time → Dict String Schedule → List String
unfolding is_due
due_ids now [] = []
due_ids now ((i, sch) ∷ m) =
    let rest = due_ids now m in if is_due now sch then sch.id ∷ rest else rest

-- `RunCount`, `LastRun`, `UpdatedAt`, and the next run of a cron schedule.
unfoldable pub count_run : {C : Type 0} → CronOps C → Time → Schedule → Schedule
count_run ops now sch =
    let counted : Schedule = record sch {
      last_run = some now;
      run_count = wrap64 (sch.run_count +ℤ pos 1);
      updated_at = now;
    } in
    if is_cron sch.kind
    then elim (ops.parse sch.expression) [
      | none ↦ counted
      | some next ↦ record counted { next_run = some (next now) }
    ]
    else counted

unfoldable pub is_exhausted : Schedule → Bool
is_exhausted sch = ltb_ℤ (pos 0) sch.max_runs && leb_ℤ sch.max_runs sch.run_count

unfoldable pub remove_job : {C : Type 0} → CronOps C → Schedule → C → C
unfolding entry_of
remove_job ops sch c = elim (entry_of sch) [ none ↦ c | some n ↦ ops.remove n c ]

-- The job that `reloadSchedules` adds for a schedule; the entry number is dropped.
unfoldable pub reload_job : {C : Type 0} → CronOps C → Schedule → C → C
reload_job ops sch c =
    if is_cron sch.kind && sch.enabled
    then elim (ops.add_func sch.expression sch.id c) [ none ↦ c | some (n, c') ↦ c' ]
    else c

unfoldable pub reload_jobs : {C : Type 0} → CronOps C → Dict String Schedule → C → C
unfolding reload_job
reload_jobs ops [] c = c
reload_jobs ops ((i, sch) ∷ m) c = reload_jobs ops m (reload_job ops sch c)

-- `ScheduleBuilder`
unfoldable pub new_schedule : String → Schedule
new_schedule name = record {
  id = name;
  name = name;
  kind = other_type "";
  expression = "";
  task_template = none;
  enabled = true;
  last_run = none;
  next_run = none;
  run_count = pos 0;
  max_runs = pos 0;
  metadata = some [];
  created_at = pos 0;
  updated_at = pos 0;
}

unfoldable pub with_cron : String → Schedule → Schedule
with_cron expression sch = record sch { kind = cron; expression = expression }

unfoldable pub with_interval : TimeText → Duration → Schedule → Schedule
with_interval time_text d sch = record sch {
  kind = interval;
  expression = time_text.print_duration d;
}

unfoldable pub with_once : TimeText → Time → Schedule → Schedule
with_once time_text at sch = record sch {
  kind = once;
  expression = time_text.print_time at;
  next_run = some at;
}

unfoldable pub with_event : String → Schedule → Schedule
with_event kind sch = record sch { kind = event; expression = kind }

unfoldable pub with_task : Task → Schedule → Schedule
with_task t sch = record sch { task_template = some t }

unfoldable pub with_max_runs : ℤ → Schedule → Schedule
with_max_runs n sch = record sch { max_runs = n }
