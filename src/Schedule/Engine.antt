-- ===== src/Schedule/Engine.antt =====
-- crawler/task/scheduler.go: the methods of the scheduler.
-- A pointer to a schedule is its key in the map. A call that holds the lock is one step; a run is
-- two, since it drops the lock while it submits its task.
use go_backend_kit.Common.{
  String, true, ◌&&◌, Option, none, some, List, [], ◌∷◌, ◌++◌, pos, ◌+ℤ◌, ltb, wrap64, get, put,
  delete, string_key, Time, length, if◌then◌else◌,
}
use go_backend_kit.Task.{Task, text, moment, clone, set_metadata}
use go_backend_kit.Dispatch.{submit}
use go_backend_kit.Schedule.Types.{
  Schedule, Event, Scheduler, not_found, no_next_run, cron_refused, not_submitted, Answer, accepted,
  refused, nil_panic, CronOps, World,
}
use go_backend_kit.Schedule.Rules.{
  is_cron, validate_schedule, set_entry, switch_off, advance_all, due_ids, count_run, is_exhausted,
  remove_job, reload_jobs,
}

module _ {C Q : Type 0} where
  unfoldable pub store : String → Schedule → Scheduler C Q → Scheduler C Q
  store key sch s = record s { schedules = put key sch s.schedules }

  -- What `AddFunc` leads to. The schedule is stored under `key` unless cron refuses it; a nil map is
  -- met after the job has been added.
  unfoldable pub wire :
      CronOps C
      → String
      → Schedule
      → (Scheduler C Q × Answer)
      → Scheduler C Q
      → Scheduler C Q × Answer
  unfolding store set_entry
  wire ops key sch unwired s = elim (ops.add_func sch.expression sch.id s.cron_jobs) [
    | none ↦ unwired
    | some (n, c) ↦ elim (set_entry n sch) [
      | none ↦ (record unwired.0 { cron_jobs = c }, nil_panic)
      | some sch' ↦ (store key sch' (record s { cron_jobs = c }), accepted)
    ]
  ]

  unfoldable pub add_stamped : CronOps C → Schedule → Scheduler C Q → Scheduler C Q × Answer
  unfolding wire
  add_stamped ops sch s =
      if is_cron sch.kind && sch.enabled
      then wire ops sch.id sch (s, refused cron_refused) s
      else (store sch.id sch s, accepted)

  -- The next run of a cron schedule, from which the adding goes on.
  unfoldable pub add_valid : CronOps C → Time → Schedule → Scheduler C Q → Scheduler C Q × Answer
  unfolding add_stamped
  add_valid ops now sch s =
      if is_cron sch.kind
      then elim (ops.parse sch.expression) [
        | none ↦ (s, refused no_next_run)
        | some next ↦ add_stamped ops (record sch { next_run = some (next now) }) s
      ]
      else add_stamped ops sch s

  unfoldable pub add_schedule : World C Q → Time → Schedule → Scheduler C Q → Scheduler C Q × Answer
  unfolding validate_schedule add_valid
  add_schedule w now sch s = elim (validate_schedule w.cron_ops w.time_text sch) [
    | some e ↦ (s, refused e)
    | none ↦ add_valid w.cron_ops now (record sch { created_at = now; updated_at = now }) s
  ]

  unfoldable pub remove_schedule : World C Q → String → Scheduler C Q → Scheduler C Q × Answer
  unfolding remove_job
  remove_schedule w id s = elim (get id s.schedules) [
    | none ↦ (s, refused not_found)
    | some sch ↦ (
      record s {
        schedules = delete id s.schedules;
        cron_jobs = remove_job w.cron_ops sch s.cron_jobs;
      },
      accepted,
    )
  ]

  -- The schedule is enabled before cron is asked, and stays so if cron refuses.
  unfoldable pub enable_found :
      CronOps C → Time → String → Schedule → Scheduler C Q → Scheduler C Q × Answer
  unfolding store wire
  enable_found ops now id sch s =
      let on : Schedule = record sch { enabled = true; updated_at = now } in
      if is_cron sch.kind
      then wire ops id on (store id on s, refused cron_refused) s
      else (store id on s, accepted)

  unfoldable pub enable_schedule :
      World C Q → Time → String → Scheduler C Q → Scheduler C Q × Answer
  unfolding enable_found
  enable_schedule w now id s = elim (get id s.schedules) [
    | none ↦ (s, refused not_found)
    | some sch ↦ if sch.enabled then (s, accepted) else enable_found w.cron_ops now id sch s
  ]

  unfoldable pub disable_found :
      CronOps C → Time → String → Schedule → Scheduler C Q → Scheduler C Q
  unfolding remove_job switch_off store
  disable_found ops now id sch s =
      store id (switch_off now sch) (record s { cron_jobs = remove_job ops sch s.cron_jobs })

  unfoldable pub disable_schedule :
      World C Q → Time → String → Scheduler C Q → Scheduler C Q × Answer
  unfolding disable_found
  disable_schedule w now id s = elim (get id s.schedules) [
    | none ↦ (s, refused not_found)
    | some sch ↦
        if sch.enabled then (disable_found w.cron_ops now id sch s, accepted) else (s, accepted)
  ]

  -- A full channel drops the event.
  unfoldable pub trigger_event : Event → Scheduler C Q → Scheduler C Q
  trigger_event e s =
      if ltb (length s.event_chan) 100 then record s { event_chan = s.event_chan ++ e ∷ [] } else s

  unfoldable pub check_interval_schedules :
      World C Q → Time → Scheduler C Q → Scheduler C Q × List String
  unfolding advance_all due_ids
  check_interval_schedules w now s =
      (record s { schedules = advance_all w.time_text now s.schedules }, due_ids now s.schedules)

  unfoldable pub reload_schedules : World C Q → Scheduler C Q → Scheduler C Q
  unfolding reload_jobs
  reload_schedules w s = record s { cron_jobs = reload_jobs w.cron_ops s.schedules s.cron_jobs }

  -- The task that a schedule submits.
  unfoldable pub scheduled_task : World C Q → Time → String → String → Schedule → Task → Task
  unfolding clone set_metadata
  scheduled_task w now task_id id sch template = set_metadata "scheduled_at" (moment now) (
      set_metadata "schedule_name" (text sch.name)
        (set_metadata "schedule_id" (text id) (clone w.copied task_id template)))

  -- The first half of `executeSchedule`: it ends with an answer, or has submitted its task.
  unfoldable pub submit_run :
      World C Q → Time → String → String → Schedule → Scheduler C Q → Scheduler C Q × Option Answer
  unfolding scheduled_task submit
  submit_run w now task_id id sch s = elim sch.task_template [
    | none ↦ (s, some nil_panic)
    | some template ↦
        let (d, e) =
          submit w.queue_ops now (scheduled_task w now task_id id sch template) s.dispatcher in
        elim e [
          | none ↦ (record s { dispatcher = d }, none)
          | some err ↦ (
            record s { dispatcher = d; failed_runs = wrap64 (s.failed_runs +ℤ pos 1) },
            some (refused (not_submitted err)),
          )
        ]
  ]

  unfoldable pub begin_run :
      World C Q → Time → String → String → Scheduler C Q → Scheduler C Q × Option Answer
  unfolding submit_run disable_schedule is_exhausted
  begin_run w now task_id id s = elim (get id s.schedules) [
    | none ↦ (s, some (refused not_found))
    | some sch ↦
        if sch.enabled
        then (if is_exhausted sch
            then ((disable_schedule w now id s).0, some accepted)
            else submit_run w now task_id id sch s)
        else (s, some accepted)
  ]

  -- The second half, after the task has been submitted.
  unfoldable pub finish_run : World C Q → Time → String → Scheduler C Q → Scheduler C Q
  unfolding count_run store
  finish_run w now id s =
      let s' : Scheduler C Q = record s { total_runs = wrap64 (s.total_runs +ℤ pos 1) } in
      elim (get id s.schedules) [
        | none ↦ s'
        | some sch ↦ store id (count_run w.cron_ops now sch) s'
      ]

  unfoldable pub execute_schedule :
      World C Q → Time → String → String → Scheduler C Q → Scheduler C Q × Answer
  unfolding begin_run finish_run
  execute_schedule w now task_id id s =
      let (s', e) = begin_run w now task_id id s in
      elim e [ none ↦ (finish_run w now id s', accepted) | some a ↦ (s', a) ]
