-- ===== src/Schedule/Wiring.antt =====
-- crawler/task/scheduler.go: adding, removing and switching schedules, and their cron jobs.
use go_backend_kit.Common.{
  ◌&&◌, String, true, Bool-cases, Option-cases, inl, inr, ◌≡◌, refl, ◌∙◌, none, some, Time, get,
  string_key,
}
use go_backend_kit.Schedule.Types.{
  Schedule, Scheduler, World, CronLaws, refused, cron_refused, entry_of,
}
use go_backend_kit.Schedule.Rules.{validate_schedule, is_cron}
use go_backend_kit.Schedule.Engine.{
  store, add_stamped, add_valid, add_schedule, remove_schedule, enable_found, enable_schedule,
  disable_found, disable_schedule,
}
use go_backend_kit.Schedule.Jobs.{
  switch_off_lem, HasJob, put-AllHaveJobs, delete-AllHaveJobs, remove_job-KeepsOthers, IsWired,
  wire-IsWired,
}

module _ {C Q : Type 0} (w : World C Q) (laws : CronLaws w.cron_ops) where
  pub store-IsWired :
      (key : String) (sch : Schedule) (s : Scheduler C Q)
      → IsWired w laws s
      → HasJob w laws key sch s.cron_jobs
      → IsWired w laws (store key sch s)
  unfolding store
  store-IsWired key sch s h new =
      put-AllHaveJobs w laws key sch s.schedules s.cron_jobs s.cron_jobs h (λ n id ne g. g) new

  add_stamped-IsWired :
      (sch : Schedule) (s : Scheduler C Q)
      → entry_of sch ≡ none
      → IsWired w laws s
      → IsWired w laws (add_stamped w.cron_ops sch s).0
  unfolding add_stamped
  add_stamped-IsWired sch s e h = elim (Bool-cases (is_cron sch.kind && sch.enabled)) [
    | inl b ↦
        rw (b, add_stamped)
          (wire-IsWired w laws sch.id sch (s, refused cron_refused) s refl h refl h)
    | inr b ↦ rw (b, add_stamped) (store-IsWired sch.id sch s h (refl, λ n f. cc))
  ]

  add_valid-IsWired :
      (now : Time) (sch : Schedule) (s : Scheduler C Q)
      → entry_of sch ≡ none
      → IsWired w laws s
      → IsWired w laws (add_valid w.cron_ops now sch s).0
  unfolding add_valid entry_of
  add_valid-IsWired now sch s e h = elim (Bool-cases (is_cron sch.kind)) [
    | inr b ↦ rw (b, add_valid) (store-IsWired sch.id sch s h (refl, λ n f. cc))
    | inl b ↦ elim (Option-cases (w.cron_ops.parse sch.expression)) [
      | inl f ↦ rw (b, f, add_valid) h
      | inr (next, f) ↦
          rw (b, f, add_valid)
            (add_stamped-IsWired (record sch { next_run = some (next now) }) s e h)
    ]
  ]

  pub add_schedule-IsWired :
      (now : Time) (sch : Schedule) (s : Scheduler C Q)
      → entry_of sch ≡ none
      → IsWired w laws s
      → IsWired w laws (add_schedule w now sch s).0
  unfolding add_schedule entry_of
  add_schedule-IsWired now sch s e h =
      elim (Option-cases (validate_schedule w.cron_ops w.time_text sch)) [
        | inr (err, f) ↦ rw (f, add_schedule) h
        | inl f ↦
            rw (f, add_schedule)
              (add_valid-IsWired now (record sch { created_at = now; updated_at = now }) s e h)
      ]

  pub remove_schedule-IsWired :
      (id : String) (s : Scheduler C Q)
      → IsWired w laws s
      → IsWired w laws (remove_schedule w id s).0
  unfolding remove_schedule
  remove_schedule-IsWired id s h = elim (Option-cases (get id s.schedules)) [
    | inl e ↦ rw (e, remove_schedule) h
    | inr (sch, e) ↦
        rw (e, remove_schedule)
          (delete-AllHaveJobs w laws id s.schedules s.cron_jobs _ h
            (remove_job-KeepsOthers w laws id sch s.cron_jobs (h id sch e)))
  ]

  enable_found-IsWired :
      (now : Time) (id : String) (sch : Schedule) (s : Scheduler C Q)
      → HasJob w laws id sch s.cron_jobs
      → IsWired w laws s
      → IsWired w laws (enable_found w.cron_ops now id sch s).0
  unfolding enable_found entry_of store
  enable_found-IsWired now id sch s has h =
      let on : Schedule = record sch { enabled = true; updated_at = now } in
      let stored : IsWired w laws (store id on s) = store-IsWired id on s h has in
      elim (Bool-cases (is_cron sch.kind)) [
        | inl b ↦
            rw (b, enable_found)
              (wire-IsWired w laws id on (store id on s, refused cron_refused) s has.0 h refl
                stored)
        | inr b ↦ rw (b, enable_found) stored
      ]

  pub enable_schedule-IsWired :
      (now : Time) (id : String) (s : Scheduler C Q)
      → IsWired w laws s
      → IsWired w laws (enable_schedule w now id s).0
  unfolding enable_schedule
  enable_schedule-IsWired now id s h = elim (Option-cases (get id s.schedules)) [
    | inl e ↦ rw (e, enable_schedule) h
    | inr (sch, e) ↦ elim (Bool-cases sch.enabled) [
      | inl b ↦ rw (e, b, enable_schedule) h
      | inr b ↦ rw (e, b, enable_schedule) (enable_found-IsWired now id sch s (h id sch e) h)
    ]
  ]

  disable_found-IsWired :
      (now : Time) (id : String) (sch : Schedule) (s : Scheduler C Q)
      → HasJob w laws id sch s.cron_jobs
      → IsWired w laws s
      → IsWired w laws (disable_found w.cron_ops now id sch s)
  unfolding disable_found store
  disable_found-IsWired now id sch s has h =
      put-AllHaveJobs w laws id _ s.schedules s.cron_jobs _ h
        (remove_job-KeepsOthers w laws id sch s.cron_jobs has)
        (let (same, empty) = switch_off_lem w laws now sch in (same ∙ has.0, λ n f. cc))

  pub disable_schedule-IsWired :
      (now : Time) (id : String) (s : Scheduler C Q)
      → IsWired w laws s
      → IsWired w laws (disable_schedule w now id s).0
  unfolding disable_schedule
  disable_schedule-IsWired now id s h = elim (Option-cases (get id s.schedules)) [
    | inl e ↦ rw (e, disable_schedule) h
    | inr (sch, e) ↦ elim (Bool-cases sch.enabled) [
      | inl b ↦ rw (e, b, disable_schedule) (disable_found-IsWired now id sch s (h id sch e) h)
      | inr b ↦ rw (e, b, disable_schedule) h
    ]
  ]
