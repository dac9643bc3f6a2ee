-- ===== src/Schedule/Edits.antt =====
-- crawler/task/scheduler.go: what each call can do to the table of schedules.
use mathlib.Core.Path.{subst}
use go_backend_kit.Common.{
  ℕ, ◌&&◌, String, true, false, ◌≡◌, refl, sym, ◌∙◌, ap, some, Option-cases, Bool-cases, ◌⊎◌, inl,
  inr, Time, Dict, get, put, string_key, arith,
}
use go_backend_kit.Schedule.Types.{Schedule, Scheduler, World, Answer, refused, cron_refused}
use go_backend_kit.Schedule.Rules.{is_cron, set_entry, drop_entry, switch_off, validate_schedule}
use go_backend_kit.Schedule.Engine.{
  store, wire, add_stamped, add_valid, add_schedule, enable_found, enable_schedule, disable_found,
  disable_schedule, begin_run,
}
use go_backend_kit.Schedule.Begin.{begin_run_cases}

-- The first schedule has the type and the counts of the second, and its next run unless cron
-- computes it.
pub record Follows (a b : Schedule) : Type 0 where
  pub same_kind : a.kind ≡ b.kind
  pub same_max_runs : a.max_runs ≡ b.max_runs
  pub same_run_count : a.run_count ≡ b.run_count
  pub same_next_run : is_cron b.kind ≡ false → a.next_run ≡ b.next_run

Follows-refl : (a : Schedule) → Follows a a
Follows-refl a = record {
  same_kind = refl;
  same_max_runs = refl;
  same_run_count = refl;
  same_next_run = λ _. refl;
}

-- A table is as it was, or has one schedule written that follows a given one.
abbrev pub IsEdit : String → Schedule → Dict String Schedule → Dict String Schedule → Type 0
IsEdit key sch m m' = (m' ≡ m) ⊎ ((sch' : Schedule) × Follows sch' sch × (m' ≡ put key sch' m))

-- The same for a schedule that is in the table.
abbrev pub IsUpdate : String → Dict String Schedule → Dict String Schedule → Type 0
IsUpdate key m m' =
    (m' ≡ m)
    ⊎ ((sch : Schedule) × (sch' : Schedule) × (get key m ≡ some sch)
        × Follows sch' sch
        × (m' ≡ put key sch' m))

IsUpdate-of_edit :
    (key : String) (sch : Schedule) (m m' : Dict String Schedule)
    → get key m ≡ some sch
    → IsEdit key sch m m'
    → IsUpdate key m m'
IsUpdate-of_edit key sch m m' e (inl same) = inl same
IsUpdate-of_edit key sch m m' e (inr (sch', f, put)) = inr (sch, sch', e, f, put)

widen :
    (key : String) (a b : Schedule) (m m' : Dict String Schedule)
    → Follows a b
    → IsEdit key a m m'
    → IsEdit key b m m'
widen key a b m m' f (inl same) = inl same
widen key a b m m' f (inr (x, g, put)) = inr (
  x,
  record {
    same_kind = g.same_kind ∙ f.same_kind;
    same_max_runs = g.same_max_runs ∙ f.same_max_runs;
    same_run_count = g.same_run_count ∙ f.same_run_count;
    same_next_run = λ h. g.same_next_run (ap is_cron f.same_kind ∙ h) ∙ f.same_next_run h;
  },
  put,
)

set_entry-Follows : (n : ℕ) (sch sch' : Schedule) → set_entry n sch ≡ some sch' → Follows sch' sch
unfolding set_entry
set_entry-Follows n sch sch' e = ground arith

switch_off-Follows : (now : Time) (sch : Schedule) → Follows (switch_off now sch) sch
unfolding switch_off drop_entry
switch_off-Follows now sch = ground arith

module _ {C Q : Type 0} (w : World C Q) where
  wire-IsEdit :
      (key : String) (sch : Schedule) (unwired : Scheduler C Q × Answer) (s : Scheduler C Q)
      → IsEdit key sch s.schedules unwired.0.schedules
      → IsEdit key sch s.schedules (wire w.cron_ops key sch unwired s).0.schedules
  unfolding wire store
  wire-IsEdit key sch unwired s u =
      elim (Option-cases (w.cron_ops.add_func sch.expression sch.id s.cron_jobs)) [
        | inl e ↦ rw (e, wire) u
        | inr ((n, c), e) ↦ elim (Option-cases (set_entry n sch)) [
          | inl f ↦ rw (e, f, wire) u
          | inr (sch', f) ↦ rw (e, f, wire) (inr (sch', set_entry-Follows n sch sch' f, refl))
        ]
      ]

  add_stamped-IsEdit :
      (sch : Schedule) (s : Scheduler C Q)
      → IsEdit sch.id sch s.schedules (add_stamped w.cron_ops sch s).0.schedules
  unfolding add_stamped store
  add_stamped-IsEdit sch s = elim (Bool-cases (is_cron sch.kind && sch.enabled)) [
    | inl b ↦ rw (b, add_stamped) (wire-IsEdit sch.id sch (s, refused cron_refused) s (inl refl))
    | inr b ↦ rw (b, add_stamped) (inr (sch, Follows-refl sch, refl))
  ]

  add_valid-IsEdit :
      (now : Time) (sch : Schedule) (s : Scheduler C Q)
      → IsEdit sch.id sch s.schedules (add_valid w.cron_ops now sch s).0.schedules
  unfolding add_valid store
  add_valid-IsEdit now sch s = elim (Bool-cases (is_cron sch.kind)) [
    | inr b ↦ rw (b, add_valid) (inr (sch, Follows-refl sch, refl))
    | inl b ↦ elim (Option-cases (w.cron_ops.parse sch.expression)) [
      | inl f ↦ rw (b, f, add_valid) (inl refl)
      | inr (next, f) ↦
          rw (b, f, add_valid)
            (let planned : Schedule = record sch { next_run = some (next now) } in
              widen sch.id planned sch s.schedules _
                (record {
                  same_kind = refl;
                  same_max_runs = refl;
                  same_run_count = refl;
                  same_next_run = λ h. cc;
                })
                (add_stamped-IsEdit planned s))
    ]
  ]

  pub add_schedule-IsEdit :
      (now : Time) (sch : Schedule) (s : Scheduler C Q)
      → IsEdit sch.id sch s.schedules (add_schedule w now sch s).0.schedules
  unfolding add_schedule
  add_schedule-IsEdit now sch s =
      elim (Option-cases (validate_schedule w.cron_ops w.time_text sch)) [
        | inr (err, f) ↦ rw (f, add_schedule) (inl refl)
        | inl f ↦
            rw (f, add_schedule)
              (let stamped : Schedule = record sch { created_at = now; updated_at = now } in
                widen sch.id stamped sch s.schedules _
                  (record {
                    same_kind = refl;
                    same_max_runs = refl;
                    same_run_count = refl;
                    same_next_run = λ h. refl;
                  })
                  (add_valid-IsEdit now stamped s))
      ]

  enable_found-IsEdit :
      (now : Time) (id : String) (sch : Schedule) (s : Scheduler C Q)
      → IsEdit id sch s.schedules (enable_found w.cron_ops now id sch s).0.schedules
  unfolding enable_found store
  enable_found-IsEdit now id sch s =
      let on : Schedule = record sch { enabled = true; updated_at = now } in
      let turned_on : Follows on sch = record {
        same_kind = refl;
        same_max_runs = refl;
        same_run_count = refl;
        same_next_run = λ h. refl;
      } in
      elim (Bool-cases (is_cron sch.kind)) [
        | inl b ↦
            rw (b, enable_found)
              (widen id on sch s.schedules _ turned_on (
                wire-IsEdit id on (store id on s, refused cron_refused) s
                  (inr (on, Follows-refl on, refl))))
        | inr b ↦ rw (b, enable_found) (inr (on, turned_on, refl))
      ]

  pub enable_schedule-IsUpdate :
      (now : Time) (id : String) (s : Scheduler C Q)
      → IsUpdate id s.schedules (enable_schedule w now id s).0.schedules
  unfolding enable_schedule
  enable_schedule-IsUpdate now id s = elim (Option-cases (get id s.schedules)) [
    | inl e ↦ rw (e, enable_schedule) (inl refl)
    | inr (sch, e) ↦ elim (Bool-cases sch.enabled) [
      | inl b ↦ inl (rw (e, b, enable_schedule) refl)
      | inr b ↦ IsUpdate-of_edit id sch s.schedules _ e (
          subst (IsEdit id sch s.schedules) (sym (rw (e, b, enable_schedule) refl))
            (enable_found-IsEdit now id sch s))
    ]
  ]

  pub disable_schedule-IsUpdate :
      (now : Time) (id : String) (s : Scheduler C Q)
      → IsUpdate id s.schedules (disable_schedule w now id s).0.schedules
  unfolding disable_schedule disable_found store
  disable_schedule-IsUpdate now id s = elim (Option-cases (get id s.schedules)) [
    | inl e ↦ rw (e, disable_schedule) (inl refl)
    | inr (sch, e) ↦ elim (Bool-cases sch.enabled) [
      | inl b ↦
          inr (
            sch,
            switch_off now sch,
            e,
            switch_off-Follows now sch,
            rw (e, b, disable_schedule) refl,
          )
      | inr b ↦ inl (rw (e, b, disable_schedule) refl)
    ]
  ]

  pub begin_run-IsUpdate :
      (now : Time) (task_id id : String) (s : Scheduler C Q)
      → IsUpdate id s.schedules (begin_run w now task_id id s).0.schedules
  begin_run-IsUpdate now task_id id s = elim (begin_run_cases w now task_id id s) [
    | inl (a, e) ↦ inl (rw e refl)
    | inr (inl e) ↦ rw e (disable_schedule-IsUpdate now id s)
    | inr (inr (sch, _, _, schedules, jobs)) ↦ inl schedules
  ]
