-- ===== src/Schedule/Idle.antt =====
-- crawler/task/scheduler.go: interval schedules that have no next run never get one.
use mathlib.Core.Path.{subst}
use mathlib.Core.Option.{some-injective}
use go_backend_kit.Common.{
  ℕ, String, false, ◌≡◌, refl, sym, ◌∙◌, ap, none, some, Option-cases, Bool-cases, inl, inr, List,
  [], ◌∷◌, Time, Dict, get, put, delete, string_key, str_eq, arith, All, ltb,
}
use go_backend_kit.Schedule.Types.{interval, Schedule, Scheduler, World, CronOps, TimeText}
use go_backend_kit.Schedule.Rules.{is_cron, is_due, advance, advance_all, due_ids, count_run}
use go_backend_kit.Schedule.Engine.{
  store, add_schedule, remove_schedule, check_interval_schedules, reload_schedules, begin_run,
  finish_run,
}
use go_backend_kit.Schedule.Calls.{
  Call, adds, removes, enables, disables, checks, reloads, begins, finishes, occurs,
  begun_scheduler, step, run,
}
use go_backend_kit.Schedule.Edits.{
  Follows, IsUpdate, add_schedule-IsEdit, enable_schedule-IsUpdate, disable_schedule-IsUpdate,
  begin_run-IsUpdate,
}

-- An interval schedule without a next run; any schedule of another type.
abbrev pub IsIdle : Schedule → Type 0
IsIdle sch = sch.kind ≡ interval → sch.next_run ≡ none

abbrev pub AllIdle : Dict String Schedule → Type 0
AllIdle t = All (λ p. IsIdle p.1) t

put-AllIdle :
    (key : String) (sch : Schedule) (t : Dict String Schedule)
    → IsIdle sch
    → AllIdle t
    → AllIdle (put key sch t)
unfolding put
put-AllIdle key sch [] new h = (new, tt)
put-AllIdle key sch ((i, y) ∷ t) new (h, hs) = elim (Bool-cases (str_eq i key)) [
  | inl b ↦ rw b (new, hs)
  | inr b ↦ rw b (h, put-AllIdle key sch t new hs)
]

delete-AllIdle : (key : String) (t : Dict String Schedule) → AllIdle t → AllIdle (delete key t)
unfolding delete
delete-AllIdle key [] h = tt
delete-AllIdle key ((i, y) ∷ t) (h, hs) = elim (Bool-cases (str_eq i key)) [
  | inl b ↦ rw b (delete-AllIdle key t hs)
  | inr b ↦ rw b (h, delete-AllIdle key t hs)
]

get-IsIdle :
    (key : String) (t : Dict String Schedule) (sch : Schedule)
    → AllIdle t
    → get key t ≡ some sch
    → IsIdle sch
unfolding get
get-IsIdle key [] sch h e = cc
get-IsIdle key ((i, y) ∷ t) sch (h, hs) e = elim (Bool-cases (str_eq i key)) [
  | inl b ↦ subst IsIdle (some-injective _ _ (rw b at e)) h
  | inr b ↦ get-IsIdle key t sch hs (rw b at e)
]

Follows-IsIdle : (a b : Schedule) → Follows a b → IsIdle b → IsIdle a
Follows-IsIdle a b f h kind =
    let same : b.kind ≡ interval = sym f.same_kind ∙ kind in
    f.same_next_run (ap is_cron same) ∙ h same

update-AllIdle :
    (key : String) (t t' : Dict String Schedule) → IsUpdate key t t' → AllIdle t → AllIdle t'
update-AllIdle key t t' (inl same) h = rw same h
update-AllIdle key t t' (inr (sch, sch', e, f, written)) h =
    rw written (put-AllIdle key sch' t (Follows-IsIdle sch' sch f (get-IsIdle key t sch h e)) h)

is_due-IsIdle : (now : Time) (sch : Schedule) → IsIdle sch → is_due now sch ≡ false
unfolding is_due
is_due-IsIdle now sch h = ground (arith, h)

advance-IsIdle :
    (text : TimeText) (now : Time) (sch : Schedule) → IsIdle sch → advance text now sch ≡ sch
unfolding advance
advance-IsIdle text now sch h = rw (is_due-IsIdle now sch h) refl

advance_all-AllIdle :
    (text : TimeText) (now : Time) (t : Dict String Schedule)
    → AllIdle t
    → AllIdle (advance_all text now t)
unfolding advance_all
advance_all-AllIdle text now [] h = tt
advance_all-AllIdle text now ((i, sch) ∷ t) (h, hs) =
    (subst IsIdle (sym (advance-IsIdle text now sch h)) h, advance_all-AllIdle text now t hs)

due_ids-AllIdle : (now : Time) (t : Dict String Schedule) → AllIdle t → due_ids now t ≡ []
unfolding due_ids
due_ids-AllIdle now [] h = refl
due_ids-AllIdle now ((i, sch) ∷ t) (h, hs) = rw (is_due-IsIdle now sch h) (due_ids-AllIdle now t hs)

count_run-IsIdle :
    {C : Type 0} (ops : CronOps C) (now : Time) (sch : Schedule)
    → IsIdle sch
    → IsIdle (count_run ops now sch)
unfolding count_run
count_run-IsIdle ops now sch h kind = ground (arith, h)

-- Every interval schedule that is added comes without a next run, as the builder leaves it.
abbrev pub AddsIdle : Call → Type 0
AddsIdle (adds now sch) = IsIdle sch
AddsIdle _ = Unit {0}

module _ {C Q : Type 0} (w : World C Q) where
  finish_run-AllIdle :
      (now : Time) (id : String) (s : Scheduler C Q)
      → AllIdle s.schedules
      → AllIdle (finish_run w now id s).schedules
  unfolding finish_run store
  finish_run-AllIdle now id s h = elim (Option-cases (get id s.schedules)) [
    | inl e ↦ rw (e, finish_run) h
    | inr (sch, e) ↦
        rw (e, finish_run)
          (put-AllIdle id (count_run w.cron_ops now sch) s.schedules
            (count_run-IsIdle w.cron_ops now sch (get-IsIdle id s.schedules sch h e)) h)
  ]

  remove_schedule-AllIdle :
      (id : String) (s : Scheduler C Q)
      → AllIdle s.schedules
      → AllIdle (remove_schedule w id s).0.schedules
  unfolding remove_schedule
  remove_schedule-AllIdle id s h = elim (Option-cases (get id s.schedules)) [
    | inl e ↦ rw (e, remove_schedule) h
    | inr (sch, e) ↦ rw (e, remove_schedule) (delete-AllIdle id s.schedules h)
  ]

  add_schedule-AllIdle :
      (now : Time) (sch : Schedule) (s : Scheduler C Q)
      → IsIdle sch
      → AllIdle s.schedules
      → AllIdle (add_schedule w now sch s).0.schedules
  add_schedule-AllIdle now sch s new h = elim (add_schedule-IsEdit w now sch s) [
    | inl same ↦ rw same h
    | inr (sch', f, written) ↦
        rw written (put-AllIdle sch.id sch' s.schedules (Follows-IsIdle sch' sch f new) h)
  ]

  step-AllIdle :
      (k : ℕ) (c : Call) (s : Scheduler C Q) (js : List String)
      → AddsIdle c
      → AllIdle s.schedules
      → AllIdle (step w k c (s, js)).0.schedules
  unfolding step reload_schedules check_interval_schedules
  step-AllIdle k (adds now sch) s js e h = add_schedule-AllIdle now sch s e h
  step-AllIdle k (removes id) s js e h = remove_schedule-AllIdle id s h
  step-AllIdle k (enables now id) s js e h =
      update-AllIdle id s.schedules _ (enable_schedule-IsUpdate w now id s) h
  step-AllIdle k (disables now id) s js e h =
      update-AllIdle id s.schedules _ (disable_schedule-IsUpdate w now id s) h
  step-AllIdle k (checks now) s js e h = advance_all-AllIdle w.time_text now s.schedules h
  step-AllIdle k reloads s js e h = h
  step-AllIdle k (begins now task_id id) s js e h = elim (Bool-cases (ltb (occurs id js) k)) [
    | inl b ↦
        rw (b, step)
          (subst (λ t. AllIdle t.schedules)
            (sym (begun_scheduler id js (begin_run w now task_id id s)))
            (update-AllIdle id s.schedules _ (begin_run-IsUpdate w now task_id id s) h))
    | inr b ↦ rw (b, step) h
  ]
  step-AllIdle k (finishes now id) s js e h = elim (Bool-cases (ltb 0 (occurs id js))) [
    | inl b ↦ rw (b, step) (finish_run-AllIdle now id s h)
    | inr b ↦ rw (b, step) h
  ]

  run-AllIdle :
      (k : ℕ) (cs : List Call) (s : Scheduler C Q × List String)
      → All AddsIdle cs
      → AllIdle s.0.schedules
      → AllIdle (run w k cs s).0.schedules
  unfolding run
  run-AllIdle k [] s added h = h
  run-AllIdle k (c ∷ cs) s (e, es) h =
      run-AllIdle k cs (step w k c s) es (step-AllIdle k c s.0 s.1 e h)

  -- If no interval schedule in the table has a next run, and every interval schedule that is added
  -- comes without one, then after any sequence of calls the check for due interval schedules starts
  -- none.
  pub intervals_never_run :
      (k : ℕ) (cs : List Call) (s : Scheduler C Q × List String) (now : Time)
      → All AddsIdle cs
      → AllIdle s.0.schedules
      → (check_interval_schedules w now (run w k cs s).0).1 ≡ []
  unfolding check_interval_schedules
  intervals_never_run k cs s now added h =
      due_ids-AllIdle now (run w k cs s).0.schedules (run-AllIdle k cs s added h)
