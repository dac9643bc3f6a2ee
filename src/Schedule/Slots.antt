-- ===== src/Schedule/Slots.antt =====
-- crawler/task/scheduler.go: what single calls do to the runs that a schedule has left.
use mathlib.Core.Option.{some-injective}
use mathlib.Core.Path.{subst}
use go_backend_kit.Common.{
  ℕ, suc, String, true, false, ◌≡◌, ◌≢◌, sym, ◌∙◌, ap, Option, none, some, Option-cases, Bool-cases,
  inl, inr, List, [], ◌∷◌, ℤ, pos, pos_part, neg_part, ◌+ℤ◌, ◌<ℤ◌, ◌≤ℤ◌, +ℤ_parts, InInt64, wrap64,
  wrap64_inc, wrap64-InInt64, ◌<◌, max_int64, ltb, Time, Dict, get, get-delete, string_key, str_eq,
  eq_iff, arith,
}
use go_backend_kit.Schedule.Types.{Schedule, Scheduler, World, Answer}
use go_backend_kit.Schedule.Rules.{count_run, is_exhausted}
use go_backend_kit.Schedule.Engine.{
  store, add_schedule, remove_schedule, check_interval_schedules, begin_run, finish_run,
}
use go_backend_kit.Schedule.Calls.{occurs, remove_one, begun}
use go_backend_kit.Schedule.Fields.{advance-Alike, count_run-Alike, get-advance_all}
use go_backend_kit.Schedule.Begin.{begin_run_cases}
use go_backend_kit.Schedule.Edits.{add_schedule-IsEdit, disable_schedule-IsUpdate}
use go_backend_kit.Schedule.Room.{HasRoom, IsWithin, put-IsWithin, update-IsWithin}

max_int64-InInt64 : InInt64 max_int64
max_int64-InInt64 = record { above = omega arith; below = omega arith }

occurs-remove_one :
    (x id : String) (js : List String)
    → (x ≢ id → occurs x (remove_one id js) ≡ occurs x js)
      × (ltb 0 (occurs id js) ≡ true → suc (occurs id (remove_one id js)) ≡ occurs id js)
unfolding occurs remove_one
occurs-remove_one x id [] = ground arith
occurs-remove_one x id (j ∷ js) = ground (arith, occurs-remove_one x id js, eq_iff j id, eq_iff j x)

module _ {C Q : Type 0} (w : World C Q) (x : String) (m : ℤ) (k : ℕ) where
  pub add_schedule-IsWithin :
      (now : Time) (sch : Schedule) (s : Scheduler C Q) (f : ℕ)
      → x ≢ sch.id
      → IsWithin x m k s.schedules f
      → IsWithin x m k (add_schedule w now sch s).0.schedules f
  add_schedule-IsWithin now sch s f ne h = elim (add_schedule-IsEdit w now sch s) [
    | inl same ↦ rw same h
    | inr (sch', _, written) ↦
        rw written
          (put-IsWithin x m k sch.id sch' s.schedules f (λ y _ g. h y g) (λ same. absurd (ne same)))
  ]

  pub remove_schedule-IsWithin :
      (id : String) (s : Scheduler C Q) (f : ℕ)
      → x ≢ id
      → IsWithin x m k s.schedules f
      → IsWithin x m k (remove_schedule w id s).0.schedules f
  unfolding remove_schedule
  remove_schedule-IsWithin id s f ne h = elim (Option-cases (get id s.schedules)) [
    | inl e ↦ rw (e, remove_schedule) h
    | inr (sch, e) ↦
        rw (e, remove_schedule)
          (λ y g. h y (ground (arith, get-delete x id s.schedules, eq_iff id x)))
  ]

  pub check_interval_schedules-IsWithin :
      (now : Time) (s : Scheduler C Q) (f : ℕ)
      → IsWithin x m k s.schedules f
      → IsWithin x m k (check_interval_schedules w now s).0.schedules f
  unfolding check_interval_schedules
  check_interval_schedules-IsWithin now s f h y e =
      let (old, found, same) = get-advance_all w.time_text now x s.schedules y e in
      let (alike, count) = advance-Alike w.time_text now old in
      let room = h old found in
      subst (HasRoom x m k f) (sym same) (record {
        limited = alike.same_max_runs ∙ room.limited;
        in_range = subst InInt64 (sym count) room.in_range;
        below_limit = subst (λ r. (r +ℤ pos f) <ℤ (m +ℤ pos k)) (sym count) room.below_limit;
      })

  -- A run that begins takes a place that is free.
  begin-HasRoom :
      (sch : Schedule) (js : List String)
      → pos 0 <ℤ m
      → is_exhausted sch ≡ false
      → ltb (occurs x js) k ≡ true
      → HasRoom x m k (occurs x js) sch
      → HasRoom x m k (suc (occurs x js)) sch
  unfolding is_exhausted
  begin-HasRoom sch js positive free slot h =
      let not_full : sch.run_count <ℤ m =
        ground (arith, free, ap pos_part h.limited, ap neg_part h.limited) in
      let taken : occurs x js < k = ground arith in
      record {
        limited = h.limited;
        in_range = h.in_range;
        below_limit = omega (
          arith,
          not_full,
          taken,
          +ℤ_parts sch.run_count (pos (suc (occurs x js))),
          +ℤ_parts m (pos k),
        );
      }

  finish-HasRoom :
      (now : Time) (sch : Schedule) (f : ℕ)
      → (m +ℤ pos k) ≤ℤ max_int64
      → HasRoom x m k (suc f) sch
      → HasRoom x m k f (count_run w.cron_ops now sch)
  finish-HasRoom now sch f small h =
      let (alike, count) = count_run-Alike w.cron_ops now sch in
      let counted : wrap64 (sch.run_count +ℤ pos 1) ≡ sch.run_count +ℤ pos 1 =
        wrap64_inc sch.run_count max_int64 h.in_range max_int64-InInt64 (
          omega (
            arith,
            small,
            h.below_limit,
            +ℤ_parts sch.run_count (pos (suc f)),
            +ℤ_parts m (pos k),
          )) in
      record {
        limited = alike.same_max_runs ∙ h.limited;
        in_range = rw count (wrap64-InInt64 (sch.run_count +ℤ pos 1));
        below_limit = rw (count ∙ counted) (
            omega (
              arith,
              h.below_limit,
              +ℤ_parts sch.run_count (pos (suc f)),
              +ℤ_parts sch.run_count (pos 1),
              +ℤ_parts (sch.run_count +ℤ pos 1) (pos f),
            ));
      }

  abbrev list_after : String → List String → Option Answer → List String
  list_after id js none = id ∷ js
  list_after id js (some a) = js

  begun-IsWithin :
      (id : String) (js : List String) (r : Scheduler C Q × Option Answer)
      → IsWithin x m k r.0.schedules (occurs x (list_after id js r.1))
      → IsWithin x m k (begun id js r).0.schedules (occurs x (begun id js r).1)
  unfolding begun
  begun-IsWithin id js (s, none) h = h
  begun-IsWithin id js (s, some a) h = h

  begin-IsWithin :
      (id : String) (sch : Schedule) (t : Dict String Schedule) (js : List String)
      → pos 0 <ℤ m
      → ltb (occurs id js) k ≡ true
      → get id t ≡ some sch
      → is_exhausted sch ≡ false
      → IsWithin x m k t (occurs x js)
      → IsWithin x m k t (occurs x (id ∷ js))
  unfolding occurs
  begin-IsWithin id sch t js positive slot e free h y g = elim (Bool-cases (str_eq id x)) [
    | inr b ↦ rw b (h y g)
    | inl b ↦
        let p : id ≡ x = (eq_iff id x).0 b in
        let same : sch ≡ y = some-injective _ _ (sym e ∙ ap (λ i. get i t) p ∙ g) in
        rw b (
          begin-HasRoom y js positive (ap is_exhausted (sym same) ∙ free)
            (ap (λ i. ltb (occurs i js) k) (sym p) ∙ slot) (h y g))
  ]

  pub begins-IsWithin :
      (now : Time) (task_id id : String) (s : Scheduler C Q) (js : List String)
      → pos 0 <ℤ m
      → ltb (occurs id js) k ≡ true
      → IsWithin x m k s.schedules (occurs x js)
      → let s' = begun id js (begin_run w now task_id id s) in
        IsWithin x m k s'.0.schedules (occurs x s'.1)
  begins-IsWithin now task_id id s js positive slot h =
      begun-IsWithin id js (begin_run w now task_id id s)
        (elim (begin_run_cases w now task_id id s) [
          | inl (a, e) ↦ rw (e) h
          | inr (inl e) ↦ rw (e) (
              update-IsWithin x m k id s.schedules _ (occurs x js)
                (disable_schedule-IsUpdate w now id s) h)
          | inr (inr (sch, e, free, same, _)) ↦
              elim (Option-cases (begin_run w now task_id id s).1) [
                | inl f ↦ rw (same, f) (begin-IsWithin id sch s.schedules js positive slot e free h)
                | inr (a, f) ↦ rw (same, f) h
              ]
        ])

  pub finish_run-IsWithin :
      (now : Time) (id : String) (s : Scheduler C Q) (js : List String)
      → (m +ℤ pos k) ≤ℤ max_int64
      → ltb 0 (occurs id js) ≡ true
      → IsWithin x m k s.schedules (occurs x js)
      → IsWithin x m k (finish_run w now id s).schedules (occurs x (remove_one id js))
  unfolding finish_run store
  finish_run-IsWithin now id s js small busy h = elim (Option-cases (get id s.schedules)) [
    | inl e ↦
        rw (e, finish_run)
          (λ y g.
            subst (λ f. HasRoom x m k f y) (sym ((occurs-remove_one x id js).0 (λ same. cc)))
              (h y g))
    | inr (sch, e) ↦
        rw (e, finish_run)
          (put-IsWithin x m k id (count_run w.cron_ops now sch) s.schedules
            (occurs x (remove_one id js))
            (λ y ne g.
              subst (λ f. HasRoom x m k f y) (sym ((occurs-remove_one x id js).0 ne)) (h y g))
            (λ same. finish-HasRoom now sch (occurs x (remove_one id js)) small (
              subst (λ f. HasRoom x m k f sch)
                (sym (
                  subst (λ i. suc (occurs i (remove_one id js)) ≡ occurs i js) (sym same)
                    ((occurs-remove_one x id js).1 busy)))
                (h sch (rw same e)))))
  ]
