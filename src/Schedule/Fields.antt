-- ===== src/Schedule/Fields.antt =====
-- crawler/task/scheduler.go: what the functions on one schedule leave as it was.
use go_backend_kit.Common.{
  String, ◌≡◌, refl, some, Bool-cases, inl, inr, [], ◌∷◌, pos, ◌+ℤ◌, wrap64, Time, Dict, get,
  string_key, str_eq, arith,
}
use go_backend_kit.Schedule.Types.{Schedule, CronOps, TimeText}
use go_backend_kit.Schedule.Rules.{set_next_run, advance, advance_all, count_run}

-- Two schedules that differ at most in their times, their count of runs and being enabled.
pub record Alike (a b : Schedule) : Type 0 where
  pub same_id : a.id ≡ b.id
  pub same_kind : a.kind ≡ b.kind
  pub same_metadata : a.metadata ≡ b.metadata
  pub same_max_runs : a.max_runs ≡ b.max_runs

pub set_next_run-Alike :
    (text : TimeText) (now : Time) (sch : Schedule)
    → Alike (set_next_run text now sch) sch
      × ((set_next_run text now sch).run_count ≡ sch.run_count)
unfolding set_next_run
set_next_run-Alike text now sch = ground arith

pub advance-Alike :
    (text : TimeText) (now : Time) (sch : Schedule)
    → Alike (advance text now sch) sch × ((advance text now sch).run_count ≡ sch.run_count)
unfolding advance
advance-Alike text now sch = ground (arith, set_next_run-Alike text now sch)

pub count_run-Alike :
    {C : Type 0} (ops : CronOps C) (now : Time) (sch : Schedule)
    → Alike (count_run ops now sch) sch
      × ((count_run ops now sch).run_count ≡ wrap64 (sch.run_count +ℤ pos 1))
unfolding count_run
count_run-Alike ops now sch = ground arith

-- A schedule that is found after `checkIntervalSchedules` was there before.
pub get-advance_all :
    (text : TimeText) (now : Time) (id : String) (m : Dict String Schedule) (x : Schedule)
    → get id (advance_all text now m) ≡ some x
    → (y : Schedule) × (get id m ≡ some y) × (x ≡ advance text now y)
unfolding get advance_all
get-advance_all text now id [] x e = cc
get-advance_all text now id ((i, sch) ∷ m) x e = elim (Bool-cases (str_eq i id)) [
  | inl b ↦ (sch, rw b refl, ground (arith, rw b at e))
  | inr b ↦ rw b (get-advance_all text now id m x (rw b at e))
]
