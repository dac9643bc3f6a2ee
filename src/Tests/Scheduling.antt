-- ===== src/Tests/Scheduling.antt =====
-- crawler/task/scheduler.go at concrete inputs, with a small cron library.
use mathlib.Core.Option.{some-injective}
use mathlib.Core.Path.{subst}
use Prim.Native.Nat.{◌<◌}
use go_backend_kit.Common.{
  ℕ, suc, ◌+◌, String, ◌≡◌, refl, none, some, Option, List, [], ◌∷◌, pos, ◌+ℤ◌, seconds, ◌==◌, get,
  string_key, arith, if◌then◌else◌, Dict,
}
use go_backend_kit.Queue.Priority.{PriorityQueue}
use go_backend_kit.Queue.Instances.{priority_ops}
use go_backend_kit.Schedule.{
  Schedule, Scheduler, World, CronOps, CronLaws, entry_of, new_schedule, with_cron, with_interval,
  with_task, with_max_runs, check_interval_schedules,
}
use go_backend_kit.Schedule.Calls.{Call, adds, begins, finishes, disables, checks, run, occurs}
use go_backend_kit.Schedule.Jobs.{IsWired}
use go_backend_kit.Schedule.Wired.{run-IsWired}
use go_backend_kit.Schedule.Room.{HasRoom}
use go_backend_kit.Schedule.Bounded.{IsLimited, run-IsLimited}
use go_backend_kit.Schedule.Idle.{intervals_never_run}
use go_backend_kit.Tests.Data.{low_task, now, dispatcher}

-- The jobs of the library: numbers and schedules.
abbrev Jobs : Type 0
Jobs = List (ℕ × String)

abbrev sum : Jobs → ℕ
sum [] = 0
sum ((n, i) ∷ c) = n + sum c

abbrev job : ℕ → Jobs → Option String
job n [] = none
job n ((m, i) ∷ c) = if n == m then some i else job n c

abbrev remove : ℕ → Jobs → Jobs
remove n [] = []
remove n ((m, i) ∷ c) = let rest = remove n c in if n == m then rest else (m, i) ∷ rest

job-fresh : (n : ℕ) (c : Jobs) → sum c < n → job n c ≡ none
job-fresh n [] h = refl
job-fresh n ((m, i) ∷ c) h = ground (arith, job-fresh n c)

job-remove : (n m : ℕ) (c : Jobs) → job m (remove n c) ≡ (if m == n then none else job m c)
job-remove n m [] = ground arith
job-remove n m ((k, i) ∷ c) = ground (arith, job-remove n m c)

abbrev cron_ops : CronOps Jobs
cron_ops = record {
  parse = λ x. some (λ t. t +ℤ seconds (pos 60));
  add_func = λ x id c. some (suc (sum c), (suc (sum c), id) ∷ c);
  remove = remove;
}

cron_laws : CronLaws cron_ops
cron_laws = record {
  job = job;
  add_func_fresh = λ x id c n c' e. ground (arith, e, job-fresh (suc (sum c)) c);
  remove_only = job-remove;
}

abbrev world : World Jobs PriorityQueue
world = record {
  cron_ops = cron_ops;
  queue_ops = priority_ops;
  time_text = record {
    parse_duration = λ x. some (seconds (pos 5));
    parse_time = λ x. some (pos 0);
    print_duration = λ d. "5s";
    print_time = λ t. "1970-01-01T00:00:00Z";
  };
  copied = λ t. t;
}

abbrev scheduler : Dict String Schedule → Scheduler Jobs PriorityQueue
scheduler schedules = record {
  schedules = schedules;
  cron_jobs = [];
  dispatcher = dispatcher;
  event_chan = [];
  total_runs = pos 0;
  failed_runs = pos 0;
}

abbrev nightly : Schedule
nightly = with_task low_task (with_cron "0 0 * * *" (new_schedule "nightly"))

abbrev wired_calls : List Call
wired_calls =
    adds now nightly
    ∷ begins now "t-1" "nightly"
    ∷ finishes now "nightly"
    ∷ disables now "nightly"
    ∷ []

run-IsWired_example : IsWired world cron_laws (run world 1 wired_calls (scheduler [], [])).0
unfolding get entry_of new_schedule with_cron with_task
run-IsWired_example =
    run-IsWired world cron_laws 1 wired_calls (scheduler [], []) (refl, (tt, (tt, (tt, tt))))
      (λ id sch e. cc)

-- Two runs at a time of a schedule that may run three times.
abbrev thrice : Schedule
thrice = with_max_runs (pos 3) (with_task low_task (new_schedule "thrice"))

thrice-HasRoom :
    (sch : Schedule)
    → get "thrice" (scheduler (("thrice", thrice) ∷ [])).schedules ≡ some sch
    → HasRoom "thrice" (pos 3) 2 0 sch
unfolding get new_schedule with_task with_max_runs ◌+ℤ◌
thrice-HasRoom sch e = subst (HasRoom "thrice" (pos 3) 2 0) (some-injective _ _ e) (record {
  limited = refl;
  in_range = record { above = omega arith; below = omega arith };
  below_limit = omega arith;
})

abbrev thrice_calls : List Call
thrice_calls =
    begins now "t-1" "thrice"
    ∷ begins now "t-2" "thrice"
    ∷ finishes now "thrice"
    ∷ begins now "t-3" "thrice"
    ∷ finishes now "thrice"
    ∷ finishes now "thrice"
    ∷ []

run-IsLimited_example :
    IsLimited world "thrice"
      (pos 3)
      2
      (run world 2 thrice_calls (scheduler (("thrice", thrice) ∷ []), []))
unfolding occurs ◌+ℤ◌
run-IsLimited_example =
    run-IsLimited world "thrice" (pos 3) 2 thrice_calls (scheduler (("thrice", thrice) ∷ []), [])
      (omega arith) (omega arith) (tt, (tt, (tt, (tt, (tt, (tt, tt)))))) thrice-HasRoom

abbrev every_five : Schedule
every_five =
    with_task low_task (with_interval world.time_text (seconds (pos 5)) (new_schedule "poll"))

intervals_never_run_example :
    (check_interval_schedules world
      (seconds (pos 1000))
      (run world 1 (adds now every_five ∷ checks (seconds (pos 900)) ∷ []) (scheduler [], [])).0).1
    ≡ []
unfolding new_schedule with_interval with_task
intervals_never_run_example =
    intervals_never_run world 1 (adds now every_five ∷ checks (seconds (pos 900)) ∷ [])
      (scheduler [], []) (seconds (pos 1000)) ((λ e. refl), (tt, tt)) tt
