-- ===== src/Instances/Moves.antt =====
-- crawler/task/manager.go: what moves the counters.
use go_backend_kit.Common.{
  ℕ, ◌+◌, ◌%◌, String, inl, inr, ◌≡◌, refl, ap, Option, Option-cases, none, some, List, [], ◌∷◌,
  Dict, get, string_key, Time, arith, ℤ, pos, ◌+ℤ◌, ◌-ℤ◌, word, wrap64,
}
use go_backend_kit.Task.{Value}
use go_backend_kit.Instances.Types.{
  TaskState, created, allocated, running, paused, completed, failed, cancelled, timeout,
  TaskInstance, TaskManager,
}
use go_backend_kit.Instances.Books.{counters, books}
use go_backend_kit.Instances.Engine.{
  enter, enter_running, enter_completed, enter_failed, finish_update, update_found, update_state,
}
use go_backend_kit.Instances.Ticks.{
  Call, creates, templates, updates, progresses, gets, allocates, works, checks, cleans, loads,
  step,
}

-- What a call of `UpdateState` counts: the first time that an instance runs or ends.
abbrev pub one_if_none : Option Time → ℕ
one_if_none none = 1
one_if_none (some t) = 0

abbrev pub starting : TaskState → TaskInstance → ℕ
starting running i = one_if_none i.started_at
starting completed i = 0
starting failed i = 0
starting created i = 0
starting allocated i = 0
starting paused i = 0
starting cancelled i = 0
starting timeout i = 0

abbrev pub ending : TaskState → TaskInstance → ℕ
ending completed i = one_if_none i.completed_at
ending failed i = one_if_none i.completed_at
ending running i = 0
ending created i = 0
ending allocated i = 0
ending paused i = 0
ending cancelled i = 0
ending timeout i = 0

abbrev pub counted : (TaskInstance → ℕ) → Option TaskInstance → ℕ
counted f none = 0
counted f (some i) = f i

abbrev pub first_run : Call → TaskManager → ℕ
first_run (updates now id state metadata) m = counted (starting state) (get id m.tasks)
first_run (creates env definition params) m = 0
first_run (templates env t params) m = 0
first_run (progresses now j metrics) m = 0
first_run (gets env j) m = 0
first_run (allocates env strategy j) m = 0
first_run (works env strategy) m = 0
first_run (checks env) m = 0
first_run (cleans now) m = 0
first_run (loads os) m = 0

abbrev pub first_end : Call → TaskManager → ℕ
first_end (updates now id state metadata) m = counted (ending state) (get id m.tasks)
first_end (creates env definition params) m = 0
first_end (templates env t params) m = 0
first_end (progresses now j metrics) m = 0
first_end (gets env j) m = 0
first_end (allocates env strategy j) m = 0
first_end (works env strategy) m = 0
first_end (checks env) m = 0
first_end (cleans now) m = 0
first_end (loads os) m = 0

unfoldable pub count_all : (Call → TaskManager → ℕ) → List Call → TaskManager → ℕ
count_all f [] m = 0
count_all f (c ∷ cs) m = f c m + count_all f cs (step c m)

-- Two numbers that are equal modulo 2^64.
abbrev pub AgreeMod : ℕ → ℕ → Type 0
AgreeMod a b = a % 18446744073709551616 ≡ b % 18446744073709551616

word_up : (z : ℤ) → AgreeMod (word (wrap64 (z +ℤ pos 1))) (word z + 1)
unfolding wrap64 ◌+ℤ◌
word_up z = ground arith

word_down : (z : ℤ) → AgreeMod (word (wrap64 (z -ℤ pos 1)) + 1) (word z)
unfolding wrap64 ◌-ℤ◌
word_down z = ground arith

-- The counters of running and of ended instances.
abbrev pub active_word : TaskManager → ℕ
active_word m = word m.active_tasks

abbrev pub ended_word : TaskManager → ℕ
ended_word m = word m.completed_tasks + word m.failed_tasks

-- From one manager to another, so many instances started and ended.
abbrev pub HasMoved : ℕ → ℕ → TaskManager → TaskManager → Type 0
HasMoved s e m n =
    AgreeMod (active_word n + e) (active_word m + s) × AgreeMod (ended_word n) (ended_word m + e)

pub HasMoved-trans :
    (s e s' e' : ℕ) (m n o : TaskManager)
    → HasMoved s e m n
    → HasMoved s' e' n o
    → HasMoved (s + s') (e + e') m o
HasMoved-trans s e s' e' m n o h k = (omega (arith, h.0, k.0), omega (arith, h.1, k.1))

pub HasMoved-same : (m n : TaskManager) → counters n ≡ counters m → HasMoved 0 0 m n
HasMoved-same m n h = (
  ap (λ c. (word c.0 + 0) % 18446744073709551616) h,
  omega (arith, ap (λ c. word c.1 + word c.2) h),
)

pub HasMoved-books : (m n : TaskManager) → books n ≡ books m → HasMoved 0 0 m n
HasMoved-books m n h = HasMoved-same m n (ap (λ b. (b.0, b.1, b.2)) h)

enter-HasMoved :
    (state : TaskState) (now : Time) (i : TaskInstance) (m : TaskManager)
    → HasMoved (starting state i) (ending state i) m (enter state now i m).0
unfolding enter enter_running enter_completed enter_failed
enter-HasMoved created now i m = HasMoved-same m m refl
enter-HasMoved allocated now i m = HasMoved-same m m refl
enter-HasMoved paused now i m = HasMoved-same m m refl
enter-HasMoved cancelled now i m = HasMoved-same m m refl
enter-HasMoved timeout now i m = HasMoved-same m m refl
enter-HasMoved running now i m = elim (Option-cases i.started_at) [
  | inl e ↦ rw e (ground (arith, word_up m.active_tasks))
  | inr (t, e) ↦ rw e (HasMoved-same m m refl)
]
enter-HasMoved completed now i m = elim (Option-cases i.completed_at) [
  | inl e ↦ rw e (ground (arith, word_up m.completed_tasks, word_down m.active_tasks))
  | inr (t, e) ↦ rw e (HasMoved-same m m refl)
]
enter-HasMoved failed now i m = elim (Option-cases i.completed_at) [
  | inl e ↦ rw e (ground (arith, word_up m.failed_tasks, word_down m.active_tasks))
  | inr (t, e) ↦ rw e (HasMoved-same m m refl)
]

finish_update-HasMoved :
    (now : Time) (id : String) (old state : TaskState) (metadata : Dict String Value) (a b : ℕ)
    (m : TaskManager) (s : TaskManager × TaskInstance)
    → HasMoved a b m s.0
    → HasMoved a b m (finish_update now id old state metadata s)
unfolding finish_update
finish_update-HasMoved now id old state metadata a b m (n, i) h = h

pub update_state-HasMoved :
    (now : Time) (id : String) (state : TaskState) (metadata : Dict String Value) (m : TaskManager)
    → HasMoved
        (counted (starting state) (get id m.tasks))
        (counted (ending state) (get id m.tasks))
        m
        (update_state now id state metadata m).0
unfolding update_found update_state
update_state-HasMoved now id state metadata m = elim (Option-cases (get id m.tasks)) [
  | inl e ↦ rw (e, update_state) (HasMoved-same m m refl)
  | inr (i, e) ↦
      rw (e, update_state)
        (finish_update-HasMoved now id i.state state metadata _ _ m
          (enter state now (record i { state = state }) m) (entered state i))
]
  where
    entered :
        (s : TaskState) (i : TaskInstance)
        → HasMoved (starting s i) (ending s i) m (enter s now (record i { state = s }) m).0
    entered running i = enter-HasMoved running now (record i { state = running }) m
    entered completed i = enter-HasMoved completed now (record i { state = completed }) m
    entered failed i = enter-HasMoved failed now (record i { state = failed }) m
    entered created i = enter-HasMoved created now (record i { state = created }) m
    entered allocated i = enter-HasMoved allocated now (record i { state = allocated }) m
    entered paused i = enter-HasMoved paused now (record i { state = paused }) m
    entered cancelled i = enter-HasMoved cancelled now (record i { state = cancelled }) m
    entered timeout i = enter-HasMoved timeout now (record i { state = timeout }) m
