-- ===== src/Task/Retries.antt =====
-- crawler/task/task.go: `Fail` retries a task as often as its budget says, and no more.
use go_backend_kit.Common.{
  String, ◌≡◌, refl, ap, ◌∙◌, false, List, [], ◌∷◌, pos, ◌+ℤ◌, ◌<ℤ◌, ◌≤ℤ◌, wrap64_inc, inc-InInt64,
  InInt64, int_laws, +ℤ_parts, pos_part, neg_part, Time, arith, length, All,
}
use go_backend_kit.Task.Types.{failed, retrying, Task}
use go_backend_kit.Task.Lifecycle.{is_expired, fail}

-- One failure after another, each with its time and its error.
pub fail_all : List (Time × String) → Task → Task
fail_all [] t = t
fail_all ((now, e) ∷ es) t = fail_all es (fail now e t)

abbrev pub IsLive : Task → Time × String → Type 0
IsLive t (now, e) = is_expired now t ≡ false

-- Each of the failures leaves the task retrying.
abbrev pub OnlyRetried : List (Time × String) → Task → Type 0
OnlyRetried [] t = Unit
OnlyRetried ((now, e) ∷ es) t = ((fail now e t).status ≡ retrying) × OnlyRetried es (fail now e t)

-- What one failure does to the fields that the next one reads.
record Retried (t t' : Task) : Type 0 where
  status_is : t'.status ≡ retrying
  counted : t'.retry_count ≡ t.retry_count +ℤ pos 1
  same_budget : t'.max_retries ≡ t.max_retries
  same_deadline : t'.expires_at ≡ t.expires_at

fail-Retried :
    (now : Time) (e : String) (t : Task)
    → is_expired now t ≡ false
    → InInt64 t.retry_count
    → InInt64 t.max_retries
    → t.retry_count <ℤ t.max_retries
    → Retried t (fail now e t)
unfolding fail
fail-Retried now e t live hr hm lt = ground (arith, wrap64_inc t.retry_count t.max_retries hr hm lt)

fail_exhausted :
    (now : Time) (e : String) (t : Task)
    → t.max_retries ≤ℤ t.retry_count
    → ((fail now e t).status ≡ failed) × ((fail now e t).retry_count ≡ t.retry_count)
unfolding fail
fail_exhausted now e t h = ground arith

IsLive-All :
    (t t' : Task) (es : List (Time × String))
    → t'.expires_at ≡ t.expires_at
    → All (IsLive t) es
    → All (IsLive t') es
unfolding is_expired
IsLive-All t t' [] same live = tt
IsLive-All t t' ((now, e) ∷ es) same live = (ground (arith, live.0), IsLive-All t t' es same live.1)

-- With budget left for each of them, all failures end in retries, and each is counted.
pub fail_all-retry_count :
    (es : List (Time × String)) (t : Task)
    → All (IsLive t) es
    → InInt64 t.retry_count
    → InInt64 t.max_retries
    → t.retry_count +ℤ pos (length es) ≤ℤ t.max_retries
    → ((fail_all es t).retry_count ≡ t.retry_count +ℤ pos (length es))
      × ((fail_all es t).max_retries ≡ t.max_retries)
      × OnlyRetried es t
unfolding fail_all
fail_all-retry_count [] t live hr hm h = (omega int_laws, refl, tt)
fail_all-retry_count ((now, e) ∷ es) t live hr hm h =
    let lt : t.retry_count <ℤ t.max_retries = omega int_laws in
    let r = fail-Retried now e t live.0 hr hm lt in
    let in_range = inc-InInt64 t.retry_count t.max_retries hr hm lt in
    let (counted, same, retried) =
      fail_all-retry_count es (fail now e t) (IsLive-All t (fail now e t) es r.same_deadline live.1)
        (rw r.counted in_range) (rw r.same_budget hm)
        (rw (r.counted, r.same_budget) (omega int_laws)) in
    (
      counted ∙ ap (λ c. c +ℤ pos (length es)) r.counted ∙ omega int_laws,
      same ∙ r.same_budget,
      (r.status_is, retried),
    )

-- A task that fails, before its deadline each time, exactly as often as its retry count is below
-- its budget is retrying after each of these failures, and has then used its budget; the next
-- failure makes it fail for good and leaves the count at the budget.
pub retry_budget :
    (es : List (Time × String)) (now : Time) (e : String) (t : Task)
    → All (IsLive t) es
    → InInt64 t.retry_count
    → InInt64 t.max_retries
    → t.retry_count +ℤ pos (length es) ≡ t.max_retries
    → OnlyRetried es t
      × ((fail_all es t).retry_count ≡ t.max_retries)
      × ((fail now e (fail_all es t)).status ≡ failed)
      × ((fail now e (fail_all es t)).retry_count ≡ t.max_retries)
retry_budget es now e t live hr hm h =
    let (counted, same, retried) = fail_all-retry_count es t live hr hm (rw h (omega arith)) in
    let (dead, kept) = fail_exhausted now e (fail_all es t) (rw (same, counted, h) (omega arith)) in
    (retried, counted ∙ h, dead, kept ∙ counted ∙ h)

fail-bounded :
    (now : Time) (e : String) (t : Task)
    → InInt64 t.retry_count
    → InInt64 t.max_retries
    → t.retry_count ≤ℤ t.max_retries
    → InInt64 (fail now e t).retry_count
      × ((fail now e t).max_retries ≡ t.max_retries)
      × ((fail now e t).retry_count ≤ℤ t.max_retries)
unfolding fail
fail-bounded now e t hr hm h = ground (
  arith,
  wrap64_inc t.retry_count t.max_retries hr hm,
  inc-InInt64 t.retry_count t.max_retries hr hm,
  +ℤ_parts t.retry_count (pos 1),
)

-- No sequence of failures, before or after the deadline, raises the retry count of a task above
-- its budget, if it was not above before and both are 64-bit integers.
pub fail_all-bounded :
    (es : List (Time × String)) (t : Task)
    → InInt64 t.retry_count
    → InInt64 t.max_retries
    → t.retry_count ≤ℤ t.max_retries
    → (fail_all es t).retry_count ≤ℤ t.max_retries
unfolding fail_all
fail_all-bounded [] t hr hm h = h
fail_all-bounded ((now, e) ∷ es) t hr hm h =
    let (in_range, same, within) = fail-bounded now e t hr hm h in
    let rest = fail_all-bounded es (fail now e t) in_range (rw same hm) (rw same within) in
    omega (arith, ap pos_part same, ap neg_part same)
