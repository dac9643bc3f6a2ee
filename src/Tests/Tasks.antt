-- ===== src/Tests/Tasks.antt =====
-- crawler/task/task.go at concrete inputs.
use go_backend_kit.Common.{String, ◌≡◌, refl, List, [], ◌∷◌, pos, ◌+ℤ◌, Time, arith}
use go_backend_kit.Task.{failed, new_task, is_expired, fail}
use go_backend_kit.Task.Stamps.{
  IsStamped, Call, starts, fails, enqueues, completes, run, run-IsStamped, new_task-IsStamped,
}
use go_backend_kit.Task.Retries.{fail_all, retry_budget, OnlyRetried}
use go_backend_kit.Tests.Data.{low_task, now}

abbrev failures : List (Time × String)
failures = (now, "timeout") ∷ (now, "timeout") ∷ (now, "reset") ∷ []

retry_budget_example :
    OnlyRetried failures low_task
    × ((fail_all failures low_task).retry_count ≡ low_task.max_retries)
    × ((fail now "gone" (fail_all failures low_task)).status ≡ failed)
    × ((fail now "gone" (fail_all failures low_task)).retry_count ≡ low_task.max_retries)
unfolding new_task is_expired ◌+ℤ◌
retry_budget_example =
    retry_budget failures now "gone" low_task (refl, (refl, (refl, tt))) (omega arith) (omega arith)
      refl

abbrev life : List (Time × Call)
life =
    (now, enqueues) ∷ (now, starts) ∷ (now, fails "reset") ∷ (now, starts) ∷ (now, completes) ∷ []

run-IsStamped_example : IsStamped (run life low_task)
run-IsStamped_example =
    run-IsStamped life low_task
      (new_task-IsStamped (λ s. s) "low" (pos 10) "https://example.com/items" "detail" (pos 0))
