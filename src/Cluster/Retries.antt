-- ===== src/Cluster/Retries.antt =====
-- crawler/distributed/coordinator.go: what follows a result, a failure and a timeout.
use go_backend_kit.Common.{
  String, true, false, Bool-cases, ◌≡◌, ◌≢◌, refl, ap, inl, inr, none, get, get-delete, string_key,
  str_eq, eq_iff, arith,
}
use go_backend_kit.Queue.Interface.{QueueOps}
use go_backend_kit.Cluster.Types.{TaskResult, RedisOps}
use go_backend_kit.Cluster.Coordinator.{Coordinator, Surroundings, handle_task_failure}
use go_backend_kit.Cluster.Results.{
  handle_task_result, forget_task, handle_success, store_success, process_seed_result, submit_urls,
  extract_urls_from_data, is_seed,
}

handle_task_failure-none :
    {R Q : Type 0} (ops : RedisOps R) (id reason : String) (c : Coordinator R Q)
    → get id c.pending ≡ none
    → handle_task_failure ops id reason c ≡ c
unfolding handle_task_failure
handle_task_failure-none ops id reason c h = rw (h, handle_task_failure) refl

forget_task-gone :
    {R Q : Type 0} (r : TaskResult) (c : Coordinator R Q)
    → (get r.task_id (forget_task r c).pending ≡ none)
      × (get r.task_id (forget_task r c).assignments ≡ none)
unfolding forget_task
forget_task-gone r c = (
  ground (arith, get-delete r.task_id r.task_id c.pending, eq_iff r.task_id r.task_id),
  ground (arith, get-delete r.task_id r.task_id c.assignments, eq_iff r.task_id r.task_id),
)

module _ {R Q : Type 0} (ops : RedisOps R) (queue : QueueOps Q) (env : Surroundings) where
  failed_result :
      (r : TaskResult) (c : Coordinator R Q)
      → r.error ≢ ""
      → handle_task_result ops queue env r c ≡ forget_task r c
  unfolding handle_task_result
  failed_result r c h =
      let bad : str_eq r.error "" ≡ false = ground (arith, eq_iff r.error "") in
      rw bad
        (handle_task_failure-none ops r.task_id r.error (forget_task r c) (forget_task-gone r c).0)

  -- A result with an error changes neither Redis and the metrics nor the dispatcher, whatever the
  -- retry budget of its task, and after it the coordinator has neither the task nor its assignment.
  pub handle_task_result-failed :
      (r : TaskResult) (c : Coordinator R Q)
      → r.error ≢ ""
      → ((handle_task_result ops queue env r c).chain ≡ c.chain)
        × ((handle_task_result ops queue env r c).dispatcher ≡ c.dispatcher)
        × (get r.task_id (handle_task_result ops queue env r c).pending ≡ none)
        × (get r.task_id (handle_task_result ops queue env r c).assignments ≡ none)
  unfolding forget_task
  handle_task_result-failed r c h =
      rw (failed_result r c h) (refl, refl, (forget_task-gone r c).0, (forget_task-gone r c).1)

  succeeded :
      (r : TaskResult) (c : Coordinator R Q)
      → str_eq r.error "" ≡ true
      → (handle_task_result ops queue env r c).dispatcher ≡ c.dispatcher
  unfolding handle_task_result handle_success store_success process_seed_result
      extract_urls_from_data submit_urls forget_task
  succeeded r c b = elim (Bool-cases (is_seed (get r.task_id c.pending))) [
    | inl seed ↦ rw (b, seed) refl
    | inr not_seed ↦ rw (b, not_seed) refl
  ]

  -- No result of a task, of a seed task or of any other, submits anything to the dispatcher.
  pub handle_task_result-dispatcher :
      (r : TaskResult) (c : Coordinator R Q)
      → (handle_task_result ops queue env r c).dispatcher ≡ c.dispatcher
  unfolding forget_task
  handle_task_result-dispatcher r c = elim (Bool-cases (str_eq r.error "")) [
    | inl b ↦ succeeded r c b
    | inr b ↦ ap (λ d. d.dispatcher) (failed_result r c (λ e. ground (arith, eq_iff r.error "")))
  ]
