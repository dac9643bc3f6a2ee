-- ===== src/Dispatch/Intake.antt =====
-- crawler/task/dispatcher.go: tasks that come in, and the router.
use go_backend_kit.Common.{
  String, Bool, true, not, Option, none, some, List, [], ◌∷◌, ◌++◌, ℤ, pos, ◌+ℤ◌, ltb, wrap64,
  string_key, str_eq, Time, length, keep_if, if◌then◌else◌,
}
use go_backend_kit.Task.{
  Task, text, flag, ValidationError, type_seed, priority_high, enqueue, set_metadata, validate,
}
use go_backend_kit.Queue.{QueueError}
use go_backend_kit.Queue.Interface.{QueueOps}
use go_backend_kit.Dispatch.Types.{Dispatcher}

pub data SubmitError : Type 0 where
  invalid : ValidationError → SubmitError
  not_queued : QueueError → SubmitError

module _ {Q : Type 0} (ops : QueueOps Q) where
  unfoldable pub submit_seed_task : Time → Task → Dispatcher Q → Dispatcher Q × Option QueueError
  unfolding set_metadata
  submit_seed_task now t d =
      let t' = set_metadata "seed_id" (text t.id) (set_metadata "is_seed" (flag true) t) in
      let (q, e) = ops.push now (record t' { priority = priority_high }) d.queue in
      (record d { queue = q }, e)

  -- The end of `Submit`: count the task, and send it if the channel has room.
  unfoldable pub count_submitted :
      Time → Task → Dispatcher Q × Option QueueError → Dispatcher Q × Option SubmitError
  count_submitted now t (d, some e) = (d, some (not_queued e))
  count_submitted now t (d, none) = (
    record d {
      dispatched = wrap64 (d.dispatched +ℤ pos 1);
      task_chan =
          if ltb (length d.task_chan) 1000 then d.task_chan ++ enqueue now t ∷ [] else d.task_chan;
    },
    none,
  )

  abbrev pub seed_answer : Dispatcher Q × Option QueueError → Dispatcher Q × Option SubmitError
  seed_answer (d, none) = (d, none)
  seed_answer (d, some e) = (d, some (not_queued e))

  unfoldable pub submit_valid : Time → Task → Dispatcher Q → Dispatcher Q × Option SubmitError
  unfolding submit_seed_task count_submitted
  submit_valid now t d =
      if str_eq t.task_type type_seed
      then seed_answer (submit_seed_task now t d)
      else (let (q, e) = ops.push now t d.queue in
          count_submitted now t (record d { queue = q }, e))

  unfoldable pub submit : Time → Task → Dispatcher Q → Dispatcher Q × Option SubmitError
  unfolding validate submit_valid
  submit now t d =
      let (t', e) = validate t in
      elim e [ none ↦ submit_valid now t' d | some err ↦ (d, some (invalid err)) ]

  -- Errors of single seed tasks are logged and dropped.
  unfoldable pub submit_seeds : Time → List Task → Dispatcher Q → Dispatcher Q
  unfolding submit_seed_task
  submit_seeds now [] d = d
  submit_seeds now (t ∷ ts) d = submit_seeds now ts (submit_seed_task now t d).0

  abbrev is_seed : Task → Bool
  is_seed t = str_eq t.task_type type_seed

  unfoldable pub queue_regular : Time → List Task → Dispatcher Q → Dispatcher Q × Option QueueError
  queue_regular now [] d = (d, none)
  queue_regular now (t ∷ ts) d =
      let (q, e) = ops.push_batch now (t ∷ ts) d.queue in
      elim e [
        | none ↦ (
          record d { queue = q; dispatched = wrap64 (d.dispatched +ℤ pos (length (t ∷ ts))) },
          none,
        )
        | some err ↦ (record d { queue = q }, some err)
      ]

  unfoldable pub submit_batch : Time → List Task → Dispatcher Q → Dispatcher Q × Option QueueError
  unfolding submit_seeds queue_regular
  submit_batch now ts d =
      queue_regular now (keep_if (λ t. not (is_seed t)) ts)
        (submit_seeds now (keep_if is_seed ts) d)

-- `TaskRouter`: the target of the first rule whose condition holds.
pub record RoutingRule : Type 0 where
  pub name : String
  pub condition : Task → Bool
  pub target : String
  pub priority : ℤ

unfoldable pub route : List RoutingRule → Task → String
route [] t = ""
route (r ∷ rs) t = if r.condition t then r.target else route rs t

unfoldable pub add_rule : RoutingRule → List RoutingRule → List RoutingRule
add_rule r rs = rs ++ r ∷ []
