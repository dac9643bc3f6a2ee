-- ===== src/Dispatch/Conserve.antt =====
-- crawler/task/dispatcher.go: a batch neither loses nor makes up a task without a trace.
use go_backend_kit.Common.{
  ℕ, ◌+◌, String, ◌≡◌, inl, inr, Option, none, some, List, [], ◌∷◌, ◌++◌, map, Time, arith,
  Option-cases,
}
use mathlib.Core.Path.{subst}
use go_backend_kit.Task.{Task}
use go_backend_kit.Queue.{Outcome, done, error, panics}
use go_backend_kit.Queue.Interface.{
  QueueOps, QueueLaws, weigh_tasks, weigh_tasks-append, handed_over,
}
use go_backend_kit.Dispatch.Types.{NodeInfo, Dispatcher, Pick, chosen, no_node, crash}
use go_backend_kit.Dispatch.Select.{select_node}
use go_backend_kit.Dispatch.Engine.{
  Env, BatchResult, finished, crashed, assign_task, requeue, settle, place, dispatch_each,
  run_batch, batch_on, dispatch_batch, read_nodes, get_available_nodes,
}

-- The weight of the tasks that Redis holds an assignment of.
abbrev pub weigh_assigned : (String → ℕ) → List (String × String) → ℕ
weigh_assigned w [] = 0
weigh_assigned w ((t, n) ∷ rest) = w t + weigh_assigned w rest

module _ {Q : Type 0} (ops : QueueOps Q) (laws : QueueLaws ops) (w : String → ℕ) where
  -- The tasks that wait, and those that are assigned.
  abbrev pub weigh_dispatcher : Dispatcher Q → ℕ
  weigh_dispatcher d = laws.weigh w d.queue + weigh_assigned w d.assignments

  abbrev Kept : ℕ → Dispatcher Q × List Task → Type 0
  Kept n (d, lost) = weigh_dispatcher d + weigh_tasks w lost ≡ n

  requeue-Kept :
      (now : Time) (t : Task) (d : Dispatcher Q)
      → Kept (weigh_dispatcher d + w t.id) (requeue ops now t d)
  unfolding requeue
  requeue-Kept now t d = elim (Option-cases (ops.push now t d.queue).1) [
    | inl e ↦ rw (e, requeue) (omega (arith, laws.push_ok w now t d.queue e))
    | inr (err, e) ↦ rw (e, requeue) (omega (arith, laws.push_error w now t d.queue (λ f. cc)))
  ]

  settle-Kept :
      (env : Env) (t : Task) (n : NodeInfo) (d : Dispatcher Q)
      → Kept (weigh_dispatcher d + w t.id) (settle ops env (assign_task env t n d))
  unfolding settle assign_task
  settle-Kept env t n d = ground (
    arith,
    laws.push_ok w env.now (assign_task env t n d).1 d.queue,
    laws.push_error w env.now (assign_task env t n d).1 d.queue,
  )

  abbrev KeptIf : ℕ → Option (Dispatcher Q × List Task) → Type 0
  KeptIf n none = Unit
  KeptIf n (some r) = Kept n r

  place-KeptIf :
      (env : Env) (t : Task) (p : Pick) (d : Dispatcher Q)
      → KeptIf (weigh_dispatcher d + w t.id) (place ops env t p d)
  unfolding place
  place-KeptIf env t crash d = tt
  place-KeptIf env t no_node d = requeue-Kept env.now t d
  place-KeptIf env t (chosen n) d = settle-Kept env t n d

  abbrev Balanced : ℕ → BatchResult Q → Type 0
  Balanced n (finished d lost) = weigh_dispatcher d + weigh_tasks w lost ≡ n
  Balanced n crashed = Unit

  continue-Balanced :
      (n m : ℕ) (next : Dispatcher Q → List Task → BatchResult Q)
      (r : Option (Dispatcher Q × List Task))
      → KeptIf m r
      → ((d' : Dispatcher Q) (l : List Task) → Kept m (d', l) → Balanced n (next d' l))
      → Balanced n (elim r [ none ↦ crashed | some (d', l) ↦ next d' l ])
  continue-Balanced n m next none k go = tt
  continue-Balanced n m next (some (d', l)) k go = go d' l k

  dispatch_each-Balanced :
      (env : Env) (nodes : List String) (ts : List Task) (d : Dispatcher Q) (lost : List Task)
      (n : ℕ)
      → weigh_dispatcher d + weigh_tasks w ts + weigh_tasks w lost ≡ n
      → Balanced n (dispatch_each ops env nodes ts d lost)
  unfolding dispatch_each
  dispatch_each-Balanced env nodes [] d lost n h = omega (arith, h)
  dispatch_each-Balanced env nodes (t ∷ ts) d lost n h =
      continue-Balanced n (weigh_dispatcher d + w t.id)
        (λ d' l. dispatch_each ops env nodes ts d' (l ++ lost))
        (place ops env t (select_node d.strategy (env.nanos t.id) (read_nodes d.nodes nodes) t) d)
        (place-KeptIf env t (select_node d.strategy (env.nanos t.id) (read_nodes d.nodes nodes) t)
          d)
        λ d' l k.
          dispatch_each-Balanced env nodes ts d' (l ++ lost) n
            (omega (arith, weigh_tasks-append w l lost))

  run_batch-Balanced :
      (env : Env) (nodes : List String) (d : Dispatcher Q) (r : Q × Outcome (List Task))
      → laws.weigh w r.0 + weigh_tasks w (handed_over r.1) ≡ laws.weigh w d.queue
      → Balanced (weigh_dispatcher d) (run_batch ops env nodes d r)
  unfolding run_batch
  run_batch-Balanced env nodes d (q, done ts) h =
      dispatch_each-Balanced env nodes ts (record d { queue = q }) [] (weigh_dispatcher d)
        (omega arith)
  run_batch-Balanced env nodes d (q, error e) h = omega arith
  run_batch-Balanced env nodes d (q, panics) h = tt

  batch_on-Balanced :
      (env : Env) (ns : List NodeInfo) (d : Dispatcher Q)
      → Balanced (weigh_dispatcher d) (batch_on ops env ns d)
  unfolding batch_on
  batch_on-Balanced env [] d = omega arith
  batch_on-Balanced env (n ∷ ns) d =
      run_batch-Balanced env (map (λ m. m.id) (n ∷ ns)) d (ops.pop_n d.batch_size d.queue)
        (laws.pop_n_hands_over w d.batch_size d.queue)

  -- Over any queue with the queue laws, a batch that ends conserves the tasks: under every weight of
  -- identifiers, the queue and the assignments hold afterwards, together with the tasks that a
  -- refused re-queueing lost, what queue and assignments held before.
  pub dispatch_batch_conserves :
      (env : Env) (d d' : Dispatcher Q) (lost : List Task)
      → dispatch_batch ops env d ≡ finished d' lost
      → weigh_dispatcher d' + weigh_tasks w lost ≡ weigh_dispatcher d
  unfolding dispatch_batch
  dispatch_batch_conserves env d d' lost e =
      subst (Balanced (weigh_dispatcher d)) e
        (batch_on-Balanced env (get_available_nodes env.now d) d)
