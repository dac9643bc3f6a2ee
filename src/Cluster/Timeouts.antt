-- ===== src/Cluster/Timeouts.antt =====
-- crawler/distributed/coordinator.go: `checkTaskTimeouts` after `distributeTaskBatch`.
use go_backend_kit.Common.{
  ℕ, suc, ◌%◌, String, false, Bool-cases, inl, inr, ◌≡◌, refl, Option, none, some, List, [], ◌∷◌,
  put-All, string_key, get_elem?, length, pos, Time, Duration, All, ◌-ℤ◌, wrap64,
}
use go_backend_kit.Task.{Task}
use go_backend_kit.Cluster.Types.{ClusterNode, pending_tasks, Entry, decode_task, RedisOps}
use go_backend_kit.Cluster.Coordinator.{
  Coordinator, Surroundings, record_assignment, assign_task_to_node, distribute_task, distribute_to,
  distribute_each, distribute_fetched, distribute_active, distribute_task_batch, active_nodes,
  has_timed_out, check_timeouts_of, check_task_timeouts,
}
use go_backend_kit.Cluster.Assign.{assignment_message}

abbrev pub IsUnstarted : Task → Type 0
IsUnstarted t = t.started_at ≡ none

-- An entry that is not the JSON of a started task.
abbrev pub IsUnstartedEntry : Entry → Type 0
IsUnstartedEntry e = (t : Task) → decode_task e ≡ some t → IsUnstarted t

abbrev pub AllUnstarted : {R Q : Type 0} → Coordinator R Q → Type 0
AllUnstarted c = All (λ p. IsUnstarted p.1) c.pending

not_timed_out :
    (now : Time) (limit : Duration) (t : Task) → IsUnstarted t → has_timed_out now limit t ≡ false
unfolding has_timed_out
not_timed_out now limit t h = rw h refl

module _ {R Q : Type 0} (ops : RedisOps R) where
  check_timeouts_of-AllUnstarted :
      (now : Time) (ts : List (String × Task)) (c : Coordinator R Q)
      → All (λ p. IsUnstarted p.1) ts
      → check_timeouts_of ops now ts c ≡ c
  unfolding check_timeouts_of
  check_timeouts_of-AllUnstarted now [] c h = refl
  check_timeouts_of-AllUnstarted now ((id, t) ∷ ts) c h =
      rw (not_timed_out now c.config.task_timeout t h.0)
        (check_timeouts_of-AllUnstarted now ts c h.1)

  module _ (env : Surroundings) where
    distribute_to-AllUnstarted :
        (o : Option Task) (n : Option ClusterNode) (c : Coordinator R Q)
        → ((t : Task) → o ≡ some t → IsUnstarted t)
        → AllUnstarted c
        → AllUnstarted (distribute_to ops env o n c)
    unfolding distribute_to distribute_task assign_task_to_node record_assignment
    distribute_to-AllUnstarted none n c new h = h
    distribute_to-AllUnstarted (some t) none c new h = h
    distribute_to-AllUnstarted (some t) (some n) c new h =
        elim (Bool-cases (env.send n.id (assignment_message env.format t))) [
          | inl b ↦ rw b (put-All IsUnstarted t.id t c.pending h (new t refl))
          | inr b ↦ rw b h
        ]

    distribute_each-AllUnstarted :
        (active : List ClusterNode) (i : ℕ) (es : List Entry) (c : Coordinator R Q)
        → All IsUnstartedEntry es
        → AllUnstarted c
        → AllUnstarted (distribute_each ops env active i es c)
    unfolding distribute_each
    distribute_each-AllUnstarted active i [] c new h = h
    distribute_each-AllUnstarted active i (e ∷ es) c new h =
        distribute_each-AllUnstarted active (suc i) es _ new.1 (
          distribute_to-AllUnstarted (decode_task e) (get_elem? active (i % length active)) c new.0
            h)

    distribute_fetched-AllUnstarted :
        (active : List ClusterNode) (o : Option (List Entry)) (c : Coordinator R Q)
        → ((es : List Entry) → o ≡ some es → All IsUnstartedEntry es)
        → AllUnstarted c
        → AllUnstarted (distribute_fetched ops env active o c)
    unfolding distribute_fetched
    distribute_fetched-AllUnstarted active none c new h = h
    distribute_fetched-AllUnstarted active (some []) c new h = h
    distribute_fetched-AllUnstarted active (some (e ∷ es)) c new h =
        distribute_each-AllUnstarted active 0 (e ∷ es) _ (new (e ∷ es) refl) h

    distribute_active-AllUnstarted :
        (active : List ClusterNode) (c : Coordinator R Q)
        → ((es : List Entry)
            → ops.lrange pending_tasks (pos 0) (wrap64 (c.config.batch_size -ℤ pos 1)) c.chain.redis
              ≡ some es
            → All IsUnstartedEntry es)
        → AllUnstarted c
        → AllUnstarted (distribute_active ops env active c)
    unfolding distribute_active
    distribute_active-AllUnstarted [] c new h = h
    distribute_active-AllUnstarted (n ∷ ns) c new h =
        distribute_fetched-AllUnstarted (n ∷ ns) _ c new h

    -- If neither the pending tasks of the coordinator nor the tasks that Redis gives for the next
    -- batch have a start time, the check for timeouts after that batch, at any time, changes nothing.
    pub no_timeouts :
        (nodes : List ClusterNode) (now : Time) (c : Coordinator R Q)
        → ((es : List Entry)
            → ops.lrange pending_tasks (pos 0) (wrap64 (c.config.batch_size -ℤ pos 1)) c.chain.redis
              ≡ some es
            → All IsUnstartedEntry es)
        → AllUnstarted c
        → check_task_timeouts ops now (distribute_task_batch ops env nodes c)
          ≡ distribute_task_batch ops env nodes c
    unfolding check_task_timeouts distribute_task_batch
    no_timeouts nodes now c new h =
        check_timeouts_of-AllUnstarted now _ _
          (distribute_active-AllUnstarted (active_nodes nodes) c new h)
