-- ===== src/Cluster/Rounds.antt =====
-- crawler/distributed/coordinator.go: a round of `distributeTaskBatch`, and many of them.
use go_backend_kit.Common.{
  ℕ, zero, suc, ◌<◌, ◌≡◌, refl, sym, ap, ◌∙◌, some, List, [], ◌∷◌, ◌++◌, pos, ◌-ℤ◌, wrap64, length,
  take, drop, All, arith,
}
use go_backend_kit.Task.{Task}
use go_backend_kit.Cluster.Types.{ClusterNode, pending_tasks, Entry, RedisOps, ListLaws}
use go_backend_kit.Cluster.Coordinator.{
  Coordinator, Surroundings, with_redis, active_nodes, distribute_fetched, distribute_active,
  distribute_task_batch,
}
use go_backend_kit.Cluster.Placing.{
  IsPlaced, IsWithin, accepted, refused, waiting_in, distribute_each-Distributed,
}

drop-length-take : {A : Type 0} (n : ℕ) (xs : List A) → drop (length (take n xs)) xs ≡ drop n xs
drop-length-take zero xs = refl
drop-length-take (suc n) [] = refl
drop-length-take (suc n) (x ∷ xs) = drop-length-take n xs

take-nil : {A : Type 0} (n : ℕ) (xs : List A) → take (suc n) xs ≡ [] → xs ≡ []
take-nil n [] h = refl
take-nil n (x ∷ xs) h = cc

pub last_index : (k : ℕ) → suc k < 9223372036854775808 → wrap64 (pos (suc k) -ℤ pos 1) ≡ pos k
unfolding wrap64 ◌-ℤ◌
last_index k small = ground arith

module _ {R Q : Type 0} (ops : RedisOps R) (laws : ListLaws ops) (env : Surroundings)
    (nodes : List ClusterNode) where
  open laws use {view, lrange_first, ltrim_rest}

  -- What a round makes of the queue, of its batch, and of the tasks that were placed before.
  pub record Round (active : List ClusterNode) (n : ℕ) (c c' : Coordinator R Q) : Type 0 where
    pub queue :
        waiting_in ops laws c'
        ≡ drop n (waiting_in ops laws c) ++ refused env active 0 (take n (waiting_in ops laws c))
    pub placed : All (IsPlaced nodes c') (accepted env active 0 (take n (waiting_in ops laws c)))
    pub kept : (t : Task) → IsPlaced nodes c t → IsPlaced nodes c' t

  fetched-Round :
      (active : List ClusterNode) (k : ℕ) (c : Coordinator R Q) (es : List Entry)
      → 0 < length active
      → IsWithin active nodes
      → es ≡ take (suc k) (waiting_in ops laws c)
      → Round active (suc k) c (distribute_fetched ops env active (some es) c)
  unfolding distribute_fetched
  fetched-Round active k c [] h w e =
      let empty = take-nil k (waiting_in ops laws c) (sym e) in
      record { queue = rw empty refl; placed = rw empty tt; kept = λ t p. p }
  fetched-Round active k c (x ∷ es) h w e =
      let (queue, placed, kept) =
        distribute_each-Distributed ops laws env active nodes 0 (x ∷ es)
          (with_redis (ops.ltrim pending_tasks (pos (length (x ∷ es))) _ c.chain.redis) c) h w in
      record {
        queue =
            queue
            ∙ ap (λ q. q ++ refused env active 0 (x ∷ es))
                (ltrim_rest (length (x ∷ es)) c.chain.redis
                  ∙ ap (λ l. drop (length l) (waiting_in ops laws c)) e
                  ∙ drop-length-take (suc k) (waiting_in ops laws c))
            ∙ ap (λ l. drop (suc k) (waiting_in ops laws c) ++ refused env active 0 l) e;
        placed = rw (← e) placed;
        kept = λ t p. kept t (record {
          node = p.node;
          is_active = p.is_active;
          assigned = p.assigned;
          is_pending = p.is_pending;
        });
      }

  active-Round :
      (active : List ClusterNode) (k : ℕ) (c : Coordinator R Q)
      → 0 < length active
      → IsWithin active nodes
      → c.config.batch_size ≡ pos (suc k)
      → suc k < 9223372036854775808
      → Round active (suc k) c (distribute_active ops env active c)
  unfolding distribute_active
  active-Round [] k c h w size small = absurd (omega arith)
  active-Round (n ∷ ns) k c h w size small =
      let last : wrap64 (c.config.batch_size -ℤ pos 1) ≡ pos k = rw size (last_index k small) in
      rw (last, lrange_first k c.chain.redis) (fetched-Round (n ∷ ns) k c _ h w refl)

  -- A tick with an active node is a round of its active nodes.
  pub distribute_task_batch-Round :
      (present : List ClusterNode) (k : ℕ) (c : Coordinator R Q)
      → 0 < length (active_nodes present)
      → IsWithin (active_nodes present) nodes
      → c.config.batch_size ≡ pos (suc k)
      → suc k < 9223372036854775808
      → Round (active_nodes present) (suc k) c (distribute_task_batch ops env present c)
  unfolding distribute_task_batch
  distribute_task_batch-Round present k c h w size small =
      active-Round (active_nodes present) k c h w size small
