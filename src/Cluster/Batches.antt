-- ===== src/Cluster/Batches.antt =====
-- crawler/distributed/batch_middleware.go: a batch is announced once all its results are counted.
use mathlib.Core.Option.{some-injective}
use go_backend_kit.Common.{
  ℕ, suc, ◌+◌, ◌*◌, ◌<◌, String, false, ◌≡◌, ◌≢◌, refl, sym, ap, ◌∙◌, Option, none, some, List, [],
  ◌∷◌, ℤ, pos, Duration, seconds, str_eq, eq_iff, length, All, arith, Time, ◌≤ℤ◌, add_time,
}
use go_backend_kit.Cluster.Types.{TaskResult, batch_processed, RedisOps}
use go_backend_kit.Cluster.Counters.{
  CounterLaws, count_announced, IsOf, InOrder, last_time, two_hours, IsTimed, at_time-IsTimed,
  at_time-gone, add_time_le, le_trans,
}
use go_backend_kit.Cluster.Chain.{
  Middleware, Next, ChainState, execute, add_middleware, metrics_process, batch_process,
  counted_batch, set_ttl, finish_batch, default_middleware,
}
use go_backend_kit.Cluster.Counted.{progress, after_result, after_result-counts}

-- The results, one after another, through the coordinator's middleware, each with Redis at its
-- time.
unfoldable pub execute_each :
    {R : Type 0}
    → (Time → R → R)
    → List (Middleware (ChainState R))
    → List (Time × TaskResult)
    → ChainState R
    → ChainState R
execute_each at_time ms [] s = s
execute_each at_time ms ((now, r) ∷ rs) s =
    execute_each at_time ms rs (execute ms r (record s { redis = at_time now s.redis })).0

module _ {R : Type 0} (ops : RedisOps R) (laws : CounterLaws ops) where
  open laws use {
    processed, completed, deadline, clock, at_time, time_passes, incr_next, expire_sets, del_zero,
    rpush_last,
  }

  metrics-redis :
      (r : TaskResult) (s : ChainState R) → (execute (metrics_process ∷ []) r s).0.redis ≡ s.redis
  unfolding execute metrics_process
  metrics-redis r s = ground arith

  counted_batch-some :
      (ttl : Duration) (r : TaskResult) (next : Next (ChainState R)) (s : ChainState R)
      (x : R × Option ℤ) (k : ℤ)
      → x.1 ≡ some k
      → counted_batch ops ttl r next s x
        ≡ next (record s { redis = finish_batch ops r k (set_ttl ops r.batch_id ttl k x.0) })
  unfolding counted_batch
  counted_batch-some ttl r next s (redis, none) k h = cc
  counted_batch-some ttl r next s (redis, some c) k h =
      ap
        (λ k. next (record s { redis = finish_batch ops r k (set_ttl ops r.batch_id ttl k redis) }))
        (some-injective c k h)

  -- A result that succeeds, through the coordinator's middleware.
  default_middleware-redis :
      (r : TaskResult) (s : ChainState R)
      → r.batch_id ≢ ""
      → (execute (default_middleware ops) r s).0.redis ≡ after_result ops laws r s.redis
  unfolding execute default_middleware batch_process add_middleware
  default_middleware-redis r s h =
      let named : str_eq r.batch_id "" ≡ false = ground (arith, eq_iff r.batch_id "") in
      rw named (
        ap (λ x. x.0.redis)
          (counted_batch-some (seconds (pos 7200)) r (execute (metrics_process ∷ []) r) s
            (ops.incr (batch_processed r.batch_id) s.redis)
            (pos (suc (processed r.batch_id s.redis))) (incr_next r.batch_id s.redis).0)
        ∙ metrics-redis r _)

  -- One result at its time.
  step_result :
      (b : String) (finish : Time) (n : ℕ) (now : Time) (r : TaskResult) (s : ChainState R)
      → b ≢ ""
      → IsOf b n r
      → clock s.redis ≤ℤ now
      → now ≤ℤ finish
      → finish ≤ℤ add_time now two_hours
      → processed b s.redis < n
      → IsTimed ops laws b finish s.redis
      → (processed b
            (execute (default_middleware ops) r (record s { redis = at_time now s.redis })).0.redis
          < n)
        × (progress ops laws b n
              (execute
                (default_middleware ops)
                r
                (record s { redis = at_time now s.redis })).0.redis
            ≡ suc (progress ops laws b n s.redis))
        × (clock
              (execute
                (default_middleware ops)
                r
                (record s { redis = at_time now s.redis })).0.redis
            ≡ now)
        × IsTimed ops laws b finish
            (execute (default_middleware ops) r (record s { redis = at_time now s.redis })).0.redis
  step_result b finish n now r s named (same, size) moves before_end near few timed =
      let s1 = record s { redis = at_time now s.redis } in
      let (clock_now, events) = time_passes now s.redis moves in
      let (count, timed1) = at_time-IsTimed ops laws b finish now s.redis moves before_end timed in
      let at_id : processed r.batch_id s1.redis < n = rw same (omega (arith, count)) in
      let (few', more, clock_same, timed') =
        after_result-counts ops laws finish n r s1.redis size at_id (rw clock_now near)
          (rw same timed1) in
      let after = default_middleware-redis r s1 (λ e. named (sym same ∙ e)) in
      rw (after, ← same)
        (few', more ∙ rw (same, events, count) refl, clock_same ∙ clock_now, timed')

  -- All results that come in time, whatever was counted before.
  results_in_time :
      (b : String) (finish : Time) (n : ℕ) (rs : List (Time × TaskResult)) (s : ChainState R)
      → b ≢ ""
      → All (λ e. IsOf b n e.1) rs
      → InOrder (clock s.redis) finish rs
      → finish ≤ℤ add_time (clock s.redis) two_hours
      → processed b s.redis < n
      → IsTimed ops laws b finish s.redis
      → (processed b (execute_each at_time (default_middleware ops) rs s).redis < n)
        × (progress ops laws b n (execute_each at_time (default_middleware ops) rs s).redis
            ≡ progress ops laws b n s.redis + length rs)
        × (clock (execute_each at_time (default_middleware ops) rs s).redis
            ≡ last_time (clock s.redis) rs)
        × IsTimed ops laws b finish (execute_each at_time (default_middleware ops) rs s).redis
  unfolding execute_each
  results_in_time b finish n [] s named h ordered near few timed = (few, omega arith, refl, timed)
  results_in_time b finish n ((now, r) ∷ rs) s named (h, rest) (moves, before_end, ordered) near few
        timed =
      let s' = (execute (default_middleware ops) r (record s { redis = at_time now s.redis })).0 in
      let near_now : finish ≤ℤ add_time now two_hours =
        le_trans finish (add_time (clock s.redis) two_hours) (add_time now two_hours) near
          (add_time_le (clock s.redis) now two_hours moves) in
      let (few', more, clock_now, timed') =
        step_result b finish n now r s named h moves before_end near_now few timed in
      let (fits, counts, last, end_timed) =
        results_in_time b finish n rs s' named rest (rw clock_now ordered) (rw clock_now near_now)
          few' timed' in
      (fits, counts ∙ omega (arith, more), last ∙ ap (λ t. last_time t rs) clock_now, end_timed)

  -- Over any Redis with the counter laws, let results of one named batch go through the default
  -- middleware in the order of their times, up to a time at most two hours ahead, with fewer than
  -- the batch size counted before and any earlier count expiring within two hours but not before
  -- that time. Then fewer than the batch size are counted, the batch size times the announcements of
  -- the batch plus the count has grown by exactly the number of results, and two hours and a
  -- millisecond after the last result no count is left.
  pub batch_results :
      (b : String) (finish : Time) (n : ℕ) (rs : List (Time × TaskResult)) (s : ChainState R)
      (late : Time)
      → b ≢ ""
      → All (λ e. IsOf b n e.1) rs
      → InOrder (clock s.redis) finish rs
      → finish ≤ℤ add_time (clock s.redis) two_hours
      → processed b s.redis < n
      → IsTimed ops laws b finish s.redis
      → add_time (last_time (clock s.redis) rs) (pos 7200001000000) ≤ℤ late
      → (processed b (execute_each at_time (default_middleware ops) rs s).redis < n)
        × (n
                * count_announced b
                    (completed (execute_each at_time (default_middleware ops) rs s).redis)
              + processed b (execute_each at_time (default_middleware ops) rs s).redis
            ≡ n * count_announced b (completed s.redis) + processed b s.redis + length rs)
        × (processed b (at_time late (execute_each at_time (default_middleware ops) rs s).redis)
            ≡ 0)
  batch_results b finish n rs s late named h ordered near few timed past =
      let (fits, counts, last, end_timed) =
        results_in_time b finish n rs s named h ordered near few timed in
      (
        fits,
        counts,
        at_time-gone ops laws b finish late
            (execute_each at_time (default_middleware ops) rs s).redis (rw last past) end_timed,
      )
