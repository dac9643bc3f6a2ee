-- ===== src/Cluster/Counted.antt =====
-- crawler/distributed/batch_middleware.go: what one result makes of the counter of its batch.
use native.Mathlib.Decide.{dec_lt}
use go_backend_kit.Common.{
  ℕ, suc, ◌+◌, ◌*◌, ◌≤◌, ◌<◌, String, true, false, ◌≡◌, refl, ap, ◌∙◌, [], ◌∷◌, pos, leb_ℤ,
  Duration, eq_iff, arith, zero, ◌⊎◌, inl, inr, Time, ◌≤ℤ◌, add_time,
}
use go_backend_kit.Cluster.Types.{
  TaskResult, completed_tasks, batch_processed, batch_completed, RedisOps,
}
use go_backend_kit.Cluster.Counters.{
  CounterLaws, announces, count_announced, count_announced-append, two_hours, IsAlive, IsTimed,
}
use go_backend_kit.Cluster.Chain.{
  set_ttl, finish_batch, publish_batch_complete_event, batch_event_metadata,
}

module _ {R : Type 0} (ops : RedisOps R) (laws : CounterLaws ops) where
  open laws use {
    processed, completed, deadline, clock, at_time, time_passes, incr_next, expire_sets, del_zero,
    rpush_last,
  }

  set_ttl-later :
      (b : String) (ttl : Duration) (j : ℕ) (r : R) → set_ttl ops b ttl (pos (suc (suc j))) r ≡ r
  unfolding set_ttl
  set_ttl-later b ttl j r = ground arith

  -- After the increment the expiry is set for the first result, and stays for the others.
  set_ttl-IsAlive :
      (b : String) (finish : Time) (j : ℕ) (r : R)
      → processed b r ≡ suc j
      → finish ≤ℤ add_time (clock r) two_hours
      → (j ≡ 0) ⊎ IsAlive ops laws b finish r
      → (processed b (set_ttl ops b two_hours (pos (suc j)) r) ≡ processed b r)
        × (completed (set_ttl ops b two_hours (pos (suc j)) r) ≡ completed r)
        × (clock (set_ttl ops b two_hours (pos (suc j)) r) ≡ clock r)
        × IsAlive ops laws b finish (set_ttl ops b two_hours (pos (suc j)) r)
  unfolding set_ttl
  set_ttl-IsAlive b finish zero r count h a =
      let (same, same', expires, clock_same) = expire_sets b 7199 r (omega (arith, count)) in
      (
        same,
        same',
        clock_same,
        record {
          until = add_time (clock r) two_hours;
          expires = expires;
          lasts = h;
          ends = rw clock_same (omega arith);
        },
      )
  set_ttl-IsAlive b finish (suc j) r count h (inl e) = absurd (omega arith)
  set_ttl-IsAlive b finish (suc j) r count h (inr a) =
      rw (set_ttl-later b two_hours j r) (refl, refl, refl, a)

  -- The last result of a batch announces it and clears the counter.
  finish_batch-last :
      (n k : ℕ) (r : TaskResult) (s : R)
      → r.batch_size ≡ pos n
      → n ≤ k
      → (processed r.batch_id (finish_batch ops r (pos k) s) ≡ 0)
        × (count_announced r.batch_id (completed (finish_batch ops r (pos k) s))
            ≡ suc (count_announced r.batch_id (completed s)))
        × (clock (finish_batch ops r (pos k) s) ≡ clock s)
  unfolding finish_batch publish_batch_complete_event
  finish_batch-last n k r s size h =
      let e = batch_completed r.batch_id (batch_event_metadata r) in
      let done : leb_ℤ r.batch_size (pos k) ≡ true = rw size (ground arith) in
      let cleared = del_zero r.batch_id (ops.rpush completed_tasks e s).0 in
      let announced : announces r.batch_id e ≡ 1 = ground (arith, eq_iff r.batch_id r.batch_id) in
      rw done (
        cleared.0,
        ap (count_announced r.batch_id) (cleared.1 ∙ (rpush_last r.batch_id e s).1)
            ∙ count_announced-append r.batch_id (completed s) (e ∷ [])
            ∙ omega (arith, announced),
        cleared.2 ∙ (rpush_last r.batch_id e s).2,
      )

  finish_batch-before :
      (n k : ℕ) (r : TaskResult) (s : R)
      → r.batch_size ≡ pos n
      → k < n
      → finish_batch ops r (pos k) s ≡ s
  unfolding finish_batch
  finish_batch-before n k r s size h =
      let early : leb_ℤ r.batch_size (pos k) ≡ false = rw size (ground arith) in rw early refl

  -- How far the batches of an identifier are, in results.
  abbrev pub progress : String → ℕ → R → ℕ
  progress b n s = n * count_announced b (completed s) + processed b s

  -- What a result of a batch makes of Redis.
  abbrev pub after_result : TaskResult → R → R
  after_result r s = finish_batch ops r (pos (suc (processed r.batch_id s))) (
      set_ttl ops r.batch_id two_hours (pos (suc (processed r.batch_id s)))
        (ops.incr (batch_processed r.batch_id) s).0)

  -- The counter that is there before a result keeps its expiry; the first result sets it.
  IsAlive-before :
      (b : String) (finish : Time) (s : R)
      → IsTimed ops laws b finish s
      → (processed b s ≡ 0) ⊎ IsAlive ops laws b finish (ops.incr (batch_processed b) s).0
  IsAlive-before b finish s (inl e) = inl e
  IsAlive-before b finish s (inr a) =
      let (_, _, _, same, clock_same) = incr_next b s in
      inr (record {
        until = a.until;
        expires = same ∙ a.expires;
        lasts = a.lasts;
        ends = rw clock_same a.ends;
      })

  -- Below its size a batch stays counted, with its expiry; at its size it is announced.
  pub after_result-counts :
      (finish : Time) (n : ℕ) (r : TaskResult) (s : R)
      → r.batch_size ≡ pos n
      → processed r.batch_id s < n
      → finish ≤ℤ add_time (clock s) two_hours
      → IsTimed ops laws r.batch_id finish s
      → (processed r.batch_id (after_result r s) < n)
        × (progress r.batch_id n (after_result r s) ≡ suc (progress r.batch_id n s))
        × (clock (after_result r s) ≡ clock s)
        × IsTimed ops laws r.batch_id finish (after_result r s)
  after_result-counts finish n r s size h near timed =
      let j = processed r.batch_id s in
      let counted = (ops.incr (batch_processed r.batch_id) s).0 in
      let s' = set_ttl ops r.batch_id two_hours (pos (suc j)) counted in
      let (_, more, same, _, clock_same) = incr_next r.batch_id s in
      let (more', same', clock_same', alive) =
        set_ttl-IsAlive r.batch_id finish j counted more (rw clock_same near)
          (IsAlive-before r.batch_id finish s timed) in
      let events : count_announced r.batch_id (completed s')
          ≡ count_announced r.batch_id (completed s) =
        ap (count_announced r.batch_id) (same' ∙ same) in
      elim (dec_lt (suc j) n) [
        | yes early ↦ rw (finish_batch-before n (suc j) r s' size early) (
          omega (arith, more', more),
          rw (events, more' ∙ more) (omega arith),
          clock_same' ∙ clock_same,
          inr alive,
        )
        | no late ↦
            let (cleared, announced, clock_last) =
              finish_batch-last n (suc j) r s' size (omega arith) in
            (
              omega (arith, cleared),
              rw (announced, events, cleared) (omega arith),
              clock_last ∙ clock_same' ∙ clock_same,
              inl cleared,
            )
      ]
