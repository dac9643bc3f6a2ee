-- ===== src/Lock/Scoped.antt =====
-- lock/distributed_lock.go: running under the lock, extending it, and trying again.
use go_backend_kit.Common.{
  String, true, inl, inr, ◌≡◌, ◌∙◌, ap, Option, none, some, List, [], ◌∷◌, ℕ, ◌<◌, pos, Duration,
  add_time, eq_iff, arith, eq_of_parts, +ℤ_parts, seconds, ◌+ℤ◌, ◌/◌,
}
use go_backend_kit.Lock.Types.{
  LockResult, answered, not_acquired, RedisOps, RedisLaws, whole_seconds,
}
use go_backend_kit.Lock.Engine.{
  Moment, over_network, lock_key, ok, fails, release_script, extend_script, acquire_answer,
  release_answer, extend_answer, acquire_lock, release_lock, extend_lock, run_locked, with_lock,
  try_lock, try_next_cases,
}
use go_backend_kit.Lock.Exclusive.{Holds, acquire_lock-first}

module _ {R : Type 0} (ops : RedisOps R) (laws : RedisLaws ops) where
  -- Over any Redis with the Redis laws, an answered extension by the holder succeeds, the client
  -- notes the requested duration from its own clock on, and Redis keeps the lock for the whole
  -- seconds of that duration from its clock on.
  pub extend_lock_lem :
      (at : Moment) (l : LockResult) (d : Duration) (r : R)
      → at.network ≡ answered
      → ops.get_value at.now l.key r ≡ some l.value
      → let x = extend_lock ops at l d r in
        (x.2 ≡ none)
        × (x.1.expires_at ≡ add_time at.after d)
        × Holds ops laws l.key l.value (add_time at.now (whole_seconds d)) x.0
  unfolding extend_lock extend_script over_network extend_answer
  extend_lock_lem at l d r n e =
      let (done, stored) = laws.expire_key at.now l.key l.value (whole_seconds d) r e in
      ground (arith, n, e, done, stored, eq_iff l.value l.value)

  -- Over any Redis with the Redis laws, an answered extension by the holder, by less than a second,
  -- reports success although Redis does not have the value any more.
  pub extend_lock-short :
      (at : Moment) (l : LockResult) (n : ℕ) (r : R)
      → at.network ≡ answered
      → ops.get_value at.now l.key r ≡ some l.value
      → n < 1000000000
      → let x = extend_lock ops at l (pos n) r in
        (x.2 ≡ none) × (ops.get_value at.now l.key x.0 ≡ none)
  unfolding whole_seconds
  extend_lock-short at l n r net e lt =
      let (fine, _, held) = extend_lock_lem at l (pos n) r net e in
      let none_left : n / 1000000000 ≡ 0 = omega arith in
      let ends : at.now +ℤ seconds (pos (n / 1000000000)) ≡ at.now =
        eq_of_parts _ at.now (rw none_left (omega (arith, +ℤ_parts at.now (pos 0)))) in
      let stored : laws.stored l.key (extend_lock ops at l (pos n) r).0 ≡ some (l.value, at.now) =
        held ∙ ap (λ t. some (l.value, t)) ends in
      (
        fine,
        laws.get_value_stored at.now l.key (extend_lock ops at l (pos n) r).0
            ∙ rw stored (ground arith),
      )

  -- Over any Redis with the Redis laws, if both calls are answered: a function that is to run under
  -- a free lock runs, and if its end finds the value still there, its result is returned and the
  -- lock is free; if the lock is taken, the call fails and the lock is as it was.
  pub with_lock_lem :
      {A : Type 0} (at done : Moment) (key v : String) (d : Duration) (fn : R → R × A) (r : R)
      (u : String)
      → at.network ≡ answered
      → done.network ≡ answered
      → let k = lock_key key in
        let x = with_lock ops at done key v d fn r in
        let inside = (ops.set_nx at.now k v d r).0 in
        (ops.get_value at.now k r ≡ none
          → ops.get_value done.now k (fn inside).0 ≡ some v
          → (x.1 ≡ ok (fn inside).1) × (laws.stored k x.0 ≡ none))
        × (ops.get_value at.now k r ≡ some u
            → (x.1 ≡ fails not_acquired) × (laws.stored k x.0 ≡ laws.stored k r))
  unfolding with_lock run_locked acquire_lock release_lock release_script over_network
      acquire_answer release_answer
  with_lock_lem at done key v d fn r u n m =
      let k = lock_key key in
      (
        λ free kept.
            let (got, stored) = laws.set_nx_free at.now k v d r free in
            ground (
              arith,
              n,
              m,
              got,
              kept,
              eq_iff v v,
              laws.del_key done.now k (fn (ops.set_nx at.now k v d r).0).0,
            ),
        λ taken.
            let (refused, same) = laws.set_nx_taken at.now k v u d r taken in
            ground (arith, n, m, refused, same),
      )

  -- Over any Redis with the Redis laws, a `TryLock` that returns a lock returns one that is
  -- acquired, and Redis has its value from the time of one of the attempts on for the requested
  -- duration.
  pub try_lock_lem :
      (ats : List (Option Moment)) (key v : String) (d : Duration) (r : R) (l : LockResult)
      → (try_lock ops ats key v d r).1 ≡ ok l
      → (l.acquired ≡ true)
        × (at : Moment) × Holds ops laws
            (lock_key key)
            v
            (add_time at.now d)
            (try_lock ops ats key v d r).0
  unfolding try_lock
  try_lock_lem [] key v d r l e = cc
  try_lock_lem (none ∷ ats) key v d r l e = cc
  try_lock_lem (some at ∷ ats) key v d r l e =
      let rest = λ (r' : R). try_lock ops ats key v d r' in
      let x = acquire_lock ops at key v d r in
      elim (try_next_cases rest x l e) [
        | inl (first, got, same) ↦ (
          got,
          at,
          ap (λ y. laws.stored (lock_key key) y.0) same
              ∙ acquire_lock-first ops laws at key v d r l first got,
        )
        | inr (later, same) ↦
            let (got, at', held) = try_lock_lem ats key v d x.0 l later in
            (got, at', ap (λ y. laws.stored (lock_key key) y.0) same ∙ held)
      ]
