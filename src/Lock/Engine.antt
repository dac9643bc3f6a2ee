-- ===== src/Lock/Engine.antt =====
-- lock/distributed_lock.go: the methods of `DistributedLock`.
-- A client reads its clock (`after`) when Redis has answered at its own time (`now`).
use Prim.Native.String.{◌++◌ as join_text}
use go_backend_kit.Common.{
  ◌≡◌, refl, ◌⊎◌, inl, inr, Bool-cases, arith, String, Bool, true, false, Option, none, some, List,
  [], ◌∷◌, Time, Duration, add_time, str_eq, is_some, if◌then◌else◌,
}
use go_backend_kit.Lock.Types.{
  LockResult, Network, answered, lost_request, lost_answer, LockError, redis_failed, not_extended,
  not_acquired, context_done, RedisOps, whole_seconds,
}

-- The times of a call: Redis executes it, and the client has the answer.
pub record Moment : Type 0 where
  pub now : Time
  pub after : Time
  pub network : Network

-- The state after a call that may fail on the way there or back.
unfoldable pub over_network : {R A : Type 0} → Network → R → R × A → R × Option A
over_network answered r (r', a) = (r', some a)
over_network lost_request r (r', a) = (r, none)
over_network lost_answer r (r', a) = (r', none)

abbrev pub has_value : Option String → String → Bool
has_value none v = false
has_value (some u) v = str_eq u v

unfoldable pub lock_key : String → String
lock_key key = join_text "lock:" key

-- A call's result: a value or an error.
pub data Result (A : Type 0) : Type 0 where
  ok : A → Result A
  fails : LockError → Result A

-- What a client makes of Redis' answer.
module _ {R : Type 0} where
  unfoldable pub acquire_answer : String → String → Time → R × Option Bool → R × Result LockResult
  acquire_answer k v until (r, none) = (r, fails redis_failed)
  acquire_answer k v until (r, some acquired) =
      (r, ok (record { key = k; value = v; acquired = acquired; expires_at = until }))

  pub acquire_answer-state :
      (k v : String) (until : Time) (x : R × Option Bool) → (acquire_answer k v until x).0 ≡ x.0
  unfolding acquire_answer
  acquire_answer-state k v until (r, none) = refl
  acquire_answer-state k v until (r, some b) = refl

  -- Whether the lock was released is only logged; `none` is success.
  unfoldable pub release_answer : R × Option Bool → R × Option LockError
  release_answer (r, none) = (r, some redis_failed)
  release_answer (r, some released) = (r, none)

  pub release_answer-state : (x : R × Option Bool) → (release_answer x).0 ≡ x.0
  unfolding release_answer
  release_answer-state (r, none) = refl
  release_answer-state (r, some b) = refl

  unfoldable pub extend_answer :
      LockResult → Time → R × Option Bool → R × LockResult × Option LockError
  extend_answer l until (r, none) = (r, l, some redis_failed)
  extend_answer l until (r, some true) = (r, record l { expires_at = until }, none)
  extend_answer l until (r, some false) = (r, l, some not_extended)

  pub extend_answer-state :
      (l : LockResult) (until : Time) (x : R × Option Bool) → (extend_answer l until x).0 ≡ x.0
  unfolding extend_answer
  extend_answer-state l until (r, none) = refl
  extend_answer-state l until (r, some true) = refl
  extend_answer-state l until (r, some false) = refl

  -- The end of an attempt of `TryLock`, `rest` being the attempts that are left.
  unfoldable pub try_next :
      (R → R × Result LockResult) → R × Result LockResult → R × Result LockResult
  try_next rest (r, fails e) = (r, fails e)
  try_next rest (r, ok l) = if l.acquired then (r, ok l) else rest r

  pub try_next_cases :
      (rest : R → R × Result LockResult) (x : R × Result LockResult) (l : LockResult)
      → (try_next rest x).1 ≡ ok l
      → ((x.1 ≡ ok l) × (l.acquired ≡ true) × (try_next rest x ≡ x))
        ⊎ (((rest x.0).1 ≡ ok l) × (try_next rest x ≡ rest x.0))
  unfolding try_next
  try_next_cases rest (r, fails e) l h = cc
  try_next_cases rest (r, ok m) l h = elim (Bool-cases m.acquired) [
    | inl b ↦ inl (ground (arith, h, b))
    | inr b ↦ inr (ground (arith, h, b))
  ]

module _ {R : Type 0} (ops : RedisOps R) where
  -- The Lua script of `ReleaseLock`: delete the key if it has the value.
  unfoldable pub release_script : Time → String → String → R → R × Bool
  release_script now k v r =
      if has_value (ops.get_value now k r) v then ops.del now k r else (r, false)

  -- The Lua script of `ExtendLock`.
  unfoldable pub extend_script : Time → String → String → Duration → R → R × Bool
  unfolding whole_seconds
  extend_script now k v d r =
      if has_value (ops.get_value now k r) v
      then ops.expire now k (whole_seconds d) r
      else (r, false)

  unfoldable pub acquire_lock : Moment → String → String → Duration → R → R × Result LockResult
  unfolding lock_key over_network acquire_answer
  acquire_lock at key v d r =
      let k = lock_key key in
      acquire_answer k v (add_time at.after d)
        (over_network at.network r (ops.set_nx at.now k v d r))

  unfoldable pub release_lock : Moment → LockResult → R → R × Option LockError
  unfolding release_script over_network release_answer
  release_lock at l r =
      release_answer (over_network at.network r (release_script at.now l.key l.value r))

  unfoldable pub extend_lock :
      Moment → LockResult → Duration → R → R × LockResult × Option LockError
  unfolding extend_script over_network extend_answer
  extend_lock at l d r =
      extend_answer l (add_time at.after d)
        (over_network at.network r (extend_script at.now l.key l.value d r))

  unfoldable pub is_locked : Moment → String → R → R × Result Bool
  unfolding lock_key over_network
  is_locked at key r =
      let (r', a) =
        over_network at.network r (r, is_some (ops.get_value at.now (lock_key key) r)) in
      elim a [ none ↦ (r', fails redis_failed) | some b ↦ (r', ok b) ]

  -- One attempt after another, one for each element: `maxRetries + 1` of them. `none` is a wait
  -- that the context ends.
  unfoldable pub try_lock :
      List (Option Moment) → String → String → Duration → R → R × Result LockResult
  unfolding acquire_lock try_next
  try_lock [] key v d r = (r, fails not_acquired)
  try_lock (none ∷ ats) key v d r = (r, fails context_done)
  try_lock (some at ∷ ats) key v d r =
      try_next (λ r'. try_lock ats key v d r') (acquire_lock at key v d r)

  -- `fn` runs between the acquisition and the release, and may change Redis.
  unfoldable pub run_locked : {A : Type 0} → Moment → (R → R × A) → LockResult → R → R × Result A
  unfolding release_lock
  run_locked at fn l r =
      if l.acquired
      then (let (r', a) = fn r in ((release_lock at l r').0, ok a))
      else (r, fails not_acquired)

  -- `WithLockT`; `WithLock` is the case of a function that only returns an error.
  unfoldable pub with_lock :
      {A : Type 0} → Moment → Moment → String → String → Duration → (R → R × A) → R → R × Result A
  unfolding acquire_lock run_locked
  with_lock at done key v d fn r =
      let (r', a) = acquire_lock at key v d r in
      elim a [ fails e ↦ (r', fails e) | ok l ↦ run_locked done fn l r' ]
