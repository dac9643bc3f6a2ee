-- ===== src/Lock/Exclusive.antt =====
-- lock/distributed_lock.go: no second client gets a lock while the first one has it.
use mathlib.Core.Path.{subst}
use go_backend_kit.Common.{
  String, Bool, true, false, Bool-cases, Option-cases, inl, inr, ◌≡◌, ◌≢◌, sym, ◌∙◌, ap, some, List,
  [], ◌∷◌, ◌<ℤ◌, Time, Duration, add_time, str_eq, eq_iff, arith, All,
}
use go_backend_kit.Lock.Types.{
  LockResult, Network, answered, lost_request, lost_answer, RedisOps, RedisLaws,
}
use go_backend_kit.Lock.Engine.{
  Moment, over_network, has_value, lock_key, ok, release_script, extend_script, acquire_lock,
  release_lock, extend_lock, acquire_answer, acquire_answer-state, release_answer-state,
  extend_answer-state,
}

-- The calls of all clients, in the order in which Redis executes them.
pub data Call : Type 0 where
  acquires : Moment → String → String → Duration → Call
  releases : Moment → LockResult → Call
  extends : Moment → LockResult → Duration → Call

over_network_cases :
    {R A : Type 0} (P : R → Type 0) (n : Network) (r : R) (x : R × A)
    → P r
    → P x.0
    → P (over_network n r x).0
unfolding over_network
over_network_cases P answered r x h k = k
over_network_cases P lost_request r x h k = h
over_network_cases P lost_answer r x h k = k

acquire_answer-ok :
    {R : Type 0} (k v : String) (until : Time) (n : Network) (r : R) (x : R × Bool) (l : LockResult)
    → (acquire_answer k v until (over_network n r x)).1 ≡ ok l
    → (l.acquired ≡ x.1) × ((acquire_answer k v until (over_network n r x)).0 ≡ x.0)
unfolding acquire_answer over_network
acquire_answer-ok k v until answered r x l e = ground (arith, e)
acquire_answer-ok k v until lost_request r x l e = cc
acquire_answer-ok k v until lost_answer r x l e = cc

module _ {R : Type 0} (ops : RedisOps R) where
  unfoldable pub step : Call → R → R
  unfolding acquire_lock release_lock extend_lock
  step (acquires at key v d) r = (acquire_lock ops at key v d r).0
  step (releases at l) r = (release_lock ops at l r).0
  step (extends at l d) r = (extend_lock ops at l d r).0

  unfoldable pub run : List Call → R → R
  unfolding step
  run [] r = r
  run (c ∷ cs) r = run cs (step c r)

-- A call that comes before `until` and does not release or extend the lock of `v` on `k`.
abbrev pub IsForeign : String → String → Time → Call → Type 0
IsForeign k v until (acquires at key u d) = at.now <ℤ until
IsForeign k v until (releases at l) = (at.now <ℤ until) × (l.key ≡ k → l.value ≢ v)
IsForeign k v until (extends at l d) = (at.now <ℤ until) × (l.key ≡ k → l.value ≢ v)

module _ {R : Type 0} (ops : RedisOps R) (laws : RedisLaws ops) where
  abbrev pub Holds : String → String → Time → R → Type 0
  Holds k v until r = laws.stored k r ≡ some (v, until)

  Holds-get_value :
      (k v : String) (until now : Time) (r : R)
      → Holds k v until r
      → now <ℤ until
      → ops.get_value now k r ≡ some v
  Holds-get_value k v until now r h lt = ground (arith, laws.get_value_stored now k r, h)

  set_nx-Holds :
      (k v : String) (until now : Time) (i u : String) (d : Duration) (r : R)
      → Holds k v until r
      → now <ℤ until
      → Holds k v until (ops.set_nx now i u d r).0
  set_nx-Holds k v until now i u d r h lt = elim (Bool-cases (str_eq k i)) [
    | inl b ↦
        subst (λ j. Holds k v until (ops.set_nx now j u d r).0) ((eq_iff k i).0 b)
          ((laws.set_nx_taken now k u v d r (Holds-get_value k v until now r h lt)).1 ∙ h)
    | inr b ↦ laws.set_nx_others now i k u d r (λ e. ground (arith, eq_iff k i)) ∙ h
  ]

  release_script-Holds :
      (k v : String) (until now : Time) (i u : String) (r : R)
      → Holds k v until r
      → now <ℤ until
      → (i ≡ k → u ≢ v)
      → Holds k v until (release_script ops now i u r).0
  unfolding release_script
  release_script-Holds k v until now i u r h lt ne = elim (Bool-cases (str_eq k i)) [
    | inl b ↦
        let p : k ≡ i = (eq_iff k i).0 b in
        subst (λ j. Holds k v until (release_script ops now j u r).0) p
          (rw (Holds-get_value k v until now r h lt) (ground (arith, h, eq_iff v u, ne (sym p))))
    | inr b ↦ elim (Bool-cases (has_value (ops.get_value now i r) u)) [
      | inl has ↦
          rw (has, release_script) (laws.del_others now i k r (λ e. ground (arith, eq_iff k i)) ∙ h)
      | inr has ↦ rw (has, release_script) h
    ]
  ]

  extend_script-Holds :
      (k v : String) (until now : Time) (i u : String) (d : Duration) (r : R)
      → Holds k v until r
      → now <ℤ until
      → (i ≡ k → u ≢ v)
      → Holds k v until (extend_script ops now i u d r).0
  unfolding extend_script
  extend_script-Holds k v until now i u d r h lt ne = elim (Bool-cases (str_eq k i)) [
    | inl b ↦
        let p : k ≡ i = (eq_iff k i).0 b in
        subst (λ j. Holds k v until (extend_script ops now j u d r).0) p
          (rw (Holds-get_value k v until now r h lt) (ground (arith, h, eq_iff v u, ne (sym p))))
    | inr b ↦ elim (Bool-cases (has_value (ops.get_value now i r) u)) [
      | inl has ↦
          rw (has, extend_script)
            (laws.expire_others now i k _ r (λ e. ground (arith, eq_iff k i)) ∙ h)
      | inr has ↦ rw (has, extend_script) h
    ]
  ]

  acquire_lock-Holds :
      (k v : String) (until : Time) (at : Moment) (key u : String) (d : Duration) (r : R)
      → Holds k v until r
      → at.now <ℤ until
      → Holds k v until (acquire_lock ops at key u d r).0
  unfolding acquire_lock
  acquire_lock-Holds k v until at key u d r h lt =
      subst (Holds k v until) (sym (acquire_answer-state (lock_key key) u (add_time at.after d) _))
        (over_network_cases (Holds k v until) at.network r (ops.set_nx at.now (lock_key key) u d r)
          h (set_nx-Holds k v until at.now (lock_key key) u d r h lt))

  step-Holds :
      (k v : String) (until : Time) (c : Call) (r : R)
      → IsForeign k v until c
      → Holds k v until r
      → Holds k v until (step ops c r)
  unfolding step
  step-Holds k v until (acquires at key u d) r lt h = acquire_lock-Holds k v until at key u d r h lt
  step-Holds k v until (releases at l) r (lt, ne) h =
      subst (Holds k v until) (sym (release_answer-state _)) (
        over_network_cases (Holds k v until) at.network r
          (release_script ops at.now l.key l.value r) h
          (release_script-Holds k v until at.now l.key l.value r h lt ne))
  step-Holds k v until (extends at l d) r (lt, ne) h =
      subst (Holds k v until) (sym (extend_answer-state l (add_time at.after d) _)) (
        over_network_cases (Holds k v until) at.network r
          (extend_script ops at.now l.key l.value d r) h
          (extend_script-Holds k v until at.now l.key l.value d r h lt ne))

  run-Holds :
      (k v : String) (until : Time) (cs : List Call) (r : R)
      → All (IsForeign k v until) cs
      → Holds k v until r
      → Holds k v until (run ops cs r)
  unfolding run
  run-Holds k v until [] r foreign h = h
  run-Holds k v until (c ∷ cs) r (e, es) h =
      run-Holds k v until cs (step ops c r) es (step-Holds k v until c r e h)

  -- Redis gives a lock only if it is free, and then the client holds it.
  pub acquire_lock-first :
      (at : Moment) (key v : String) (d : Duration) (r : R) (l : LockResult)
      → (acquire_lock ops at key v d r).1 ≡ ok l
      → l.acquired ≡ true
      → Holds (lock_key key) v (add_time at.now d) (acquire_lock ops at key v d r).0
  unfolding acquire_lock
  acquire_lock-first at key v d r l e got =
      let k = lock_key key in
      let (same, state) =
        acquire_answer-ok k v (add_time at.after d) at.network r (ops.set_nx at.now k v d r) l e in
      elim (Option-cases (ops.get_value at.now k r)) [
        | inl free ↦ ap (laws.stored k) state ∙ (laws.set_nx_free at.now k v d r free).1
        | inr (u, taken) ↦ ground (arith, got, same, (laws.set_nx_taken at.now k v u d r taken).0)
      ]

  -- While a lock is held, a second attempt fails.
  acquire_lock-second :
      (at : Moment) (key v u : String) (until : Time) (d : Duration) (r : R) (l : LockResult)
      → Holds (lock_key key) v until r
      → at.now <ℤ until
      → (acquire_lock ops at key u d r).1 ≡ ok l
      → l.acquired ≡ false
  unfolding acquire_lock
  acquire_lock-second at key v u until d r l h lt e =
      let k = lock_key key in
      let (same, state) =
        acquire_answer-ok k u (add_time at.after d) at.network r (ops.set_nx at.now k u d r) l e in
      same ∙ (laws.set_nx_taken at.now k u v d r (Holds-get_value k v until at.now r h lt)).0

  -- Over any Redis with the Redis laws: after a client has been told that it acquired a lock,
  -- through any sequence of calls before the lock runs out in which nobody releases or extends it in
  -- the name of its value, Redis keeps that value, and an attempt of any client before that time
  -- that is answered is told that the lock was not acquired.
  pub mutual_exclusion :
      (at : Moment) (key v : String) (d : Duration) (r : R) (l : LockResult) (cs : List Call)
      (at' : Moment) (u : String) (d' : Duration) (l' : LockResult)
      → (acquire_lock ops at key v d r).1 ≡ ok l
      → l.acquired ≡ true
      → All (IsForeign (lock_key key) v (add_time at.now d)) cs
      → at'.now <ℤ add_time at.now d
      → let r' = run ops cs (acquire_lock ops at key v d r).0 in
        (ops.get_value at'.now (lock_key key) r' ≡ some v)
        × ((acquire_lock ops at' key u d' r').1 ≡ ok l' → l'.acquired ≡ false)
  mutual_exclusion at key v d r l cs at' u d' l' e got foreign lt =
      let until = add_time at.now d in
      let r' = run ops cs (acquire_lock ops at key v d r).0 in
      let held : Holds (lock_key key) v until r' =
        run-Holds (lock_key key) v until cs (acquire_lock ops at key v d r).0 foreign
          (acquire_lock-first at key v d r l e got) in
      (
        Holds-get_value (lock_key key) v until at'.now r' held lt,
        acquire_lock-second at' key v u until d' r' l' held lt,
      )
