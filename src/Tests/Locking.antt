-- ===== src/Tests/Locking.antt =====
-- lock/distributed_lock.go at concrete inputs, with a small Redis.
use go_backend_kit.Common.{
  ℕ, ◌+◌, String, Bool, true, false, ◌≡◌, refl, ◌≢◌, none, some, Option, List, [], ◌∷◌, pos, ◌+ℤ◌,
  seconds, Time, Duration, add_time, Dict, get, put, delete, get-put, get-delete, string_key,
  eq_iff, arith, is_some, Option-cases, inl, inr,
}
use go_backend_kit.Lock.{
  LockResult, answered, RedisOps, RedisLaws, value_at, Moment, ok, fails, not_acquired, lock_key,
  acquire_lock, with_lock, over_network, acquire_answer,
}
use go_backend_kit.Lock.Exclusive.{Call, acquires, releases, run, mutual_exclusion}
use go_backend_kit.Lock.Scoped.{with_lock_lem}

abbrev Store : Type 0
Store = Dict String (String × Time)

abbrev set_if : Option String → String → String → Time → Store → Store × Bool
set_if none k v until r = (put k (v, until) r, true)
set_if (some u) k v until r = (r, false)

abbrev expire_if : Option String → String → Time → Store → Store × Bool
expire_if none k until r = (r, false)
expire_if (some v) k until r = (put k (v, until) r, true)

abbrev redis : RedisOps Store
redis = record {
  get_value = λ now k r. value_at now (get k r);
  set_nx = λ now k v d r. set_if (value_at now (get k r)) k v (add_time now d) r;
  del = λ now k r. (delete k r, is_some (value_at now (get k r)));
  expire = λ now k d r. expire_if (value_at now (get k r)) k (add_time now d) r;
}

expire_others :
    (now : Time) (k i : String) (d : Duration) (r : Store)
    → i ≢ k
    → get i (redis.expire now k d r).0 ≡ get i r
expire_others now k i d r ne = elim (Option-cases (value_at now (get k r))) [
  | inl e ↦ rw e refl
  | inr (v, e) ↦ rw e (ground (arith, get-put i k (v, add_time now d) r, eq_iff k i))
]

redis_laws : RedisLaws redis
redis_laws = record {
  stored = λ k r. get k r;
  get_value_stored = λ now k r. refl;
  set_nx_free = λ now k v d r e. ground (arith, e, get-put k k (v, add_time now d) r, eq_iff k k);
  set_nx_taken = λ now k v u d r e. ground (arith, e);
  set_nx_others = λ now k i v d r ne. ground (arith, get-put i k (v, add_time now d) r, eq_iff k i);
  del_key = λ now k r. ground (arith, get-delete k k r, eq_iff k k);
  del_others = λ now k i r ne. ground (arith, get-delete i k r, eq_iff k i);
  expire_key = λ now k v d r e. ground (arith, e, get-put k k (v, add_time now d) r, eq_iff k k);
  expire_others = expire_others;
}

abbrev at : ℕ → Moment
at n = record { now = seconds (pos n); after = seconds (pos (n + 1)); network = answered }

abbrev first : LockResult
first = record {
  key = lock_key "jobs";
  value = "a";
  acquired = true;
  expires_at = seconds (pos 131);
}

abbrev half_minute : Duration
half_minute = seconds (pos 30)

abbrev others : List Call
others =
    acquires (at 110) "jobs" "b" half_minute ∷ releases (at 111) (record first { value = "b" }) ∷ []

abbrev after_others : Store
after_others = run redis others (acquire_lock redis (at 100) "jobs" "a" half_minute []).0

mutual_exclusion_example :
    (redis.get_value (seconds (pos 120)) (lock_key "jobs") after_others ≡ some "a")
    × ((acquire_lock redis (at 120) "jobs" "c" half_minute after_others).1
          ≡ ok (record {
            key = lock_key "jobs";
            value = "c";
            acquired = false;
            expires_at = seconds (pos 151);
          })
        → false ≡ false)
unfolding acquire_lock acquire_answer over_network lock_key get ◌+ℤ◌
mutual_exclusion_example =
    mutual_exclusion redis redis_laws (at 100) "jobs" "a" half_minute [] first others (at 120) "c"
      half_minute
      (record {
        key = lock_key "jobs";
        value = "c";
        acquired = false;
        expires_at = seconds (pos 151);
      })
      refl refl (omega arith, ((omega arith, λ e f. ground (arith, f, eq_iff "b" "a")), tt))
      (omega arith)

abbrev held : Store
held = put (lock_key "jobs") ("a", seconds (pos 130)) []

abbrev count_one : Store → Store × ℕ
count_one r = (put "runs" ("1", seconds (pos 1000)) r, 1)

with_lock_lem_example :
    let x = with_lock redis (at 100) (at 110) "jobs" "a" half_minute count_one [] in
    let inside = (redis.set_nx (seconds (pos 100)) (lock_key "jobs") "a" half_minute []).0 in
    (redis.get_value (seconds (pos 100)) (lock_key "jobs") [] ≡ none
      → redis.get_value (seconds (pos 110)) (lock_key "jobs") (count_one inside).0 ≡ some "a"
      → (x.1 ≡ ok (count_one inside).1) × (redis_laws.stored (lock_key "jobs") x.0 ≡ none))
    × (redis.get_value (seconds (pos 100)) (lock_key "jobs") [] ≡ some "b"
        → (x.1 ≡ fails not_acquired)
          × (redis_laws.stored (lock_key "jobs") x.0 ≡ redis_laws.stored (lock_key "jobs") []))
with_lock_lem_example =
    with_lock_lem redis redis_laws (at 100) (at 110) "jobs" "a" half_minute count_one [] "b" refl
      refl
