-- ===== src/Lock/Types.antt =====
-- lock/distributed_lock.go: the data of a lock, and Redis as the code uses it.
use go_backend_kit.Common.{
  String, Bool, true, false, ◌≡◌, ◌≢◌, Option, none, some, pos, negsuc, Time, Duration, before,
  add_time, seconds, if◌then◌else◌, ◌/◌, ◌-ℤ◌, suc,
}

pub record LockResult : Type 0 where
  pub key : String
  pub value : String
  pub acquired : Bool
  pub expires_at : Time

-- A call to Redis is answered, or fails: before Redis has acted, or after.
pub data Network : Type 0 where
  answered lost_request lost_answer : Network

pub data LockError : Type 0 where
  redis_failed not_extended not_acquired context_done : LockError

-- The commands, at the time of Redis: GET, SET with NX and an expiry, DEL and EXPIRE. The last
-- three answer whether they did something.
pub record RedisOps (R : Type 0) : Type 0 where
  pub get_value : Time → String → R → Option String
  pub set_nx : Time → String → String → Duration → R → R × Bool
  pub del : Time → String → R → R × Bool
  pub expire : Time → String → Duration → R → R × Bool

abbrev pub value_at : Time → Option (String × Time) → Option String
value_at now none = none
value_at now (some (v, until)) = if before now until then some v else none

-- What the documentation of Redis says. A key has a value and the time until which it has it.
pub record RedisLaws {R : Type 0} (ops : RedisOps R) : Type 0 where
  pub stored : String → R → Option (String × Time)
  pub get_value_stored :
      (now : Time) (k : String) (r : R) → ops.get_value now k r ≡ value_at now (stored k r)
  pub set_nx_free :
      (now : Time) (k v : String) (d : Duration) (r : R)
      → ops.get_value now k r ≡ none
      → ((ops.set_nx now k v d r).1 ≡ true)
        × (stored k (ops.set_nx now k v d r).0 ≡ some (v, add_time now d))
  pub set_nx_taken :
      (now : Time) (k v u : String) (d : Duration) (r : R)
      → ops.get_value now k r ≡ some u
      → ((ops.set_nx now k v d r).1 ≡ false) × (stored k (ops.set_nx now k v d r).0 ≡ stored k r)
  pub set_nx_others :
      (now : Time) (k i v : String) (d : Duration) (r : R)
      → i ≢ k
      → stored i (ops.set_nx now k v d r).0 ≡ stored i r
  pub del_key : (now : Time) (k : String) (r : R) → stored k (ops.del now k r).0 ≡ none
  pub del_others :
      (now : Time) (k i : String) (r : R) → i ≢ k → stored i (ops.del now k r).0 ≡ stored i r
  pub expire_key :
      (now : Time) (k v : String) (d : Duration) (r : R)
      → ops.get_value now k r ≡ some v
      → ((ops.expire now k d r).1 ≡ true)
        × (stored k (ops.expire now k d r).0 ≡ some (v, add_time now d))
  pub expire_others :
      (now : Time) (k i : String) (d : Duration) (r : R)
      → i ≢ k
      → stored i (ops.expire now k d r).0 ≡ stored i r

-- `int(extension.Seconds())`, as a duration: the part of a second is cut off.
unfoldable pub whole_seconds : Duration → Duration
unfolding ◌-ℤ◌
whole_seconds (pos n) = seconds (pos (n / 1000000000))
whole_seconds (negsuc n) = pos 0 -ℤ seconds (pos (suc n / 1000000000))
