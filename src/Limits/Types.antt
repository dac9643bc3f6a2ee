-- ===== src/Limits/Types.antt =====
-- middleware/ratelimit.go: the data of a rate limiter, and Redis as the code uses it.
use go_backend_kit.Common.{
  ℕ, suc, String, Bool, not, ◌&&◌, ◌≡◌, ◌⊎◌, ◌<◌, ◌<ℤ◌, Option, some, List, [], add_time, seconds,
  ℤ, pos, ◌≤ℤ◌, leb_ℤ, Time, Duration, Dict, put, int_key, keep_if, length,
}

-- Any other text counts as `by_ip`.
pub data KeyGenerator : Type 0 where
  by_ip by_user by_ip_path by_user_path : KeyGenerator

-- The configuration. The window is what `time.ParseDuration` makes of its text, or nothing.
pub record RateLimiter : Type 0 where
  pub enable : Bool
  pub skip_paths : List String
  pub key_generator : KeyGenerator
  pub window : Option Duration
  pub limit : ℤ
  pub headers : Bool

-- The value of `user_id`, which the code takes for a text.
pub data UserId : Type 0 where
  text_id : String → UserId
  other_id : UserId

pub record Request : Type 0 where
  pub path : String
  pub client_ip : String
  pub user_id : Option UserId

-- The headers of an answer: what is left, and when the window ends.
pub record LimitHeaders : Type 0 where
  pub limit : ℤ
  pub remaining : ℤ
  pub reset : Time

-- The request goes on, is refused, or panics.
pub data Verdict : Type 0 where
  goes_on too_many : Option LimitHeaders → Verdict
  panic : Verdict

-- The commands of the pipeline: ZREMRANGEBYSCORE from 0, ZCARD, ZADD of a member with its score,
-- and EXPIRE; and DEL.
pub record SetOps (R : Type 0) : Type 0 where
  pub remove_until : List ℕ → ℤ → R → R
  pub card : List ℕ → R → ℤ
  pub add : List ℕ → ℤ → ℤ → R → R
  pub expire : List ℕ → Duration → R → R
  pub del : List ℕ → R → R

-- The members whose score is not in a range.
abbrev pub outside : ℤ → ℤ → Dict ℤ ℤ → Dict ℤ ℤ
outside low high = keep_if (λ e. not (leb_ℤ low e.1 && leb_ℤ e.1 high))

-- What the documentation says of a sorted set: it has members with scores, which are the nearest
-- `float64` of a number, and it can go as a whole, but not before its deadline is over. The clock
-- of Redis is the one of the requests. Only an expiry of a positive whole number of seconds, to
-- which the client rounds down, has a law; it sets the deadline of a set that is not empty.
pub record SetLaws {R : Type 0} (ops : SetOps R) : Type 0 where
  pub score : ℤ → ℤ
  pub score_monotone : (a b : ℤ) → a ≤ℤ b → score a ≤ℤ score b
  pub members : List ℕ → R → Dict ℤ ℤ
  pub deadline : List ℕ → R → Option Time
  pub clock : R → Time
  pub at_time : Time → R → R
  pub clock_moves : (now : Time) (r : R) → clock r ≤ℤ now → clock (at_time now r) ≡ now
  pub time_passes :
      (k : List ℕ) (now : Time) (r : R)
      → clock r ≤ℤ now
      → (members k (at_time now r) ≡ members k r)
        ⊎ ((members k (at_time now r) ≡ []) × ((d : Time) × (deadline k r ≡ some d) × (d <ℤ now)))
  pub remove_members :
      (k : List ℕ) (high : ℤ) (r : R)
      → (members k (ops.remove_until k high r) ≡ outside (pos 0) (score high) (members k r))
        × (clock (ops.remove_until k high r) ≡ clock r)
  pub card_members : (k : List ℕ) (r : R) → ops.card k r ≡ pos (length (members k r))
  pub add_members :
      (k : List ℕ) (s m : ℤ) (r : R)
      → (members k (ops.add k s m r) ≡ put m (score s) (members k r))
        × (clock (ops.add k s m r) ≡ clock r)
  pub expire_sets :
      (k : List ℕ) (w : ℕ) (r : R)
      → 0 < length (members k r)
      → (members k (ops.expire k (seconds (pos (suc w))) r) ≡ members k r)
        × (deadline k (ops.expire k (seconds (pos (suc w))) r)
            ≡ some (add_time (clock r) (seconds (pos (suc w)))))
        × (clock (ops.expire k (seconds (pos (suc w))) r) ≡ clock r)
