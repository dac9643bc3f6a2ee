-- ===== src/Limits/Engine.antt =====
-- middleware/ratelimit.go: keys, the sliding window, and the handler.
use go_backend_kit.Common.{
  ℕ, String, Bool, true, false, Option, none, some, List, [], ◌∷◌, ◌++◌, ℤ, pos, ◌-ℤ◌, ltb_ℤ, Time,
  Duration, add_time, if◌then◌else◌, ◌==◌, ◌&&◌,
}
use go_backend_kit.Dispatch.{bytes}
use go_backend_kit.Lock.{Network, answered, lost_request, lost_answer}
use go_backend_kit.Limits.Types.{
  KeyGenerator, by_ip, by_user, by_ip_path, by_user_path, RateLimiter, UserId, text_id, other_id,
  Request, LimitHeaders, Verdict, goes_on, too_many, panic, SetOps,
}

-- `strings.Join` with colons, in bytes.
unfoldable pub join : List String → List ℕ
join [] = []
join (s ∷ []) = bytes s
join (s ∷ t ∷ ts) = bytes s ++ 58 ∷ join (t ∷ ts)

abbrev pub ip_parts : Request → List String
ip_parts q = "ratelimit" ∷ "ip" ∷ q.client_ip ∷ []

-- The parts for the user, or for the address without one; another value than a text panics.
unfoldable pub user_parts : Request → Option UserId → Option (List String)
user_parts q none = some (ip_parts q)
user_parts q (some (text_id u)) = some ("ratelimit" ∷ "user" ∷ u ∷ [])
user_parts q (some other_id) = none

abbrev pub with_path : Request → Option (List String) → Option (List String)
with_path q none = none
with_path q (some parts) = some (parts ++ "path" ∷ q.path ∷ [])

unfoldable pub key_parts : KeyGenerator → Request → Option (List String)
key_parts by_ip q = some (ip_parts q)
key_parts by_user q = user_parts q q.user_id
key_parts by_ip_path q = with_path q (some (ip_parts q))
key_parts by_user_path q = with_path q (user_parts q q.user_id)

unfoldable pub generate_key : RateLimiter → Request → Option (List ℕ)
generate_key limiter q = elim (key_parts limiter.key_generator q) [
  | none ↦ none
  | some parts ↦ some (join parts)
]

unfoldable pub starts_with : List ℕ → List ℕ → Bool
starts_with [] s = true
starts_with (x ∷ p) [] = false
starts_with (x ∷ p) (y ∷ s) = (x == y) && starts_with p s

unfoldable pub is_skipped : List String → String → Bool
is_skipped [] path = false
is_skipped (p ∷ ps) path =
    let rest = is_skipped ps path in if starts_with (bytes p) (bytes path) then true else rest

-- What is left of the limit, not below 0.
unfoldable pub remaining_of : ℤ → ℤ → ℤ
remaining_of limit count = if ltb_ℤ (limit -ℤ count) (pos 0) then pos 0 else limit -ℤ count

unfoldable pub limit_answer : RateLimiter → Duration → Time → ℤ → Bool × LimitHeaders
limit_answer limiter w now count = (
  ltb_ℤ count limiter.limit,
  record {
    limit = limiter.limit;
    remaining = remaining_of limiter.limit count;
    reset = add_time now w;
  },
)

unfoldable pub decide : {R : Type 0} → RateLimiter → R × Option (Bool × LimitHeaders) → R × Verdict
decide limiter (r, none) = (r, goes_on none)
decide limiter (r, some (allowed, h)) =
    let shown = if limiter.headers then some h else none in
    (r, (if allowed then goes_on shown else too_many shown))

module _ {R : Type 0} (ops : SetOps R) where
  -- The pipeline: the new state and the count before the request is added.
  unfoldable pub pipeline : List ℕ → Duration → Time → R → R × ℤ
  pipeline key w now r =
      let r1 = ops.remove_until key (now -ℤ w) r in
      (ops.expire key w (ops.add key now now r1), ops.card key r1)

  unfoldable pub check_window :
      RateLimiter → Duration → Network → Time → List ℕ → R → R × Option (Bool × LimitHeaders)
  check_window limiter w lost_request now key r = (r, none)
  check_window limiter w lost_answer now key r = ((pipeline key w now r).0, none)
  check_window limiter w answered now key r =
      let (r', count) = pipeline key w now r in (r', some (limit_answer limiter w now count))

  -- An error is nothing.
  unfoldable pub check_parsed :
      RateLimiter → Option Duration → Network → Time → List ℕ → R → R × Option (Bool × LimitHeaders)
  check_parsed limiter none net now key r = (r, none)
  check_parsed limiter (some w) net now key r = check_window limiter w net now key r

  unfoldable pub check_rate_limit :
      RateLimiter → Network → Time → List ℕ → R → R × Option (Bool × LimitHeaders)
  check_rate_limit limiter net now key r = check_parsed limiter limiter.window net now key r

  unfoldable pub handle_key : RateLimiter → Network → Time → Option (List ℕ) → R → R × Verdict
  handle_key limiter net now none r = (r, panic)
  handle_key limiter net now (some key) r = decide limiter (check_rate_limit limiter net now key r)

  unfoldable pub handle : RateLimiter → Network → Time → Request → R → R × Verdict
  handle limiter net now q r =
      if limiter.enable
      then if is_skipped limiter.skip_paths q.path
        then (r, goes_on none)
        else handle_key limiter net now (generate_key limiter q) r
      else (r, goes_on none)

  unfoldable pub clear_rate_limit : List ℕ → R → R
  clear_rate_limit key r = ops.del key r

  unfoldable pub get_rate_limit_status : RateLimiter → Time → List ℕ → R → R × Option (ℤ × Time)
  get_rate_limit_status limiter now key r = elim limiter.window [
    | none ↦ (r, none)
    | some w ↦
        let r1 = ops.remove_until key (now -ℤ w) r in (r1, some (ops.card key r1, add_time now w))
  ]
