-- ===== src/Limits/Passing.antt =====
-- middleware/ratelimit.go: the requests that go on without a limit.
use go_backend_kit.Common.{
  ℕ, Bool, true, false, inl, inr, ◌≡◌, refl, ap, ◌∙◌, ◌⊎◌, Option, some, none, List, Time, Duration,
  if◌then◌else◌,
}
use go_backend_kit.Lock.{Network, answered, lost_request, lost_answer}
use go_backend_kit.Limits.Types.{RateLimiter, Request, goes_on, SetOps}
use go_backend_kit.Limits.Engine.{
  generate_key, is_skipped, check_rate_limit, check_parsed, check_window, decide, handle_key,
  handle,
}

-- Redis does not answer.
abbrev pub IsLost : Network → Type 0
IsLost net = (net ≡ lost_request) ⊎ (net ≡ lost_answer)

module _ {R : Type 0} (ops : SetOps R) where
  parsed-passes :
      (limiter : RateLimiter) (o : Option Duration) (net : Network) (now : Time) (key : List ℕ)
      (r : R)
      → (o ≡ none) ⊎ IsLost net
      → (decide limiter (check_parsed ops limiter o net now key r)).1 ≡ goes_on none
  unfolding check_parsed check_window decide
  parsed-passes limiter none net now key r h = refl
  parsed-passes limiter (some w) lost_request now key r h = refl
  parsed-passes limiter (some w) lost_answer now key r h = refl
  parsed-passes limiter (some w) answered now key r (inl e) = cc
  parsed-passes limiter (some w) answered now key r (inr (inl e)) = cc
  parsed-passes limiter (some w) answered now key r (inr (inr e)) = cc

  -- If the text of the window is no duration, or Redis does not answer, the handler lets every
  -- request that has a key go on without headers.
  pub handle-passes :
      (limiter : RateLimiter) (net : Network) (now : Time) (q : Request) (key : List ℕ) (r : R)
      → generate_key limiter q ≡ some key
      → (limiter.window ≡ none) ⊎ IsLost net
      → (handle ops limiter net now q r).1 ≡ goes_on none
  unfolding handle
  handle-passes limiter net now q key r e h = by_enable limiter.enable
    where
      checked : (handle_key ops limiter net now (generate_key limiter q) r).1 ≡ goes_on none
      checked =
          ap (λ o. (handle_key ops limiter net now o r).1) e
          ∙ unfold handle_key check_rate_limit in
            parsed-passes limiter limiter.window net now key r h

      by_enable :
          (b : Bool)
          → (if b
              then if is_skipped limiter.skip_paths q.path
                then (r, goes_on none)
                else handle_key ops limiter net now (generate_key limiter q) r
              else (r, goes_on none)).1
            ≡ goes_on none
      by_enable false = refl
      by_enable true = by_path (is_skipped limiter.skip_paths q.path)
        where
          by_path :
              (b : Bool)
              → (if b
                  then (r, goes_on none)
                  else handle_key ops limiter net now (generate_key limiter q) r).1
                ≡ goes_on none
          by_path true = refl
          by_path false = checked
