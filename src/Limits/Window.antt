-- ===== src/Limits/Window.antt =====
-- middleware/ratelimit.go: how many requests the sliding window lets through.
use go_backend_kit.Common.{
  ℕ, suc, ◌≤◌, Bool, true, false, ◌≡◌, refl, ap, sym, ◌∙◌, Option, some, none, List, [], ◌∷◌, ℤ,
  pos, ◌-ℤ◌, ◌≤ℤ◌, ◌<ℤ◌, ltb_ℤ, Time, Duration, Dict, put, int_key, arith, length, if◌then◌else◌,
  ◌⊎◌, inl, inr, ◌<◌, seconds, add_time,
}
use mathlib.Core.Option.{some-injective}
use mathlib.Core.Path.{subst}
use go_backend_kit.Limits.Kept.{
  IsKept, IsWindowed, past_window, times_above-past, kept-IsWindowed, gone-IsWindowed, IsKept-step,
}
use go_backend_kit.Lock.{answered}
use go_backend_kit.Limits.Types.{RateLimiter, LimitHeaders, SetOps, SetLaws, outside}
use go_backend_kit.Limits.Engine.{
  limit_answer, pipeline, check_window, check_parsed, check_rate_limit,
}
use go_backend_kit.Limits.Members.{times_above, AllUntil}

-- Redis with the times of the requests that were let through, newest first.
abbrev pub let_through :
    {R : Type 0} → Time → List Time → R × Option (Bool × LimitHeaders) → R × List Time
let_through now allowed (r, none) = (r, allowed)
let_through now allowed (r, some (true, h)) = (r, now ∷ allowed)
let_through now allowed (r, some (false, h)) = (r, allowed)

-- Each time is later than the one before.
abbrev pub IsIncreasing : Time → List Time → Type 0
IsIncreasing last [] = Unit
IsIncreasing last (t ∷ ts) = (last <ℤ t) × IsIncreasing t ts

abbrev pub last_of : Time → List Time → Time
last_of last [] = last
last_of last (t ∷ ts) = last_of t ts

module _ {R : Type 0} (ops : SetOps R) (at_time : Time → R → R) (limiter : RateLimiter)
    (key : List ℕ) where
  -- The requests of one key at these times, each answered before the next, and each with Redis at its
  -- time.
  unfoldable pub serve : List Time → R × List Time → R × List Time
  serve [] s = s
  serve (t ∷ ts) (r, allowed) =
      serve ts (let_through t allowed (check_rate_limit ops limiter answered t key (at_time t r)))

put-some : (m n : ℤ) (d : Dict ℤ ℤ) → 0 < length (put m n d)
unfolding put
put-some m n [] = omega arith
put-some m n (e ∷ d) = ground arith

module _ {R : Type 0} (ops : SetOps R) (laws : SetLaws ops) (key : List ℕ) where
  open laws use {score, score_monotone, members, deadline, clock, at_time}

  -- What the pipeline of a request makes of the set, its deadline and the clock.
  record Piped (w : ℕ) (now : Time) (r r' : R) : Type 0 where
    members_are :
        members key r'
        ≡ put now
            (score now)
            (outside (pos 0) (score (now -ℤ seconds (pos (suc w)))) (members key r))
    deadline_is : deadline key r' ≡ some (add_time (clock r) (seconds (pos (suc w))))
    clock_is : clock r' ≡ clock r

  pipeline-Piped :
      (w : ℕ) (now : Time) (r : R)
      → Piped w now r (pipeline ops key (seconds (pos (suc w))) now r).0
  unfolding pipeline
  pipeline-Piped w now r =
      let r1 = ops.remove_until key (now -ℤ seconds (pos (suc w))) r in
      let r2 = ops.add key now now r1 in
      let (removed, clock1) = laws.remove_members key (now -ℤ seconds (pos (suc w))) r in
      let (added, clock2) = laws.add_members key now now r1 in
      let (kept, expires, clock3) =
        laws.expire_sets key w r2 (rw added (put-some now (score now) (members key r1))) in
      record {
        members_are = kept ∙ added ∙ ap (put now (score now)) removed;
        deadline_is =
            expires ∙ ap (λ t. some (add_time t (seconds (pos (suc w))))) (clock2 ∙ clock1);
        clock_is = clock3 ∙ clock2 ∙ clock1;
      }

  pipeline_count :
      (w : ℕ) (now : Time) (r : R)
      → (pipeline ops key (seconds (pos (suc w))) now r).1
        ≡ pos (length (outside (pos 0) (score (now -ℤ seconds (pos (suc w)))) (members key r)))
  unfolding pipeline
  pipeline_count w now r =
      laws.card_members key _
      ∙ ap (λ d. pos (length d)) (laws.remove_members key (now -ℤ seconds (pos (suc w))) r).0

  -- Redis and the requests that were let through, at a time: if there are any, the set goes a window
  -- after that time.
  record IsServed (w limit : ℕ) (last : Time) (r : R) (allowed : List Time) : Type 0 where
    kept : IsKept score (seconds (pos (suc w))) limit last (members key r) allowed
    not_ahead : clock r ≤ℤ last
    expires : (allowed ≡ []) ⊎ (deadline key r ≡ some (add_time last (seconds (pos (suc w)))))

  abbrev IsServedBy : ℕ → ℕ → Time → R × List Time → Type 0
  IsServedBy w limit last (r, allowed) = IsServed w limit last r allowed

  -- What the request finds: the set, or nothing if its deadline is over.
  at_time-IsWindowed :
      (w limit : ℕ) (last t : Time) (r : R) (allowed : List Time)
      → last <ℤ t
      → IsServed w limit last r allowed
      → IsWindowed score (seconds (pos (suc w))) limit last t (members key (at_time t r)) allowed
  at_time-IsWindowed w limit last t r allowed l k =
      elim (laws.time_passes key t r (omega (arith, k.not_ahead))) [
        | inl same ↦ rw same (
            kept-IsWindowed score score_monotone (seconds (pos (suc w))) limit last t
              (members key r) allowed l k.kept)
        | inr gone ↦ rw gone.0 (
            gone-IsWindowed score score_monotone (seconds (pos (suc w))) limit last t
              (members key r) allowed k.kept.past (none_left gone.1 k.expires))
      ]
    where
      none_left :
          ((d : Time) × (deadline key r ≡ some d) × (d <ℤ t))
          → (allowed ≡ []) ⊎ (deadline key r ≡ some (add_time last (seconds (pos (suc w)))))
          → times_above score (score (t -ℤ seconds (pos (suc w)))) allowed ≡ 0
      none_left (d, e, over) (inl f) = rw f refl
      none_left (d, e, over) (inr f) =
          let d_is : d ≡ add_time last (seconds (pos (suc w))) = some-injective _ _ (sym e ∙ f) in
          times_above-past score score_monotone last _ allowed k.kept.past (
            score_monotone last (t -ℤ seconds (pos (suc w)))
              (past_window last t (seconds (pos (suc w))) (subst (λ z. z <ℤ t) d_is over)))

  answered_window :
      (limiter : RateLimiter) (w : Duration) (t : Time) (r : R) (allowed : List Time)
      → limiter.window ≡ some w
      → let_through t allowed (check_rate_limit ops limiter answered t key r) ≡ (
        (pipeline ops key w t r).0,
        (if ltb_ℤ (pipeline ops key w t r).1 limiter.limit then t ∷ allowed else allowed),
      )
  unfolding check_rate_limit
  answered_window limiter w t r allowed e =
      ap (λ o. let_through t allowed (check_parsed ops limiter o answered t key r)) e
      ∙ unfold check_parsed check_window limit_answer in
        by (ltb_ℤ (pipeline ops key w t r).1 limiter.limit) _
    where
      by :
          (b : Bool) (h : LimitHeaders)
          → let_through t allowed ((pipeline ops key w t r).0, some (b, h))
            ≡ ((pipeline ops key w t r).0, (if b then t ∷ allowed else allowed))
      by true h = refl
      by false h = refl

  request-IsServed :
      (limiter : RateLimiter) (w limit : ℕ) (last t : Time) (r : R) (allowed : List Time)
      → limiter.window ≡ some (seconds (pos (suc w)))
      → limiter.limit ≡ pos limit
      → last <ℤ t
      → IsServed w limit last r allowed
      → IsServedBy w limit t
          (let_through t allowed (check_rate_limit ops limiter answered t key (at_time t r)))
  request-IsServed limiter w limit last t r allowed e f l k =
      let r1 = at_time t r in
      let moved = laws.clock_moves t r (omega (arith, k.not_ahead)) in
      let p = pipeline-Piped w t r1 in
      subst (IsServedBy w limit t)
        (sym (answered_window limiter (seconds (pos (suc w))) t r1 allowed e))
        (record {
          kept = rw p.members_are (
              IsKept-step score score_monotone (seconds (pos (suc w))) limit last t (members key r1)
                allowed (ltb_ℤ (pipeline ops key (seconds (pos (suc w))) t r1).1 limiter.limit) l
                (at_time-IsWindowed w limit last t r allowed l k)
                (ap (λ c. ltb_ℤ c (pos limit)) (sym (pipeline_count w t r1))
                  ∙ ap (λ m. ltb_ℤ (pipeline ops key (seconds (pos (suc w))) t r1).1 m) (sym f)));
          not_ahead = rw (p.clock_is, moved) (omega arith);
          expires = inr (p.deadline_is ∙ ap (λ c. some (add_time c (seconds (pos (suc w))))) moved);
        })

  serve-IsServed :
      (limiter : RateLimiter) (w limit : ℕ) (last : Time) (ts : List Time) (s : R × List Time)
      → limiter.window ≡ some (seconds (pos (suc w)))
      → limiter.limit ≡ pos limit
      → IsIncreasing last ts
      → IsServedBy w limit last s
      → IsServedBy w limit (last_of last ts) (serve ops at_time limiter key ts s)
  unfolding serve
  serve-IsServed limiter w limit last [] s e f i k = k
  serve-IsServed limiter w limit last (t ∷ ts) (r, allowed) e f i k =
      serve-IsServed limiter w limit t ts _ e f i.1
        (request-IsServed limiter w limit last t r allowed e f i.0 k)

  -- Over any Redis with the laws of sorted sets, whose clock is that of the requests and which drops
  -- a set after its deadline, if a window of a positive whole number of seconds and a natural limit
  -- are configured and the requests of a key that had no entries come at strictly increasing times,
  -- each answered before the next, then at most the limit of those whose score is above the score of
  -- the start of the window that ends with the last request were let through.
  pub serve_bounded :
      (limiter : RateLimiter) (w limit : ℕ) (last : Time) (ts : List Time) (r : R)
      → limiter.window ≡ some (seconds (pos (suc w)))
      → limiter.limit ≡ pos limit
      → IsIncreasing last ts
      → clock r ≤ℤ last
      → members key r ≡ []
      → times_above score
          (score (last_of last ts -ℤ seconds (pos (suc w))))
          (serve ops at_time limiter key ts (r, [])).1
        ≤ limit
  serve_bounded limiter w limit last ts r e f i c g =
      (serve-IsServed limiter w limit last ts (r, []) e f i
        (record {
          kept = record {
            until_last = subst (AllUntil last) (sym g) tt;
            past = tt;
            covered = λ u h. omega arith;
            bounded = omega arith;
          };
          not_ahead = c;
          expires = inl refl;
        })).kept.bounded
