-- ===== src/Tests/Limiting.antt =====
-- Runs of middleware/ratelimit.go.
use go_backend_kit.Common.{
  ◌≤◌, true, ◌≡◌, refl, inr, some, none, List, [], ◌∷◌, ℤ, pos, ◌-ℤ◌, Dict, put, int_key, length,
  arith, Time, ℕ, suc, ◌<ℤ◌, ◌/◌, ◌⊎◌, ap, Bool, Bool-cases, false, inl, Option, Duration, add_time,
  seconds, ltb, ltb_ℤ, negsuc, ◌+ℤ◌, if◌then◌else◌,
}
use go_backend_kit.Lock.{lost_answer}
use go_backend_kit.Limits.{
  RateLimiter, by_user, Request, goes_on, SetOps, SetLaws, outside, text_id, generate_key, join,
  user_parts, check_rate_limit, check_parsed, check_window, pipeline, limit_answer, key_parts,
  handle,
}
use go_backend_kit.Limits.Window.{serve, last_of, serve_bounded}
use go_backend_kit.Limits.Members.{times_above}
use go_backend_kit.Limits.Passing.{handle-passes}

-- One sorted set with exact scores, its deadline, and the clock.
record Store : Type 0 where
  entries : Dict ℤ ℤ
  until : Option Time
  clock : Time

abbrev is_over : Time → Option Time → Bool
is_over t none = false
is_over t (some d) = ltb_ℤ d t

abbrev redis_at : Time → Store → Store
redis_at t r = record r { clock = t; entries = (if is_over t r.until then [] else r.entries) }

-- The client sends whole seconds, and at least one.
abbrev sent_seconds : Duration → ℤ
sent_seconds (pos n) = if ltb n 1000000000 then pos 1 else pos (n / 1000000000)
sent_seconds (negsuc n) = pos 1

abbrev one_set : SetOps Store
one_set = record {
  remove_until = λ k high r. record r { entries = outside (pos 0) high r.entries };
  card = λ k r. pos (length r.entries);
  add = λ k s m r. record r { entries = put m s r.entries };
  expire = λ k w r. record r { until = some (add_time r.clock (seconds (sent_seconds w))) };
  del = λ k r. record r { entries = []; until = none };
}

sent_seconds-seconds : (w : ℕ) → sent_seconds (seconds (pos (suc w))) ≡ pos (suc w)
sent_seconds-seconds w = ground arith

over_deadline :
    (t : Time) (o : Option Time) → is_over t o ≡ true → (d : Time) × (o ≡ some d) × (d <ℤ t)
over_deadline t none h = cc
over_deadline t (some d) h = (d, refl, ground arith)

set_at_time :
    (t : Time) (o : Option Time) (e : Dict ℤ ℤ)
    → ((if is_over t o then [] else e) ≡ e)
      ⊎ (((if is_over t o then [] else e) ≡ []) × ((d : Time) × (o ≡ some d) × (d <ℤ t)))
set_at_time t o e = elim (Bool-cases (is_over t o)) [
  | inl b ↦ inr (rw b refl, over_deadline t o b)
  | inr b ↦ inl (rw b refl)
]

abbrev one_set_laws : SetLaws one_set
one_set_laws = record {
  score = λ z. z;
  score_monotone = λ a b h. h;
  members = λ k r. r.entries;
  deadline = λ k r. r.until;
  clock = λ r. r.clock;
  at_time = redis_at;
  clock_moves = λ t r h. refl;
  time_passes = λ k t r h. set_at_time t r.until r.entries;
  remove_members = λ k high r. (refl, refl);
  card_members = λ k r. refl;
  add_members = λ k s m r. (refl, refl);
  expire_sets = λ k w r h.
      (refl, ap (λ z. some (add_time r.clock (seconds z))) (sent_seconds-seconds w), refl);
}

abbrev empty : Store
empty = record { entries = []; until = none; clock = pos 0 }

abbrev limiter : RateLimiter
limiter = record {
  enable = true;
  skip_paths = [];
  key_generator = by_user;
  window = some (seconds (pos 60));
  limit = pos 2;
  headers = true;
}

abbrev times : List Time
times =
    seconds (pos 100)
    ∷ seconds (pos 110)
    ∷ seconds (pos 120)
    ∷ seconds (pos 170)
    ∷ seconds (pos 300)
    ∷ []

-- The third request is refused but counts; the fourth finds the first two out of its window, and
-- the fifth no set at all.
serve_test :
    (serve one_set redis_at limiter [] times (empty, [])).1
    ≡ seconds (pos 300) ∷ seconds (pos 170) ∷ seconds (pos 110) ∷ seconds (pos 100) ∷ []
unfolding serve check_rate_limit check_parsed check_window pipeline limit_answer put ◌-ℤ◌ ◌+ℤ◌
serve_test = refl

-- A window of 1.5 seconds whose set goes after one: both requests pass, 1.2 seconds apart, although
-- the limit is one.
short_window_test :
    (serve one_set redis_at
      (record limiter { window = some (pos 1500000000); limit = pos 1 })
      []
      (seconds (pos 100) ∷ pos 101200000000 ∷ [])
      (empty, [])).1
    ≡ pos 101200000000 ∷ seconds (pos 100) ∷ []
unfolding serve check_rate_limit check_parsed check_window pipeline limit_answer put ◌-ℤ◌ ◌+ℤ◌
short_window_test = refl

serve_bounded_example :
    times_above
      (λ z. z)
      (last_of (pos 0) times -ℤ seconds (pos 60))
      (serve one_set redis_at limiter [] times (empty, [])).1
    ≤ 2
serve_bounded_example =
    serve_bounded one_set one_set_laws [] limiter 59 2 (pos 0) times empty refl refl
      (omega arith, (omega arith, (omega arith, (omega arith, (omega arith, tt))))) (omega arith)
      refl

abbrev request : Request
request = record { path = "/items"; client_ip = "10.0.0.9"; user_id = some (text_id "u1") }

handle-passes_example :
    (handle one_set limiter lost_answer (pos 100) request empty).1 ≡ goes_on none
unfolding generate_key key_parts user_parts
handle-passes_example =
    handle-passes one_set limiter lost_answer (pos 100) request
      (join ("ratelimit" ∷ "user" ∷ "u1" ∷ [])) empty refl (inr (inr refl))
