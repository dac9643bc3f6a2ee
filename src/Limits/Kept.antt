-- ===== src/Limits/Kept.antt =====
-- middleware/ratelimit.go: one request in the sliding window, by the members of the sorted set.
use go_backend_kit.Common.{
  ℕ, ◌+◌, ◌≤◌, Bool, true, false, ◌≡◌, refl, List, [], ◌∷◌, ℤ, pos, ◌-ℤ◌, -ℤ_parts, ◌≤ℤ◌, ◌<ℤ◌,
  +ℤ_parts, add_time, ltb_ℤ, Time, Duration, Dict, put, int_key, arith, length, All, All-map,
  if◌then◌else◌,
}
use go_backend_kit.Limits.Types.{outside}
use go_backend_kit.Limits.Members.{
  above, members_above, times_above, AllUntil, members_above_le, times_above-antitone,
  members_above-outside, outside-AllUntil, put-AllUntil, members_above-put,
}

-- Times that are not later than a time.
abbrev pub AllPast : Time → List Time → Type 0
AllPast last = All (λ t. t ≤ℤ last)

-- The members at a time, and the requests that were let through.
pub record IsKept (score : ℤ → ℤ) (w : Duration) (limit : ℕ) (last : Time) (d : Dict ℤ ℤ)
    (allowed : List Time) : Type 0 where
  pub until_last : AllUntil last d
  pub past : AllPast last allowed
  pub covered : (u : ℤ) → score (last -ℤ w) ≤ℤ u → times_above score u allowed ≤ members_above u d
  pub bounded : times_above score (score (last -ℤ w)) allowed ≤ limit

-- The same before a request at a time, for the window that ends with it.
pub record IsWindowed (score : ℤ → ℤ) (w : Duration) (limit : ℕ) (last now : Time) (d : Dict ℤ ℤ)
    (allowed : List Time) : Type 0 where
  pub until_last : AllUntil last d
  pub past : AllPast last allowed
  pub covered : (u : ℤ) → score (now -ℤ w) ≤ℤ u → times_above score u allowed ≤ members_above u d
  pub bounded : times_above score (score (now -ℤ w)) allowed ≤ limit

earlier_window : (last now : Time) (w : Duration) → last <ℤ now → (last -ℤ w) ≤ℤ (now -ℤ w)
earlier_window last now w h = ground (arith, -ℤ_parts last w, -ℤ_parts now w)

-- The start of the window is not before a time that is at least the window ago.
pub past_window : (last now : Time) (w : Duration) → add_time last w <ℤ now → last ≤ℤ (now -ℤ w)
past_window last now w h = omega (arith, +ℤ_parts last w, -ℤ_parts now w)

pub times_above-past :
    (score : ℤ → ℤ) (monotone : (a b : ℤ) → a ≤ℤ b → score a ≤ℤ score b) (last u : ℤ)
    (ts : List Time)
    → AllPast last ts
    → score last ≤ℤ u
    → times_above score u ts ≡ 0
times_above-past score monotone last u [] h l = refl
times_above-past score monotone last u (t ∷ ts) h l =
    ground (arith, monotone t last h.0, times_above-past score monotone last u ts h.1 l)

above_le : (u s : ℤ) → above u s ≤ 1
above_le u s = ground arith

module _ (score : ℤ → ℤ) (monotone : (a b : ℤ) → a ≤ℤ b → score a ≤ℤ score b) (w : Duration)
    (limit : ℕ) (last now : Time) (d : Dict ℤ ℤ) (allowed : List Time) where
  wider : last <ℤ now → score (last -ℤ w) ≤ℤ score (now -ℤ w)
  wider l = monotone (last -ℤ w) (now -ℤ w) (earlier_window last now w l)

  -- Redis has kept the set.
  pub kept-IsWindowed :
      last <ℤ now
      → IsKept score w limit last d allowed
      → IsWindowed score w limit last now d allowed
  kept-IsWindowed l k = record {
    until_last = k.until_last;
    past = k.past;
    covered = λ u h. k.covered u (omega (arith, wider l));
    bounded = omega (
      arith,
      k.bounded,
      times_above-antitone score (score (last -ℤ w)) (score (now -ℤ w)) allowed (wider l),
    );
  }

  -- The set is gone, and no request was let through within the window.
  pub gone-IsWindowed :
      AllPast last allowed
      → times_above score (score (now -ℤ w)) allowed ≡ 0
      → IsWindowed score w limit last now [] allowed
  gone-IsWindowed past none_left = record {
    until_last = tt;
    past = past;
    covered = λ u h. omega (arith, times_above-antitone score (score (now -ℤ w)) u allowed h);
    bounded = omega arith;
  }

  -- A request that is let through, or not.
  pub IsKept-step :
      (b : Bool)
      → last <ℤ now
      → IsWindowed score w limit last now d allowed
      → ltb_ℤ (pos (length (outside (pos 0) (score (now -ℤ w)) d))) (pos limit) ≡ b
      → IsKept score w limit now
          (put now (score now) (outside (pos 0) (score (now -ℤ w)) d))
          (if b then now ∷ allowed else allowed)
  IsKept-step b l k e = by b e
    where
      o : Dict ℤ ℤ
      o = outside (pos 0) (score (now -ℤ w)) d

      fresh : AllUntil last o
      fresh = outside-AllUntil last (pos 0) (score (now -ℤ w)) d k.until_last

      later : AllPast now allowed
      later = All-map (λ t. t ≤ℤ last) (λ t. t ≤ℤ now) allowed (λ t h. omega arith) k.past

      old : (u : ℤ) → score (now -ℤ w) ≤ℤ u → times_above score u allowed ≤ members_above u o
      old u h = omega (arith, k.covered u h, members_above-outside u (pos 0) (score (now -ℤ w)) d h)

      new :
          (u : ℤ)
          → members_above u (put now (score now) o) ≡ above u (score now) + members_above u o
      new u = members_above-put u last now (score now) o l fresh

      by :
          (b : Bool)
          → ltb_ℤ (pos (length o)) (pos limit) ≡ b
          → IsKept score w limit now (put now (score now) o) (if b then now ∷ allowed else allowed)
      by true e = record {
        past = (omega arith, later);
        until_last = put-AllUntil last now (score now) o l fresh;
        covered = λ u h. omega (arith, old u h, new u);
        bounded = fits (score (now -ℤ w)) (old (score (now -ℤ w)) (omega arith)) e;
      }
        where
          fits :
              (u : ℤ)
              → times_above score u allowed ≤ members_above u o
              → ltb_ℤ (pos (length o)) (pos limit) ≡ true
              → above u (score now) + times_above score u allowed ≤ limit
          fits u h e = ground (arith, members_above_le u o, above_le u (score now))
      by false e = record {
        past = later;
        until_last = put-AllUntil last now (score now) o l fresh;
        covered = λ u h. omega (arith, old u h, new u);
        bounded = k.bounded;
      }
