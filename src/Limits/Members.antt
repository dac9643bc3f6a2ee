-- ===== src/Limits/Members.antt =====
-- middleware/ratelimit.go: the members of a sorted set above a score.
use go_backend_kit.Common.{
  ℕ, ◌+◌, ◌≤◌, true, Bool-cases, inl, inr, ◌≡◌, refl, ap, ◌∙◌, List, [], ◌∷◌, All, ℤ, ◌≤ℤ◌, ◌<ℤ◌,
  leb_ℤ, ltb_ℤ, eq_ℤ, eq_ℤ_iff, Time, Dict, put, int_key, arith, length, if◌then◌else◌, ◌&&◌,
}
use go_backend_kit.Limits.Types.{outside}

-- A score above a bound counts.
abbrev pub above : ℤ → ℤ → ℕ
above u s = if ltb_ℤ u s then 1 else 0

abbrev pub members_above : ℤ → Dict ℤ ℤ → ℕ
members_above u [] = 0
members_above u ((m, s) ∷ d) = above u s + members_above u d

-- The times whose score is above a bound.
abbrev pub times_above : (ℤ → ℤ) → ℤ → List Time → ℕ
times_above score u [] = 0
times_above score u (t ∷ ts) = above u (score t) + times_above score u ts

pub members_above_le : (u : ℤ) (d : Dict ℤ ℤ) → members_above u d ≤ length d
members_above_le u [] = omega arith
members_above_le u ((m, s) ∷ d) = ground (arith, members_above_le u d)

pub times_above-antitone :
    (score : ℤ → ℤ) (u v : ℤ) (ts : List Time)
    → u ≤ℤ v
    → times_above score v ts ≤ times_above score u ts
times_above-antitone score u v [] h = omega arith
times_above-antitone score u v (t ∷ ts) h = ground (arith, times_above-antitone score u v ts h)

-- What is removed does not count.
pub members_above-outside :
    (u low high : ℤ) (d : Dict ℤ ℤ)
    → high ≤ℤ u
    → members_above u (outside low high d) ≡ members_above u d
members_above-outside u low high [] h = refl
members_above-outside u low high ((m, s) ∷ d) h = elim (Bool-cases (leb_ℤ low s && leb_ℤ s high)) [
  | inl b ↦ rw b (members_above-outside u low high d h ∙ dropped b)
  | inr b ↦ rw b (ap (λ n. above u s + n) (members_above-outside u low high d h))
]
  where
    dropped : leb_ℤ low s && leb_ℤ s high ≡ true → members_above u d ≡ above u s + members_above u d
    dropped b = ground arith

-- No member is later than a time.
abbrev pub AllUntil : Time → Dict ℤ ℤ → Type 0
AllUntil last = All (λ e. e.0 ≤ℤ last)

pub outside-AllUntil :
    (last low high : ℤ) (d : Dict ℤ ℤ) → AllUntil last d → AllUntil last (outside low high d)
outside-AllUntil last low high [] h = tt
outside-AllUntil last low high ((m, s) ∷ d) h = elim (Bool-cases (leb_ℤ low s && leb_ℤ s high)) [
  | inl b ↦ rw b (outside-AllUntil last low high d h.1)
  | inr b ↦ rw b (h.0, outside-AllUntil last low high d h.1)
]

pub put-AllUntil :
    (last now s : ℤ) (d : Dict ℤ ℤ) → last <ℤ now → AllUntil last d → AllUntil now (put now s d)
unfolding put
put-AllUntil last now s [] l h = (ground arith, tt)
put-AllUntil last now s ((m, s') ∷ d) l h = elim (Bool-cases (eq_ℤ m now)) [
  | inl b ↦ ground (arith, eq_ℤ_iff m now)
  | inr b ↦ rw b (ground arith, put-AllUntil last now s d l h.1)
]

-- A later member is new.
pub members_above-put :
    (u last now s : ℤ) (d : Dict ℤ ℤ)
    → last <ℤ now
    → AllUntil last d
    → members_above u (put now s d) ≡ above u s + members_above u d
unfolding put
members_above-put u last now s [] l h = refl
members_above-put u last now s ((m, s') ∷ d) l h = elim (Bool-cases (eq_ℤ m now)) [
  | inl b ↦ ground (arith, eq_ℤ_iff m now)
  | inr b ↦ rw b (omega (arith, members_above-put u last now s d l h.1))
]
