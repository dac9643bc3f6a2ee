-- ===== src/Storage/Cleanup.antt =====
-- crawler/storage/memory.go: the periodic cleanup and the calls for several keys.
use mathlib.Core.Path.{subst}
use go_backend_kit.Common.{
  String, true, Bool-cases, inl, inr, ◌≡◌, refl, sym, ◌∙◌, ap, Option, none, some, [], ◌∷◌, ◌≤ℤ◌,
  Dict, get, string_key, str_eq, eq_iff, Time, after, arith, All, All-map, if◌then◌else◌,
}
use go_backend_kit.Storage.Memory.{
  MemoryStorage, is_past, full_key, read, read_at, remove_at, clean, cleanup,
}
use go_backend_kit.Storage.Expiry.{value_of, remove_at_lem}

-- Each key has one entry: what a Go map is.
abbrev pub IsMap : Dict String Time → Type 0
IsMap m = All (λ p. get p.0 m ≡ some p.1) m

module _ {V : Type 0} where
  abbrev value_at : Time → String → MemoryStorage V → Option V
  value_at t k s = value_of (read_at t k s)

  -- The entries that the cleanup removes give nothing at a later time.
  abbrev Stale : Time → Time → String → MemoryStorage V → (String × Time) → Type 0
  Stale now t o s p = p.0 ≡ o → after now p.1 ≡ true → value_at t o s ≡ none

  remove_at-value_at :
      (now t : Time) (k o : String) (expiry : Time) (s : MemoryStorage V)
      → Stale now t o s (k, expiry)
      → after now expiry ≡ true
      → value_at t o (remove_at k s) ≡ value_at t o s
  remove_at-value_at now t k o expiry s stale b = elim (Bool-cases (str_eq k o)) [
    | inl e ↦
        let p : k ≡ o = (eq_iff k o).0 e in
        subst (λ i. value_at t i (remove_at k s) ≡ none) p (ap value_of (remove_at_lem k s t k).0)
        ∙ sym (stale p b)
    | inr e ↦ ap value_of ((remove_at_lem k s t o).1 (λ same. ground (arith, eq_iff k o)))
  ]

  clean-value_at :
      (now t : Time) (o : String) (m : Dict String Time) (s : MemoryStorage V)
      → All (Stale now t o s) m
      → value_at t o (clean now m s) ≡ value_at t o s
  unfolding clean
  clean-value_at now t o [] s h = refl
  clean-value_at now t o ((k, expiry) ∷ m) s (h, hs) = elim (Bool-cases (after now expiry)) [
    | inr b ↦ rw b (clean-value_at now t o m s hs)
    | inl b ↦
        let same = remove_at-value_at now t k o expiry s h b in
        rw b (
          clean-value_at now t o m (remove_at k s) (
            All-map (Stale now t o s) (Stale now t o (remove_at k s)) m (λ p g e f. same ∙ g e f)
              hs)
          ∙ same)
  ]

  full_key-same :
      (s s' : MemoryStorage V) (key : String)
      → s'.prefix ≡ s.prefix
      → full_key s' key ≡ full_key s key
  unfolding full_key
  full_key-same s s' key e = ground (arith, e)

  clean-prefix :
      (now : Time) (m : Dict String Time) (s : MemoryStorage V) → (clean now m s).prefix ≡ s.prefix
  unfolding clean remove_at
  clean-prefix now [] s = refl
  clean-prefix now ((k, expiry) ∷ m) s =
      clean-prefix now m (if after now expiry then remove_at k s else s) ∙ ground arith

  IsMap-Stale :
      (now t : Time) (o : String) (s : MemoryStorage V) (p : String × Time)
      → now ≤ℤ t
      → get p.0 s.ttl ≡ some p.1
      → Stale now t o s p
  unfolding read_at
  IsMap-Stale now t o s p le e same past =
      let expired : is_past t (get o s.ttl) ≡ true =
        rw (ap (λ i. get i s.ttl) (sym same) ∙ e) (ground arith) in
      rw expired refl

  -- If no key has two expiries, the cleanup at one time changes for no key which value is read at
  -- that time or later.
  pub cleanup_lem :
      (now t : Time) (key : String) (s : MemoryStorage V)
      → IsMap s.ttl
      → now ≤ℤ t
      → value_of (read t key (cleanup now s)) ≡ value_of (read t key s)
  unfolding cleanup read
  cleanup_lem now t key s h le =
      ap (λ k. value_at t k (clean now s.ttl s))
        (full_key-same s (clean now s.ttl s) key (clean-prefix now s.ttl s))
      ∙ clean-value_at now t (full_key s key) s.ttl s (
          All-map (λ p. get p.0 s.ttl ≡ some p.1) (Stale now t (full_key s key) s) s.ttl
            (λ p e. IsMap-Stale now t (full_key s key) s p le e) h)
