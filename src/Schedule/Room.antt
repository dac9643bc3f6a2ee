-- ===== src/Schedule/Room.antt =====
-- crawler/task/scheduler.go: tables in which one schedule has runs left.
use mathlib.Core.Option.{some-injective}
use mathlib.Core.Path.{subst}
use go_backend_kit.Common.{
  ℕ, String, ◌≡◌, ◌≢◌, sym, ◌∙◌, some, Bool-cases, inl, inr, ℤ, pos, ◌+ℤ◌, ◌<ℤ◌, InInt64, Dict, get,
  put, get-put, string_key, str_eq, eq_iff, arith,
}
use go_backend_kit.Schedule.Types.{Schedule}
use go_backend_kit.Schedule.Edits.{Follows, IsUpdate}

module _ (x : String) (m : ℤ) (k : ℕ) where
  -- A schedule whose runs, with `f` more in progress, stay below `m + k`.
  pub record HasRoom (f : ℕ) (sch : Schedule) : Type 0 where
    pub limited : sch.max_runs ≡ m
    pub in_range : InInt64 sch.run_count
    pub below_limit : (sch.run_count +ℤ pos f) <ℤ (m +ℤ pos k)

  abbrev pub IsWithin : Dict String Schedule → ℕ → Type 0
  IsWithin t f = (sch : Schedule) → get x t ≡ some sch → HasRoom f sch

  pub Follows-HasRoom : (f : ℕ) (a b : Schedule) → Follows a b → HasRoom f b → HasRoom f a
  Follows-HasRoom f a b s h = record {
    limited = s.same_max_runs ∙ h.limited;
    in_range = subst InInt64 (sym s.same_run_count) h.in_range;
    below_limit = subst (λ r. (r +ℤ pos f) <ℤ (m +ℤ pos k)) (sym s.same_run_count) h.below_limit;
  }

  pub put-IsWithin :
      (key : String) (sch : Schedule) (t : Dict String Schedule) (g : ℕ)
      → ((y : Schedule) → x ≢ key → get x t ≡ some y → HasRoom g y)
      → (x ≡ key → HasRoom g sch)
      → IsWithin (put key sch t) g
  put-IsWithin key sch t g others new y e = elim (Bool-cases (str_eq key x)) [
    | inl b ↦
        subst (HasRoom g) (some-injective _ _ (rw b at (sym (get-put x key sch t) ∙ e)))
          (new (sym ((eq_iff key x).0 b)))
    | inr b ↦ others y (λ s. ground (arith, eq_iff key x)) (rw b at (sym (get-put x key sch t) ∙ e))
  ]

  pub update-IsWithin :
      (key : String) (t t' : Dict String Schedule) (f : ℕ)
      → IsUpdate key t t'
      → IsWithin t f
      → IsWithin t' f
  update-IsWithin key t t' f (inl same) h = rw same h
  update-IsWithin key t t' f (inr (sch, sch', e, s, written)) h = rw written (
      put-IsWithin key sch' t f (λ y ne g. h y g)
        (λ same. Follows-HasRoom f sch' sch s (h sch (rw same e))))
