-- ===== src/Pipeline/Meaning.antt =====
-- crawler/pipeline/pipeline.go: what a run and a batch mean, without the code that counts.
use Prim.Native.String.{◌++◌ as join_text}
use go_backend_kit.Common.{
  ℕ, zero, suc, ◌≡◌, true, false, Option, none, some, List, [], ◌∷◌, ℤ, pos, ◌<ℤ◌, ◌≤ℤ◌, ◌⊎◌,
}
use go_backend_kit.Pipeline.Errors.{GoError, app, wraps, plain}
use go_backend_kit.Pipeline.Engine.{Result, value, failure, Processor, Counts, up}

-- An application error whose status is none of 500 to 599.
abbrev pub IsFatal : GoError → Type 0
IsFatal (app code message http_status c) = (http_status <ℤ pos 500) ⊎ (pos 600 ≤ℤ http_status)
IsFatal (wraps text e) = ⊥
IsFatal (plain text) = ⊥

-- What becomes of a processor that a run reaches.
pub data Mark : Type 0 where
  was_skipped : Mark
  was_processed : Mark
  has_failed : Mark

module _ {V : Type 0} where
  -- The processors, the data, the marks of the processors that the run reaches, and the result.
  pub data IsRun : List (Processor V) → Option V → List Mark → Result V → Type 0 where
    done : {x : Option V} → IsRun [] x [] (value x)
    skips :
        {p : Processor V} {ps : List (Processor V)} {x : Option V} {ms : List Mark} {r : Result V}
        → p.can_process x ≡ false
        → IsRun ps x ms r
        → IsRun (p ∷ ps) x (was_skipped ∷ ms) r
    processes :
        {p : Processor V} {ps : List (Processor V)} {x y : Option V} {ms : List Mark} {r : Result V}
        → p.can_process x ≡ true
        → p.process x ≡ value y
        → IsRun ps y ms r
        → IsRun (p ∷ ps) x (was_processed ∷ ms) r
    recovers :
        {p : Processor V} {ps : List (Processor V)} {x : Option V} {e : GoError} {ms : List Mark}
        {r : Result V}
        → p.can_process x ≡ true
        → p.process x ≡ failure e
        → ¬ IsFatal e
        → IsRun ps x ms r
        → IsRun (p ∷ ps) x (has_failed ∷ ms) r
    ends :
        {p : Processor V} {ps : List (Processor V)} {x : Option V} {e : GoError}
        → p.can_process x ≡ true
        → p.process x ≡ failure e
        → IsFatal e
        → IsRun
            (p ∷ ps)
            x
            (has_failed ∷ [])
            (failure (wraps (join_text "pipeline failed at " p.name) e))

  -- A batch: the values that runs of its items give, in order, with no nil among them.
  pub data IsBatch (ps : List (Processor V)) : List (Option V) → List V → Type 0 where
    no_items : IsBatch ps [] []
    keeps :
        {x : Option V} {xs : List (Option V)} {ms : List Mark} {v : V} {vs : List V}
        → IsRun ps x ms (value (some v))
        → IsBatch ps xs vs
        → IsBatch ps (x ∷ xs) (v ∷ vs)
    leaves_nil :
        {x : Option V} {xs : List (Option V)} {ms : List Mark} {vs : List V}
        → IsRun ps x ms (value none)
        → IsBatch ps xs vs
        → IsBatch ps (x ∷ xs) vs
    drops :
        {x : Option V} {xs : List (Option V)} {ms : List Mark} {e : GoError} {vs : List V}
        → IsRun ps x ms (failure e)
        → IsBatch ps xs vs
        → IsBatch ps (x ∷ xs) vs

-- How many of the marks are of each kind.
abbrev pub processed_in : List Mark → ℕ
processed_in [] = 0
processed_in (was_processed ∷ ms) = suc (processed_in ms)
processed_in (_ ∷ ms) = processed_in ms

abbrev pub failed_in : List Mark → ℕ
failed_in [] = 0
failed_in (has_failed ∷ ms) = suc (failed_in ms)
failed_in (_ ∷ ms) = failed_in ms

abbrev pub skipped_in : List Mark → ℕ
skipped_in [] = 0
skipped_in (was_skipped ∷ ms) = suc (skipped_in ms)
skipped_in (_ ∷ ms) = skipped_in ms

-- `n` times one more, in 64 bits.
unfoldable pub times : ℕ → ℤ → ℤ
times zero z = z
times (suc n) z = times n (up z)

-- The counters with one more for each mark, every mark at its own counter.
abbrev pub counted : List Mark → Counts → Counts
counted ms c = record {
  processed = times (processed_in ms) c.processed;
  failed = times (failed_in ms) c.failed;
  skipped = times (skipped_in ms) c.skipped;
}
