-- ===== src/Pipeline/Tally.antt =====
-- crawler/pipeline/pipeline.go: a run does what its meaning says and counts each processor once.
use Prim.Native.String.{◌++◌ as join_text}
use go_backend_kit.Common.{
  Bool-cases, inl, inr, ◌⊎◌, ◌≡◌, true, false, refl, ◌∙◌, ap, Option, some, List, [], ◌∷◌, arith,
}
use go_backend_kit.Pipeline.Errors.{GoError, app, wraps, plain, is_recoverable}
use go_backend_kit.Pipeline.Engine.{
  Result, value, failure, Processor, Counts, up, turn_result, turn, continue, process_all,
}
use go_backend_kit.Pipeline.Meaning.{
  IsFatal, Mark, was_skipped, was_processed, has_failed, IsRun, done, skips, processes, recovers,
  ends, times, counted,
}

recoverable_cases :
    (e : GoError)
    → ((is_recoverable (some e) ≡ true) × ¬ IsFatal e)
      ⊎ ((is_recoverable (some e) ≡ false) × IsFatal e)
unfolding is_recoverable
recoverable_cases (app code message http_status c) = ground arith
recoverable_cases (wraps text e) = inl (refl, λ f. f)
recoverable_cases (plain text) = inl (refl, λ f. f)

module _ {V : Type 0} where
  result_cases :
      (r : Result V) → ((x : Option V) × (r ≡ value x)) ⊎ ((e : GoError) × (r ≡ failure e))
  result_cases (value x) = inl (x, refl)
  result_cases (failure e) = inr (e, refl)

  -- A run with the counters that it starts from, and what it makes of them.
  abbrev pub IsCounted : List (Processor V) → Option V → Counts → Counts × Result V → Type 0
  IsCounted ps x c r = (ms : List Mark) × IsRun ps x ms r.1 × (r.0 ≡ counted ms c)

  turn-skipped :
      (p : Processor V) (x : Option V) (c : Counts)
      → p.can_process x ≡ false
      → turn p x c ≡ (record c { skipped = up c.skipped }, value x)
  unfolding turn
  turn-skipped p x c h = rw h refl

  turn-result :
      (p : Processor V) (x : Option V) (c : Counts) (r : Result V)
      → p.can_process x ≡ true
      → p.process x ≡ r
      → turn p x c ≡ turn_result p x c r
  unfolding turn
  turn-result p x c r h e = rw (h, e) refl

  process_all-turn :
      (p : Processor V) (ps : List (Processor V)) (x : Option V) (c : Counts)
      (r : Counts × Result V)
      → turn p x c ≡ r
      → process_all (p ∷ ps) x c ≡ continue (λ y d. process_all ps y d) r
  unfolding process_all
  process_all-turn p ps x c r e = ap (continue (λ y d. process_all ps y d)) e

  skipped-IsCounted :
      (p : Processor V) (ps : List (Processor V)) (x : Option V) (c : Counts)
      → p.can_process x ≡ false
      → IsCounted ps x
          (record c { skipped = up c.skipped })
          (process_all ps x (record c { skipped = up c.skipped }))
      → IsCounted (p ∷ ps) x c (process_all (p ∷ ps) x c)
  unfolding continue times
  skipped-IsCounted p ps x c cannot rest =
      let (ms, run, tally) = rest in
      rw (process_all-turn p ps x c _ (turn-skipped p x c cannot))
        (was_skipped ∷ ms, skips cannot run, tally)

  processed-IsCounted :
      (p : Processor V) (ps : List (Processor V)) (x y : Option V) (c : Counts)
      → p.can_process x ≡ true
      → p.process x ≡ value y
      → IsCounted ps y
          (record c { processed = up c.processed })
          (process_all ps y (record c { processed = up c.processed }))
      → IsCounted (p ∷ ps) x c (process_all (p ∷ ps) x c)
  unfolding turn_result continue times
  processed-IsCounted p ps x y c can e rest =
      let (ms, run, tally) = rest in
      rw (process_all-turn p ps x c _ (turn-result p x c (value y) can e))
        (was_processed ∷ ms, processes can e run, tally)

  failed-IsCounted :
      (p : Processor V) (ps : List (Processor V)) (x : Option V) (c : Counts) (e : GoError)
      → p.can_process x ≡ true
      → p.process x ≡ failure e
      → IsCounted ps x
          (record c { failed = up c.failed })
          (process_all ps x (record c { failed = up c.failed }))
      → IsCounted (p ∷ ps) x c (process_all (p ∷ ps) x c)
  unfolding turn_result continue times
  failed-IsCounted p ps x c e can failed rest =
      let (ms, run, tally) = rest in
      elim (recoverable_cases e) [
        | inl (soft, not_fatal) ↦
            let turned : turn p x c ≡ (record c { failed = up c.failed }, value x) =
              turn-result p x c (failure e) can failed ∙ rw soft refl in
            rw (process_all-turn p ps x c _ turned)
              (has_failed ∷ ms, recovers can failed not_fatal run, tally)
        | inr (hard, fatal) ↦
            let turned : turn p x c ≡ (
              record c { failed = up c.failed },
              failure (wraps (join_text "pipeline failed at " p.name) e),
            ) =
              turn-result p x c (failure e) can failed ∙ rw hard refl in
            rw (process_all-turn p ps x c _ turned) (has_failed ∷ [], ends can failed fatal, refl)
      ]

  -- The result of `Process` is that of a run over the processors in turn, which reaches every
  -- processor unless an application error of a status outside 500 to 599 ends it with an error that
  -- wraps it and names the processor; and the counters of skipped, processed and failed ones grow,
  -- in 64 bits, by the numbers of the reached processors that were skipped, have processed and have
  -- failed.
  pub process_all-IsCounted :
      (ps : List (Processor V)) (x : Option V) (c : Counts) → IsCounted ps x c (process_all ps x c)
  unfolding process_all times
  process_all-IsCounted [] x c = ([], done, refl)
  process_all-IsCounted (p ∷ ps) x c = elim (Bool-cases (p.can_process x)) [
    | inr cannot ↦ skipped-IsCounted p ps x c cannot (process_all-IsCounted ps x _)
    | inl can ↦ elim (result_cases (p.process x)) [
      | inl (y, e) ↦ processed-IsCounted p ps x y c can e (process_all-IsCounted ps y _)
      | inr (err, e) ↦ failed-IsCounted p ps x c err can e (process_all-IsCounted ps x _)
    ]
  ]
