-- ===== src/Pipeline/Runs.antt =====
-- crawler/pipeline/pipeline.go: results do not depend on the counters, and the counters add up.
use go_backend_kit.Common.{◌≡◌, refl, Option, none, some, List, [], ◌∷◌, ◌++◌}
use go_backend_kit.Pipeline.Meaning.{Mark, IsRun, IsBatch, no_items, keeps, leaves_nil, drops}
use go_backend_kit.Pipeline.Tally.{process_all-IsCounted}
use go_backend_kit.Pipeline.Engine.{
  Result, value, failure, Processor, Counts, Pipeline, turn, continue, process_all, process, kept,
  process_batch,
}

module _ {V : Type 0} where
  process-processors :
      (pipe : Pipeline V) (x : Option V) → (process pipe x).0.processors ≡ pipe.processors
  unfolding process
  process-processors pipe x = refl

  kept-IsBatch :
      (ps : List (Processor V)) (x : Option V) (xs : List (Option V)) (ms : List Mark)
      (r : Result V) (vs : List V)
      → IsRun ps x ms r
      → IsBatch ps xs vs
      → IsBatch ps (x ∷ xs) (kept r ++ vs)
  kept-IsBatch ps x xs ms (value (some v)) vs run rest = keeps run rest
  kept-IsBatch ps x xs ms (value none) vs run rest = leaves_nil run rest
  kept-IsBatch ps x xs ms (failure e) vs run rest = drops run rest

  -- Whatever the counters are, a batch gives, in order, exactly the values other than nil that runs
  -- of its items over the processors give: a processor that cannot handle the data is skipped, one
  -- that fails with any error but an application error of a status outside 500 to 599 leaves the
  -- data as it was, such an error ends the run and drops the item, and every other processor hands
  -- its value on.
  pub process_batch-IsBatch :
      (xs : List (Option V)) (pipe : Pipeline V)
      → IsBatch pipe.processors xs (process_batch xs pipe).1
  unfolding process_batch process
  process_batch-IsBatch [] pipe = no_items
  process_batch-IsBatch (x ∷ xs) pipe =
      let (ms, run, tally) = process_all-IsCounted pipe.processors x pipe.counts in
      kept-IsBatch pipe.processors x xs ms _ _ run (process_batch-IsBatch xs (process pipe x).0)

  continue-continue :
      (f g h : Option V → Counts → Counts × Result V) (r : Counts × Result V)
      → ((x : Option V) (c : Counts) → h x c ≡ continue g (f x c))
      → continue h r ≡ continue g (continue f r)
  unfolding continue
  continue-continue f g h (c, value x) e = e x c
  continue-continue f g h (c, failure err) e = refl

  -- Running the processors of two lists one after another gives the result and the counters of
  -- running the first list and then, unless it fails, the second list on what it leaves.
  pub process_all-append :
      (ps qs : List (Processor V)) (x : Option V) (c : Counts)
      → process_all (ps ++ qs) x c ≡ continue (λ y d. process_all qs y d) (process_all ps x c)
  unfolding process_all continue
  process_all-append [] qs x c = refl
  process_all-append (p ∷ ps) qs x c =
      continue-continue (λ y d. process_all ps y d) (λ y d. process_all qs y d)
        (λ y d. process_all (ps ++ qs) y d) (turn p x c) (λ y d. process_all-append ps qs y d)
