-- ===== src/Tests/Processing.antt =====
-- crawler/pipeline/pipeline.go at concrete inputs.
use go_backend_kit.Common.{
  ℕ, ◌+◌, true, Option, none, some, List, [], ◌∷◌, pos, leb, is_some, if◌then◌else◌,
}
use go_backend_kit.Pipeline.{
  plain, new_with_status, Result, value, failure, Processor, Counts, Pipeline, process_all,
  process_batch,
}
use go_backend_kit.Pipeline.Runs.{process_batch-IsBatch}
use go_backend_kit.Pipeline.Meaning.{IsBatch}
use go_backend_kit.Pipeline.Tally.{IsCounted, process_all-IsCounted}

abbrev add_two : Option ℕ → Result ℕ
add_two none = failure (plain "no data")
add_two (some n) = value (some (n + 2))

abbrev small_only : Option ℕ → Result ℕ
small_only none = value none
small_only (some n) =
    if leb n 10
    then value (some n)
    else failure (new_with_status "BAD_REQUEST" "too large" (pos 400))

abbrev steps : List (Processor ℕ)
steps =
    record { name = "add"; process = add_two; can_process = λ x. is_some x }
    ∷ record { name = "check"; process = small_only; can_process = λ x. true }
    ∷ []

abbrev zeros : Counts
zeros = record { processed = pos 0; failed = pos 0; skipped = pos 0 }

abbrev pipe : Pipeline ℕ
pipe = record { name = "numbers"; processors = steps; counts = zeros }

process_batch-IsBatch_example :
    IsBatch steps (some 3 ∷ some 9 ∷ none ∷ []) (process_batch (some 3 ∷ some 9 ∷ none ∷ []) pipe).1
process_batch-IsBatch_example = process_batch-IsBatch (some 3 ∷ some 9 ∷ none ∷ []) pipe

process_all-IsCounted_example : IsCounted steps (some 9) zeros (process_all steps (some 9) zeros)
process_all-IsCounted_example = process_all-IsCounted steps (some 9) zeros
