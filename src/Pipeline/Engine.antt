-- ===== src/Pipeline/Engine.antt =====
-- crawler/pipeline/pipeline.go: data through a list of processors.
-- Data is an `interface{}`: `none` is nil.
use Prim.Native.String.{◌++◌ as join_text}
use go_backend_kit.Common.{
  String, Bool, Option, none, some, List, [], ◌∷◌, ◌++◌, ℤ, pos, ◌+ℤ◌, wrap64, if◌then◌else◌,
}
use go_backend_kit.Pipeline.Errors.{GoError, wraps, is_recoverable}

pub data Result (V : Type 0) : Type 0 where
  value : Option V → Result V
  failure : GoError → Result V

pub record Processor (V : Type 0) : Type 0 where
  pub name : String
  pub process : Option V → Result V
  pub can_process : Option V → Bool

pub record Counts : Type 0 where
  pub processed : ℤ
  pub failed : ℤ
  pub skipped : ℤ

pub record Pipeline (V : Type 0) : Type 0 where
  pub name : String
  pub processors : List (Processor V)
  pub counts : Counts

abbrev pub up : ℤ → ℤ
up n = wrap64 (n +ℤ pos 1)

module _ {V : Type 0} where
  unfoldable pub new_pipeline : String → Pipeline V
  new_pipeline name = record {
    name = name;
    processors = [];
    counts = record { processed = pos 0; failed = pos 0; skipped = pos 0 };
  }

  unfoldable pub add_processor : Processor V → Pipeline V → Pipeline V
  add_processor p pipe = record pipe { processors = pipe.processors ++ p ∷ [] }

  -- What is left of one processor's turn: the data to go on with, or the error that ends the loop.
  unfoldable pub turn_result : Processor V → Option V → Counts → Result V → Counts × Result V
  turn_result p x c (value y) = (record c { processed = up c.processed }, value y)
  turn_result p x c (failure e) = (
    record c { failed = up c.failed },
    if is_recoverable (some e)
        then value x
        else failure (wraps (join_text "pipeline failed at " p.name) e),
  )

  -- The body of the loop of `Process`.
  unfoldable pub turn : Processor V → Option V → Counts → Counts × Result V
  unfolding turn_result
  turn p x c =
      if p.can_process x
      then turn_result p x c (p.process x)
      else (record c { skipped = up c.skipped }, value x)

  -- An error ends the loop, else `go_on` takes the data.
  unfoldable pub continue :
      (Option V → Counts → Counts × Result V) → Counts × Result V → Counts × Result V
  continue go_on (c, value x) = go_on x c
  continue go_on (c, failure e) = (c, failure e)

  unfoldable pub process_all : List (Processor V) → Option V → Counts → Counts × Result V
  unfolding turn continue
  process_all [] x c = (c, value x)
  process_all (p ∷ ps) x c = continue (λ y d. process_all ps y d) (turn p x c)

  unfoldable pub process : Pipeline V → Option V → Pipeline V × Result V
  unfolding process_all
  process pipe x =
      let (c, r) = process_all pipe.processors x pipe.counts in (record pipe { counts = c }, r)

  -- Failed items and nil results are left out.
  abbrev pub kept : Result V → List V
  kept (value (some v)) = v ∷ []
  kept (value none) = []
  kept (failure e) = []

  unfoldable pub process_batch : List (Option V) → Pipeline V → Pipeline V × List V
  unfolding process
  process_batch [] pipe = (pipe, [])
  process_batch (x ∷ xs) pipe =
      let (pipe', r) = process pipe x in
      let (pipe'', vs) = process_batch xs pipe' in (pipe'', kept r ++ vs)

  unfoldable pub clear : Pipeline V → Pipeline V
  clear pipe = record pipe { processors = [] }

  unfoldable pub conditional : Processor V → (Option V → Bool) → Processor V
  conditional p condition = record {
    name = join_text "conditional:" p.name;
    process = λ x. if condition x then p.process x else value x;
    can_process = p.can_process;
  }
