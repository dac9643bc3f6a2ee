-- ===== src/Queue/Interface.antt =====
-- crawler/task/queue.go: the `Queue` interface as its clients use it, with the laws that they need.
use go_backend_kit.Common.{
  ℕ, ◌+◌, String, ◌≡◌, ◌≢◌, Option, none, List, [], ◌∷◌, ◌++◌, ℤ, Time, arith,
}
use go_backend_kit.Task.{Task}
use go_backend_kit.Queue.Types.{QueueError, Outcome, done, error, panics}

-- The weight of a list of tasks, each weighed by its identifier. Two lists that weigh the same
-- under every weight hold the same identifiers, each as often.
abbrev pub weigh_tasks : (String → ℕ) → List Task → ℕ
weigh_tasks w [] = 0
weigh_tasks w (t ∷ ts) = w t.id + weigh_tasks w ts

pub weigh_tasks-append :
    (w : String → ℕ) (ts us : List Task)
    → weigh_tasks w (ts ++ us) ≡ weigh_tasks w ts + weigh_tasks w us
weigh_tasks-append w [] us = omega arith
weigh_tasks-append w (t ∷ ts) us = omega (arith, weigh_tasks-append w ts us)

-- The tasks that a call hands over.
abbrev pub handed_over : Outcome (List Task) → List Task
handed_over (done ts) = ts
handed_over (error e) = []
handed_over panics = []

pub record QueueOps (Q : Type 0) : Type 0 where
  pub push : Time → Task → Q → Q × Option QueueError
  pub push_batch : Time → List Task → Q → Q × Option QueueError
  pub pop_n : ℤ → Q → Q × Outcome (List Task)

pub record QueueLaws {Q : Type 0} (ops : QueueOps Q) : Type 0 where
  pub weigh : (String → ℕ) → Q → ℕ
  pub push_ok :
      (w : String → ℕ) (now : Time) (t : Task) (q : Q)
      → (ops.push now t q).1 ≡ none
      → weigh w (ops.push now t q).0 ≡ weigh w q + w t.id
  pub push_error :
      (w : String → ℕ) (now : Time) (t : Task) (q : Q)
      → (ops.push now t q).1 ≢ none
      → weigh w (ops.push now t q).0 ≡ weigh w q
  pub pop_n_hands_over :
      (w : String → ℕ) (n : ℤ) (q : Q)
      → weigh w (ops.pop_n n q).0 + weigh_tasks w (handed_over (ops.pop_n n q).1) ≡ weigh w q
