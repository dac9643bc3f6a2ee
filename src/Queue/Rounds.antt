-- ===== src/Queue/Rounds.antt =====
-- crawler/task/queue.go: what `PopN` of a `PriorityQueue` returns, call of `Pop` by call of `Pop`.
use go_backend_kit.Common.{
  ℕ, zero, suc, sym, inl, inr, List, [], ◌∷◌, ℤ, pos_part, ◌≤ℤ◌, eq_ℤ, eq_ℤ_iff, arith, All,
  Bool-cases,
}
use mathlib.Core.Path.{subst}
use go_backend_kit.Task.{Task}
use go_backend_kit.Queue.Priority.{PriorityQueue, priorities, pop_times, pop_n}
use go_backend_kit.Queue.Order.{
  IsFiled, IsTop, Took, Served-IsTop, Served-Took, priorities-IsDescending, pop-Served,
}
use go_backend_kit.Queue.View.{tasks_at, Served, hit, miss}

-- A bound on the priorities of the tasks in the queues that `Pop` reads.
IsTop-Served :
    (p : ℤ) (pq : PriorityQueue) (t : Task) (pq' : PriorityQueue) (ps : List ℤ)
    → Served pq t pq' ps
    → IsTop p pq ps
    → t.priority ≤ℤ p
IsTop-Served p pq t pq' _ (hit q ps s) h = (cell h.0).0
  where
    cell :
        All (λ u. u.priority ≤ℤ p) (tasks_at q pq)
        → (t.priority ≤ℤ p) × All (λ u. u.priority ≤ℤ p) (tasks_at q pq')
    cell a = rw s.first at a
IsTop-Served p pq t pq' _ (miss q ps e s) h = IsTop-Served p pq t pq' ps s h.1

Took-IsTop :
    (p : ℤ) (pq : PriorityQueue) (t : Task) (pq' : PriorityQueue) (ps : List ℤ)
    → Took pq t pq'
    → IsTop p pq ps
    → IsTop p pq' ps
Took-IsTop p pq t pq' [] s h = tt
Took-IsTop p pq t pq' (i ∷ ps) s h = (
  elim (Bool-cases (eq_ℤ i t.priority)) [
    | inl e ↦
        subst (λ j. All (λ u. u.priority ≤ℤ p) (tasks_at j pq')) (sym ((eq_ℤ_iff i t.priority).0 e))
          (cell (
            subst (λ j. All (λ u. u.priority ≤ℤ p) (tasks_at j pq)) ((eq_ℤ_iff i t.priority).0 e)
              h.0))
    | inr ne ↦ rw (s.others i (λ e. ground (arith, eq_ℤ_iff i t.priority))) h.0
  ],
  Took-IsTop p pq t pq' ps s h.1,
)
  where
    cell :
        All (λ u. u.priority ≤ℤ p) (tasks_at t.priority pq)
        → All (λ u. u.priority ≤ℤ p) (tasks_at t.priority pq')
    cell a =
        let both : All (λ u. u.priority ≤ℤ p) (t ∷ tasks_at t.priority pq') =
          subst (All (λ u. u.priority ≤ℤ p)) s.first a in
        both.1

pop_times-bounded :
    (n : ℕ) (p : ℤ) (pq : PriorityQueue)
    → IsFiled pq
    → IsTop p pq priorities
    → All (λ u. u.priority ≤ℤ p) (pop_times n pq).0
unfolding pop_times
pop_times-bounded zero p pq h top = tt
pop_times-bounded (suc n) p pq h top = elim (pop-Served pq) [
  | inl (e, _) ↦ rw (e, pop_times) tt
  | inr (t, pq', e, s) ↦
      let took = Served-Took pq t pq' priorities h s in
      rw (e, pop_times)
        (
          IsTop-Served p pq t pq' priorities s top,
          pop_times-bounded n p pq' took.still_filed (Took-IsTop p pq t pq' priorities took top),
        )
]

abbrev pub IsNonIncreasing : List Task → Type 0
IsNonIncreasing [] = Unit
IsNonIncreasing (t ∷ ts) = All (λ u. u.priority ≤ℤ t.priority) ts × IsNonIncreasing ts

pop_times-IsNonIncreasing :
    (n : ℕ) (pq : PriorityQueue) → IsFiled pq → IsNonIncreasing (pop_times n pq).0
unfolding pop_times
pop_times-IsNonIncreasing zero pq h = tt
pop_times-IsNonIncreasing (suc n) pq h = elim (pop-Served pq) [
  | inl (e, _) ↦ rw (e, pop_times) tt
  | inr (t, pq', e, s) ↦
      let took = Served-Took pq t pq' priorities h s in
      let top = Served-IsTop pq t pq' priorities priorities-IsDescending h s in
      rw (e, pop_times)
        (
          pop_times-bounded n t.priority pq' took.still_filed
              (Took-IsTop t.priority pq t pq' priorities took top),
          pop_times-IsNonIncreasing n pq' took.still_filed,
        )
]

-- `PopN` of a priority queue whose tasks stand under their own priorities returns its tasks in an
-- order in which no priority is higher than an earlier one.
pub pop_n-IsNonIncreasing :
    (n : ℤ) (pq : PriorityQueue) → IsFiled pq → IsNonIncreasing (pop_n n pq).0
unfolding pop_n
pop_n-IsNonIncreasing n pq h = pop_times-IsNonIncreasing (pos_part n) pq h
