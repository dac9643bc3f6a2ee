-- ===== src/Queue/Order.antt =====
-- crawler/task/queue.go: `PriorityQueue` serves the highest priority first, and first come first
-- served within one.
use go_backend_kit.Common.{
  ◌≡◌, refl, sym, ◌∙◌, ◌≢◌, ◌⊎◌, ◌↔◌, inl, inr, none, some, List, [], ◌∷◌, ℤ, ◌≤ℤ◌, ◌<ℤ◌, eq_ℤ,
  eq_ℤ_iff, get, Time, arith, All, All-append, Bool-cases, Option-cases,
}
use mathlib.Core.Path.{subst}
use mathlib.Core.Option.{some-injective}
use go_backend_kit.Task.{Task, enqueue}
use go_backend_kit.Queue.Priority.{PriorityQueue, new_priority_queue, priorities, push, pop}
use go_backend_kit.Queue.View.{
  tasks_at, capacity_at, push-Pushed, Popped, Served, hit, miss, pop_from-Served,
}

-- Every task stands in the queue of its own priority.
abbrev pub IsFiled : PriorityQueue → Type 0
IsFiled pq = (i : ℤ) → All (λ t. t.priority ≡ i) (tasks_at i pq)

new-tasks_at : (i : ℤ) → tasks_at i new_priority_queue ≡ []
unfolding new_priority_queue get
new-tasks_at i = ground arith

pub new-IsFiled : IsFiled new_priority_queue
new-IsFiled i = rw (new-tasks_at i) tt

pub push-IsFiled :
    (now : Time) (t : Task) (pq : PriorityQueue) → IsFiled pq → IsFiled (push now t pq).0
push-IsFiled now t pq h i = elim (Bool-cases (eq_ℤ i t.priority)) [
  | inr ne ↦ rw ((push-Pushed now t pq).others i (λ e. ground (arith, eq_ℤ_iff i t.priority))) (h i)
  | inl e ↦ rw ((eq_ℤ_iff i t.priority).0 e) (elim (Option-cases (push now t pq).1) [
    | inl fits ↦ rw ((push-Pushed now t pq).appended fits) (
        All-append (λ u. u.priority ≡ t.priority) (tasks_at t.priority pq) _ (h t.priority)
          (unfold enqueue in (refl, tt)))
    | inr (err, full) ↦ rw ((push-Pushed now t pq).refused (λ f. cc)) (h t.priority)
  ])
]

Popped-IsFiled :
    (p : ℤ) (pq : PriorityQueue) (t : Task) (pq' : PriorityQueue)
    → Popped p pq t pq'
    → IsFiled pq
    → IsFiled pq' × (t.priority ≡ p)
Popped-IsFiled p pq t pq' s h = (filed, cell.0)
  where
    cell : (t.priority ≡ p) × All (λ u. u.priority ≡ p) (tasks_at p pq')
    cell = rw s.first at (h p)

    filed : IsFiled pq'
    filed i = elim (Bool-cases (eq_ℤ i p)) [
      | inl e ↦ rw ((eq_ℤ_iff i p).0 e) cell.1
      | inr ne ↦ rw (s.others i (λ e. ground (arith, eq_ℤ_iff i p))) (h i)
    ]

abbrev pub IsDescending : List ℤ → Type 0
IsDescending [] = Unit
IsDescending (p ∷ ps) = All (λ i. i <ℤ p) ps × IsDescending ps

-- No task waits at a higher priority than `p` in the queues of `ps`.
abbrev pub IsTop : ℤ → PriorityQueue → List ℤ → Type 0
IsTop p pq ps = All (λ i. All (λ u. u.priority ≤ℤ p) (tasks_at i pq)) ps

All-le :
    (i p : ℤ) (us : List Task)
    → i ≤ℤ p
    → All (λ u. u.priority ≡ i) us
    → All (λ u. u.priority ≤ℤ p) us
All-le i p [] le h = tt
All-le i p (u ∷ us) le h = (rw h.0 le, All-le i p us le h.1)

IsTop-below :
    (p : ℤ) (pq : PriorityQueue) (ps : List ℤ) → IsFiled pq → All (λ i. i <ℤ p) ps → IsTop p pq ps
IsTop-below p pq [] h d = tt
IsTop-below p pq (i ∷ ps) h d =
    (All-le i p (tasks_at i pq) (omega (arith, d.0)) (h i), IsTop-below p pq ps h d.1)

pub Served-IsTop :
    (pq : PriorityQueue) (t : Task) (pq' : PriorityQueue) (ps : List ℤ)
    → IsDescending ps
    → IsFiled pq
    → Served pq t pq' ps
    → IsTop t.priority pq ps
Served-IsTop pq t pq' _ d h (hit p ps s) =
    let (_, e) = Popped-IsFiled p pq t pq' s h in
    (
      All-le p t.priority (tasks_at p pq) (rw e (omega arith)) (h p),
      IsTop-below t.priority pq ps h (rw e d.0),
    )
Served-IsTop pq t pq' _ d h (miss p ps e s) = (rw e tt, Served-IsTop pq t pq' ps d.1 h s)

-- What a call of `Pop` does to the lists of the priorities.
pub record Took (pq : PriorityQueue) (t : Task) (pq' : PriorityQueue) : Type 0 where
  pub first : tasks_at t.priority pq ≡ t ∷ tasks_at t.priority pq'
  pub others : (i : ℤ) → i ≢ t.priority → tasks_at i pq' ≡ tasks_at i pq
  pub still_filed : IsFiled pq'
  pub same_capacity : (i : ℤ) → capacity_at i pq' ≡ capacity_at i pq

pub Served-Took :
    (pq : PriorityQueue) (t : Task) (pq' : PriorityQueue) (ps : List ℤ)
    → IsFiled pq
    → Served pq t pq' ps
    → Took pq t pq'
Served-Took pq t pq' _ h (hit p ps s) =
    let (filed, e) = Popped-IsFiled p pq t pq' s h in
    record {
      first = subst (λ i. tasks_at i pq ≡ t ∷ tasks_at i pq') (sym e) s.first;
      others = subst (λ p. (i : ℤ) → i ≢ p → tasks_at i pq' ≡ tasks_at i pq) (sym e) s.others;
      still_filed = filed;
      same_capacity = s.same_capacity;
    }
Served-Took pq t pq' _ h (miss p ps e s) = Served-Took pq t pq' ps h s

pub priorities-IsDescending : IsDescending priorities
priorities-IsDescending = omega arith

pub pop-Served :
    (pq : PriorityQueue)
    → ((pop pq ≡ none) × All (λ p. tasks_at p pq ≡ []) priorities)
      ⊎ ((t : Task) × (pq' : PriorityQueue) × (pop pq ≡ some (t, pq')) × Served pq t pq' priorities)
unfolding pop
pop-Served pq = pop_from-Served priorities pq

pop-some :
    (pq : PriorityQueue) (t : Task) (pq' : PriorityQueue)
    → pop pq ≡ some (t, pq')
    → Served pq t pq' priorities
pop-some pq t pq' e = elim (pop-Served pq) [
  | inl (f, _) ↦ cc
  | inr (u, pq'', f, s) ↦
      subst (λ r. Served pq r.0 r.1 priorities) (some-injective _ _ (sym f ∙ e)) s
]

Served-nonempty :
    (pq : PriorityQueue) (t : Task) (pq' : PriorityQueue) (ps : List ℤ)
    → Served pq t pq' ps
    → ¬ All (λ p. tasks_at p pq ≡ []) ps
Served-nonempty pq t pq' _ (hit p ps s) (e, _) = cc (s.first)
Served-nonempty pq t pq' _ (miss p ps e s) (_, rest) = Served-nonempty pq t pq' ps s rest

-- In a priority queue whose tasks stand under their own priorities, a `Pop` that returns a task
-- takes the oldest one of its priority, leaves the other priorities alone and all tasks under
-- their own priorities, and no task with one of the four named priorities waits at a higher
-- priority.
pub pop_highest :
    (pq : PriorityQueue) (t : Task) (pq' : PriorityQueue)
    → IsFiled pq
    → pop pq ≡ some (t, pq')
    → Took pq t pq' × IsTop t.priority pq priorities
pop_highest pq t pq' h e =
    let s = pop-some pq t pq' e in
    (
      Served-Took pq t pq' priorities h s,
      Served-IsTop pq t pq' priorities priorities-IsDescending h s,
    )

-- `Pop` of a priority queue fails exactly if no task waits at one of the four named priorities.
pub pop-none_iff : (pq : PriorityQueue) → (pop pq ≡ none) ↔ All (λ p. tasks_at p pq ≡ []) priorities
pop-none_iff pq = elim (pop-Served pq) [
  | inl (f, empty) ↦ (λ _. empty, λ _. f)
  | inr (t, pq', f, s) ↦ (λ g. cc, λ empty. absurd (Served-nonempty pq t pq' priorities s empty))
]
