-- ===== src/Queue/Occupancy.antt =====
-- crawler/task/queue.go: how many tasks a `PriorityQueue` has at each priority, and room for them.
use mathlib.Core.Path.{subst}
use go_backend_kit.Common.{
  ℕ, zero, suc, ◌+◌, Bool-cases, inl, inr, ◌≡◌, refl, sym, ◌∙◌, ap, none, List, [], ◌∷◌, ℤ, pos,
  pos_part, ◌≤ℤ◌, eq_ℤ, eq_ℤ_iff, Time, arith, length, length-append, if◌then◌else◌,
}
use go_backend_kit.Task.{Task}
use go_backend_kit.Queue.Priority.{PriorityQueue, push, pop_times, pop_n, priorities}
use go_backend_kit.Queue.View.{tasks_at, capacity_at, push-Pushed}
use go_backend_kit.Queue.Order.{IsFiled, Took, Served-Took, pop-Served}

abbrev pub count_at : ℤ → List Task → ℕ
count_at p [] = 0
count_at p (t ∷ ts) = if eq_ℤ t.priority p then suc (count_at p ts) else count_at p ts

-- Each priority has room for its waiting tasks and those of a list.
abbrev pub HasRoomFor : List Task → PriorityQueue → Type 0
HasRoomFor ts pq = (p : ℤ) → pos (length (tasks_at p pq) + count_at p ts) ≤ℤ capacity_at p pq

Took-length :
    (pq : PriorityQueue) (t : Task) (pq' : PriorityQueue) (p : ℤ)
    → Took pq t pq'
    → length (tasks_at p pq)
      ≡ (if eq_ℤ t.priority p then suc (length (tasks_at p pq')) else length (tasks_at p pq'))
Took-length pq t pq' p took = elim (Bool-cases (eq_ℤ t.priority p)) [
  | inl b ↦ rw b (
      subst (λ q. length (tasks_at q pq) ≡ suc (length (tasks_at q pq')))
        ((eq_ℤ_iff t.priority p).0 b) (ap length took.first))
  | inr b ↦ rw b (ap length (sym (took.others p (λ e. ground (arith, eq_ℤ_iff t.priority p)))))
]

-- What `PopN` takes at each priority, and that it changes no capacity.
abbrev IsTaken : PriorityQueue → List Task × PriorityQueue → Type 0
IsTaken pq r =
    (p : ℤ)
    → (length (tasks_at p pq) ≡ length (tasks_at p r.1) + count_at p r.0)
      × (capacity_at p r.1 ≡ capacity_at p pq)

pop_times-IsTaken : (n : ℕ) (pq : PriorityQueue) → IsFiled pq → IsTaken pq (pop_times n pq)
unfolding pop_times
pop_times-IsTaken zero pq h p = (omega arith, refl)
pop_times-IsTaken (suc n) pq h p = elim (pop-Served pq) [
  | inl (e, _) ↦ rw (e, pop_times) (omega arith, refl)
  | inr (t, pq', e, s) ↦
      let took = Served-Took pq t pq' priorities h s in
      let (lengths, capacities) = pop_times-IsTaken n pq' took.still_filed p in
      rw (e, pop_times)
        (ground (arith, Took-length pq t pq' p took, lengths), capacities ∙ took.same_capacity p)
]

pub pop_n-HasRoomFor :
    (n : ℤ) (pq : PriorityQueue)
    → IsFiled pq
    → HasRoomFor [] pq
    → HasRoomFor (pop_n n pq).0 (pop_n n pq).1
unfolding pop_n
pop_n-HasRoomFor n pq filed h p =
    let (lengths, capacities) = pop_times-IsTaken (pos_part n) pq filed p in
    rw capacities (rw⁻¹ lengths (omega (arith, h p)))

-- A task that has room is queued.
pub push-HasRoomFor :
    (now : Time) (t : Task) (ts : List Task) (pq : PriorityQueue)
    → HasRoomFor (t ∷ ts) pq
    → ((push now t pq).1 ≡ none) × HasRoomFor ts (push now t pq).0
push-HasRoomFor now t ts pq h = (queued, room)
  where
    queued : (push now t pq).1 ≡ none
    queued =
        ground (arith, (push-Pushed now t pq).accepts, h t.priority, eq_ℤ_iff t.priority t.priority)

    grown :
        (p : ℤ)
        → length (tasks_at p (push now t pq).0)
          ≡ (if eq_ℤ t.priority p then suc (length (tasks_at p pq)) else length (tasks_at p pq))
    grown p = elim (Bool-cases (eq_ℤ t.priority p)) [
      | inl b ↦ rw b (
          subst (λ q. length (tasks_at q (push now t pq).0) ≡ suc (length (tasks_at q pq)))
            ((eq_ℤ_iff t.priority p).0 b)
            (ap length ((push-Pushed now t pq).appended queued)
              ∙ length-append (tasks_at t.priority pq) _
              ∙ omega arith))
      | inr b ↦
          rw b (
            ap length
              ((push-Pushed now t pq).others p (λ e. ground (arith, eq_ℤ_iff t.priority p))))
    ]

    room : HasRoomFor ts (push now t pq).0
    room p =
        subst (λ c. pos (length (tasks_at p (push now t pq).0) + count_at p ts) ≤ℤ c)
          (sym ((push-Pushed now t pq).same_capacity p)) (ground (arith, grown p, h p))
