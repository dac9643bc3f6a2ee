-- ===== src/Task/Labels.antt =====
-- crawler/task/task.go: tags behave as a set, and `Validate` accepts exactly the runnable tasks.
use go_backend_kit.Common.{
  String, ◌≡◌, ◌≢◌, ◌↔◌, true, ◌||◌, none, List, [], ◌∷◌, ◌++◌, pos, ◌≤ℤ◌, ◌<ℤ◌, arith, str_eq,
  eq_iff,
}
use go_backend_kit.Task.Types.{Task}
use go_backend_kit.Task.Lifecycle.{contains_tag, has_tag, add_tag, validate}

contains_tag-append :
    (u v : String) (ts : List String)
    → contains_tag u (ts ++ v ∷ []) ≡ (contains_tag u ts || str_eq v u)
unfolding contains_tag
contains_tag-append u v [] = ground arith
contains_tag-append u v (t ∷ ts) = ground (arith, contains_tag-append u v ts)

-- `AddTag` makes its tag present, changes the presence of no other tag, and does nothing when done
-- again.
pub add_tag_lem :
    (tag u : String) (t : Task)
    → (has_tag tag (add_tag tag t) ≡ true)
      × (u ≢ tag → has_tag u (add_tag tag t) ≡ has_tag u t)
      × (add_tag tag (add_tag tag t) ≡ add_tag tag t)
unfolding has_tag add_tag
add_tag_lem tag u t = ground (
  arith,
  contains_tag-append tag tag t.tags,
  contains_tag-append u tag t.tags,
  eq_iff tag tag,
  eq_iff tag u,
)

-- A task passes `Validate` exactly if it has an address, a type, a retry budget that is not
-- negative and a positive timeout; a task that passes leaves with a method, and a task that had
-- one leaves unchanged.
pub validate_lem :
    (t : Task)
    → (((validate t).1 ≡ none)
        ↔ ((t.url ≢ "") × (t.task_type ≢ "") × (pos 0 ≤ℤ t.max_retries) × (pos 0 <ℤ t.timeout)))
      × ((validate t).1 ≡ none → (validate t).0.method ≢ "")
      × (t.method ≢ "" → (validate t).0 ≡ t)
unfolding validate
validate_lem t =
    ground (arith, eq_iff t.url "", eq_iff t.task_type "", eq_iff t.method "", eq_iff "GET" "")
