-- ===== src/Instances/Allocator.antt =====
-- crawler/task/manager.go: `DefaultTaskAllocator`.
use go_backend_kit.Common.{
  String, Option, none, some, List, [], ◌∷◌, ℤ, ltb_ℤ, string_key, str_eq, max_int64, if◌then◌else◌,
}
use go_backend_kit.Dispatch.{
  NodeInfo, Pick, chosen, no_node, select_hash_node, select_round_robin_node,
}
use go_backend_kit.Instances.Types.{TaskInstance}

-- `DefaultTaskAllocator`.
unfoldable pub least_loaded : Option NodeInfo → ℤ → List NodeInfo → Option NodeInfo
least_loaded selected min_load [] = selected
least_loaded selected min_load (n ∷ ns) =
    let better = ltb_ℤ n.current_load min_load in
    least_loaded (if better then some n else selected) (if better then n.current_load else min_load)
      ns

unfoldable pub allocate_least_load : List NodeInfo → Pick
unfolding least_loaded
allocate_least_load ns = elim (least_loaded none max_int64 ns) [
  | none ↦ no_node
  | some n ↦ chosen n
]

-- No pick is the error for no available node.
unfoldable pub allocate : String → ℤ → TaskInstance → List NodeInfo → Option Pick
allocate strategy nanos i [] = none
allocate strategy nanos i (n ∷ ns) =
    if str_eq strategy "least-load"
    then some (allocate_least_load (n ∷ ns))
    else if str_eq strategy "hash"
    then some (select_hash_node (n ∷ ns) i.task)
    else some (select_round_robin_node nanos (n ∷ ns))
