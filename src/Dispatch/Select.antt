-- ===== src/Dispatch/Select.antt =====
-- crawler/task/dispatcher.go: the selection of a node.
use Prim.Native.Char.{code}
use go_backend_kit.Common.{
  ℕ, suc, ◌+◌, ◌-◌, ◌*◌, ◌/◌, ◌%◌, String, ◌&&◌, Option, none, some, List, [], ◌∷◌, ◌++◌, ℤ, pos,
  negsuc, ◌+ℤ◌, ltb, ltb_ℤ, wrap64, get, string_key, str_eq, max_int64, length, get_elem?,
  if◌then◌else◌,
}
use go_backend_kit.Task.{Task, Value, text}
use go_backend_kit.Dispatch.Types.{
  Strategy, least_load, hash, sticky, NodeInfo, Pick, chosen, no_node, crash,
}

abbrev some_node : Option NodeInfo → Pick
some_node none = no_node
some_node (some n) = chosen n

-- The loop over the nodes, with the selection and the least load so far.
unfoldable pub least_of : Option NodeInfo → ℤ → List NodeInfo → Option NodeInfo
least_of selected min_load [] = selected
least_of selected min_load (n ∷ ns) =
    let better = ltb_ℤ n.current_load min_load && ltb_ℤ n.current_load n.capacity in
    least_of (if better then some n else selected) (if better then n.current_load else min_load) ns

unfoldable pub select_least_load_node : List NodeInfo → Pick
unfolding least_of
select_least_load_node nodes = some_node (least_of none max_int64 nodes)

-- The UTF-8 bytes of a text.
unfoldable pub utf8 : ℕ → List ℕ
utf8 c =
    if ltb c 128
    then c ∷ []
    else if ltb c 2048
    then (192 + c / 64) ∷ (128 + c % 64) ∷ []
    else if ltb c 65536
    then (224 + c / 4096) ∷ (128 + c / 64 % 64) ∷ (128 + c % 64) ∷ []
    else (240 + c / 262144) ∷ (128 + c / 4096 % 64) ∷ (128 + c / 64 % 64) ∷ (128 + c % 64) ∷ []

unfoldable pub bytes : String → List ℕ
unfolding utf8
bytes String.[] = []
bytes (String.◌∷◌ c s) = utf8 (code c) ++ bytes s

-- `hash * 31`
abbrev times_31 : ℤ → ℤ
times_31 (pos n) = pos (31 * n)
times_31 (negsuc n) = negsuc (31 * n + 30)

-- The loop `hash = hash*31 + int(b)`, in 64 bits.
unfoldable pub hash_from : ℤ → List ℕ → ℤ
hash_from h [] = h
hash_from h (b ∷ bs) = hash_from (wrap64 (times_31 h +ℤ pos b)) bs

unfoldable pub hash_of : String → ℤ
unfolding hash_from bytes
hash_of url = hash_from (pos 0) (bytes url)

-- Go's `%`: the remainder has the sign of the dividend.
unfoldable pub remainder : ℤ → ℕ → ℤ
remainder (pos n) m = pos (n % m)
remainder (negsuc n) m = if ltb 0 (suc n % m) then negsuc (suc n % m - 1) else pos 0

-- `nodes[i]`
unfoldable pub node_at : List NodeInfo → ℤ → Pick
node_at nodes (negsuc i) = crash
node_at nodes (pos i) = elim (get_elem? nodes i) [ none ↦ crash | some n ↦ chosen n ]

unfoldable pub select_hash_node : List NodeInfo → Task → Pick
unfolding hash_of remainder node_at
select_hash_node [] t = no_node
select_hash_node (n ∷ ns) t = node_at (n ∷ ns) (remainder (hash_of t.url) (length (n ∷ ns)))

-- The search for the preferred node.
unfoldable pub node_with_id : String → List NodeInfo → Option NodeInfo
node_with_id id [] = none
node_with_id id (n ∷ ns) = if str_eq n.id id then some n else node_with_id id ns

abbrev pub preferred : Option Value → Option String
preferred (some (text s)) = some s
preferred _ = none

abbrev or_else : Option NodeInfo → Pick → Pick
or_else none p = p
or_else (some n) p = chosen n

unfoldable pub select_sticky_node : List NodeInfo → Task → Pick
unfolding node_with_id select_hash_node
select_sticky_node nodes t = elim (preferred (get "preferred_node" t.metadata)) [
  | none ↦ select_hash_node nodes t
  | some id ↦ or_else (node_with_id id nodes) (select_hash_node nodes t)
]

-- `nanos` is `time.Now().UnixNano()`; at no node the remainder is a division by zero.
unfoldable pub select_round_robin_node : ℤ → List NodeInfo → Pick
unfolding remainder node_at
select_round_robin_node nanos [] = crash
select_round_robin_node nanos (n ∷ ns) = node_at (n ∷ ns) (remainder nanos (length (n ∷ ns)))

-- The `switch` of `selectNode`.
unfoldable pub by_strategy : Strategy → ℤ → List NodeInfo → Task → Pick
unfolding select_least_load_node select_hash_node select_sticky_node select_round_robin_node
by_strategy least_load nanos nodes t = select_least_load_node nodes
by_strategy hash nanos nodes t = select_hash_node nodes t
by_strategy sticky nanos nodes t = select_sticky_node nodes t
by_strategy _ nanos nodes t = select_round_robin_node nanos nodes

unfoldable pub select_node : Strategy → ℤ → List NodeInfo → Task → Pick
unfolding by_strategy
select_node strategy nanos [] t = no_node
select_node strategy nanos (n ∷ ns) t = by_strategy strategy nanos (n ∷ ns) t
