-- ===== src/Dispatch/Picks.antt =====
-- crawler/task/dispatcher.go: which node each strategy picks.
use go_backend_kit.Common.{
  suc, ◌%◌, ◌<◌, String, ◌≡◌, refl, sym, ap, ◌≢◌, ◌⊎◌, inl, inr, true, false, Option, none, some,
  List, [], ◌∷◌, ℤ, pos, negsuc, neg_part, ◌≤ℤ◌, ◌<ℤ◌, ltb_ℤ, ◌&&◌, Bool, arith, length, get_elem?,
  get_elem?-lt, All, max_int64, get, string_key, str_eq, eq_iff, Bool-cases, Option-cases,
}
use mathlib.Core.Path.{subst}
use mathlib.Core.Option.{some-injective}
use native.Mathlib.Nat.{mod-lt}
use go_backend_kit.Task.{Task, text}
use go_backend_kit.Dispatch.Types.{NodeInfo, chosen, no_node, crash}
use go_backend_kit.Dispatch.Select.{
  least_of, select_least_load_node, hash_of, remainder, node_at, select_hash_node, node_with_id,
  select_sticky_node,
}

abbrev is_better : NodeInfo → ℤ → Bool
is_better m load = ltb_ℤ m.current_load load && ltb_ℤ m.current_load m.capacity

-- A property of the nodes holds of the selected one, which has room.
pub least_of-All {ℓ} :
    (P : NodeInfo → Type ℓ) (ns : List NodeInfo) (sel : Option NodeInfo) (load : ℤ) (n : NodeInfo)
    → All P ns
    → ((m : NodeInfo) → sel ≡ some m → P m × (m.current_load <ℤ m.capacity))
    → least_of sel load ns ≡ some n
    → P n × (n.current_load <ℤ n.capacity)
unfolding least_of
least_of-All P [] sel load n h s e = s n e
least_of-All P (m ∷ ns) sel load n h s e = elim (Bool-cases (is_better m load)) [
  | inl b ↦
      least_of-All P ns (some m) m.current_load n h.1 (λ m' q. first_room m load m' h.0 b q)
        (rw b at e)
  | inr b ↦ least_of-All P ns sel load n h.1 s (rw b at e)
]
  where
    first_room :
        (m : NodeInfo) (load : ℤ) (m' : NodeInfo)
        → P m
        → is_better m load ≡ true
        → some m ≡ some m'
        → P m' × (m'.current_load <ℤ m'.capacity)
    first_room m load m' p b q =
        subst (λ k. P k × (k.current_load <ℤ k.capacity)) (some-injective _ _ q) (p, ground arith)

least_of-least :
    (ns : List NodeInfo) (sel : Option NodeInfo) (load : ℤ) (n : NodeInfo)
    → ((m : NodeInfo) → sel ≡ some m → m.current_load ≡ load)
    → least_of sel load ns ≡ some n
    → (n.current_load ≤ℤ load)
      × All (λ m. m.current_load <ℤ m.capacity → n.current_load ≤ℤ m.current_load) ns
unfolding least_of
least_of-least [] sel load n s e = (ground (arith, s n e), tt)
least_of-least (m ∷ ns) sel load n s e = elim (Bool-cases (is_better m load)) [
  | inl b ↦
      let (low, rest) =
        least_of-least ns (some m) m.current_load n
          (λ m' q. ap (λ k. k.current_load) (sym (some-injective _ _ q))) (rw b at e) in
      (ground arith, ((λ _. low), rest))
  | inr b ↦
      let (low, rest) = least_of-least ns sel load n s (rw b at e) in
      (low, ((λ r. ground arith), rest))
]

least_of-some : (m : NodeInfo) (load : ℤ) (ns : List NodeInfo) → least_of (some m) load ns ≢ none
unfolding least_of
least_of-some m load [] e = cc
least_of-some m load (n ∷ ns) e = elim (Bool-cases (is_better n load)) [
  | inl b ↦ least_of-some n n.current_load ns (rw b at e)
  | inr b ↦ least_of-some m load ns (rw b at e)
]

least_of-none :
    (ns : List NodeInfo) (load : ℤ)
    → least_of none load ns ≡ none
    → All (λ m. is_better m load ≡ false) ns
unfolding least_of
least_of-none [] load e = tt
least_of-none (m ∷ ns) load e = elim (Bool-cases (is_better m load)) [
  | inl b ↦ absurd (least_of-some m m.current_load ns (rw b at e))
  | inr b ↦ (b, least_of-none ns load (rw b at e))
]

full :
    (ns : List NodeInfo)
    → All (λ m. is_better m max_int64 ≡ false) ns
    → All (λ m. (m.capacity ≤ℤ m.current_load) ⊎ (max_int64 ≤ℤ m.current_load)) ns
full [] h = tt
full (m ∷ ns) h = (ground (arith, h.0), full ns h.1)

chosen_least :
    (ns : List NodeInfo) (n : NodeInfo)
    → least_of none max_int64 ns ≡ some n
    → (n.current_load <ℤ n.capacity)
      × All (λ m. m.current_load <ℤ m.capacity → n.current_load ≤ℤ m.current_load) ns
chosen_least ns n e = (
  (least_of-All (λ _. Unit {0}) ns none max_int64 n (units ns) (λ m f. cc) e).1,
  (least_of-least ns none max_int64 n (λ m f. cc) e).1,
)
  where
    units : (ms : List NodeInfo) → All (λ _. Unit {0}) ms
    units [] = tt
    units (m ∷ ms) = (tt, units ms)

-- The least-load strategy picks only a node with room whose load is the least among the nodes with
-- room, picks none only if each node is full or has the greatest load that there is, and never
-- panics.
pub select_least_load_node_lem :
    (ns : List NodeInfo)
    → ((n : NodeInfo)
        → select_least_load_node ns ≡ chosen n
        → (n.current_load <ℤ n.capacity)
          × All (λ m. m.current_load <ℤ m.capacity → n.current_load ≤ℤ m.current_load) ns)
      × (select_least_load_node ns ≡ no_node
          → All (λ m. (m.capacity ≤ℤ m.current_load) ⊎ (max_int64 ≤ℤ m.current_load)) ns)
      × (select_least_load_node ns ≢ crash)
unfolding select_least_load_node
select_least_load_node_lem ns = elim (Option-cases (least_of none max_int64 ns)) [
  | inl e ↦
      (λ n f. ground (arith, e), λ _. full ns (least_of-none ns max_int64 e), ground (arith, e))
  | inr (n, e) ↦ (
    λ m f.
        subst
          (λ k.
            (k.current_load <ℤ k.capacity)
            × All (λ m. m.current_load <ℤ m.capacity → k.current_load ≤ℤ m.current_load) ns)
          (let same : n ≡ m = ground (arith, e) in same) (chosen_least ns n e),
    λ f. ground (arith, e),
    ground (arith, e),
  )
]

-- The remainder of Go decides whether the index is a position.
node_at-remainder :
    (nodes : List NodeInfo) (z : ℤ)
    → 0 < length nodes
    → (neg_part z % length nodes ≡ 0
        → (n : NodeInfo) × (node_at nodes (remainder z (length nodes)) ≡ chosen n))
      × (neg_part z % length nodes ≢ 0 → node_at nodes (remainder z (length nodes)) ≡ crash)
unfolding node_at remainder
node_at-remainder nodes (pos k) h =
    let (n, e) = get_elem?-lt nodes (k % length nodes) (mod-lt k h) in
    ((λ _. (n, rw (e, node_at) refl)), (λ ne. absurd (ne (omega arith))))
node_at-remainder nodes (negsuc k) h =
    ((λ z. first (get_elem?-lt nodes 0 h) z), (λ ne. ground arith))
  where
    first :
        (n : NodeInfo) × (get_elem? nodes 0 ≡ some n)
        → suc k % length nodes ≡ 0
        → (n : NodeInfo) × (node_at nodes (remainder (negsuc k) (length nodes)) ≡ chosen n)
    first (n, e) z = (n, ground (arith, e, z))

-- Among at least one node, the hash strategy picks a node if the hash of the address is not
-- negative or a multiple of the number of nodes; in every other case the index is negative and the
-- selection panics.
pub select_hash_node_lem :
    (n : NodeInfo) (ns : List NodeInfo) (t : Task)
    → let nodes = n ∷ ns in
      (neg_part (hash_of t.url) % length nodes ≡ 0
        → (m : NodeInfo) × (select_hash_node nodes t ≡ chosen m))
      × (neg_part (hash_of t.url) % length nodes ≢ 0 → select_hash_node nodes t ≡ crash)
select_hash_node_lem n ns t =
    unfold select_hash_node in node_at-remainder (n ∷ ns) (hash_of t.url) (omega arith)

node_with_id_cases :
    (id : String) (ns : List NodeInfo)
    → ((m : NodeInfo) × (node_with_id id ns ≡ some m) × (m.id ≡ id))
      ⊎ ((node_with_id id ns ≡ none) × All (λ m. m.id ≢ id) ns)
unfolding node_with_id
node_with_id_cases id [] = inr (refl, tt)
node_with_id_cases id (n ∷ ns) = elim (Bool-cases (str_eq n.id id)) [
  | inl b ↦ inl (n, rw b refl, (eq_iff n.id id).0 b)
  | inr b ↦ elim (node_with_id_cases id ns) [
    | inl (m, e, i) ↦ inl (m, rw b e, i)
    | inr (e, h) ↦ inr (rw b e, (λ same. ground (arith, eq_iff n.id id), h))
  ]
]

-- For a task whose metadata name a preferred node, the sticky strategy picks a node with that
-- identifier, or no node has it and the pick is the one of the hash strategy.
pub select_sticky_node_lem :
    (id : String) (ns : List NodeInfo) (t : Task)
    → get "preferred_node" t.metadata ≡ some (text id)
    → ((m : NodeInfo) × (select_sticky_node ns t ≡ chosen m) × (m.id ≡ id))
      ⊎ (All (λ m. m.id ≢ id) ns × (select_sticky_node ns t ≡ select_hash_node ns t))
unfolding select_sticky_node
select_sticky_node_lem id ns t e = elim (node_with_id_cases id ns) [
  | inl (m, f, i) ↦ inl (m, ground (arith, f), i)
  | inr (f, h) ↦ inr (h, ground (arith, f))
]
