-- ===== src/Dispatch/Load.antt =====
-- crawler/task/dispatcher.go: under the least-load strategy no node gets more than its capacity.
use mathlib.Core.Path.{subst}
use mathlib.Core.Option.{some-injective}
use go_backend_kit.Common.{
  String, ◌≡◌, refl, sym, ◌∙◌, inl, inr, Bool-cases, Option-cases, Option, none, some, List, [],
  ◌∷◌, ◌++◌, map, ℤ, pos, ◌≤ℤ◌, ◌<ℤ◌, +ℤ_parts, wrap64_inc, inc-InInt64, InInt64, Dict, get, put,
  get-put, string_key, str_eq, eq_iff, arith, All, max_int64, if◌then◌else◌,
}
use go_backend_kit.Task.{Task}
use go_backend_kit.Queue.Priority.{PriorityQueue}
use go_backend_kit.Queue.Instances.{priority_ops}
use go_backend_kit.Queue.Interface.{QueueOps}
use go_backend_kit.Dispatch.Types.{least_load, NodeInfo, Dispatcher, Pick, chosen, no_node, crash}
use go_backend_kit.Dispatch.Select.{least_of, select_least_load_node, select_node}
use go_backend_kit.Dispatch.Picks.{least_of-All}
use go_backend_kit.Dispatch.Engine.{
  Env, BatchResult, finished, crashed, assign_task, settle, place, dispatch_each, run_batch,
  batch_on, dispatch_batch, read_nodes, count_load, get_available_nodes,
}

-- A node stands under its own identifier, and its load is within its capacity.
pub record IsFit (i : String) (n : NodeInfo) : Type 0 where
  pub named : n.id ≡ i
  pub within : n.current_load ≤ℤ n.capacity
  pub load_range : InInt64 n.current_load
  pub capacity_range : InInt64 n.capacity

abbrev pub AllFit : Dict String NodeInfo → Type 0
AllFit m = (i : String) (n : NodeInfo) → get i m ≡ some n → IsFit i n

pub put-AllFit :
    (i : String) (n : NodeInfo) (m : Dict String NodeInfo)
    → IsFit i n
    → AllFit m
    → AllFit (put i n m)
put-AllFit i n m fit h j k e = elim (Bool-cases (str_eq i j)) [
  | inl b ↦
      let same : n ≡ k = some-injective _ _ (rw b at (sym (get-put j i n m) ∙ e)) in
      subst (IsFit j) same (subst (λ x. IsFit x n) ((eq_iff i j).0 b) fit)
  | inr b ↦ h j k (rw b at (sym (get-put j i n m) ∙ e))
]

count_load-AllFit :
    (n : NodeInfo) (m : Dict String NodeInfo)
    → get n.id m ≡ some n
    → n.current_load <ℤ n.capacity
    → AllFit m
    → AllFit (count_load n.id m)
unfolding count_load
count_load-AllFit n m e lt h =
    let fit = h n.id n e in
    rw (e, count_load)
      (put-AllFit n.id _ m
        (record {
          named = refl;
          within =
              rw (wrap64_inc n.current_load n.capacity fit.load_range fit.capacity_range lt)
                (omega (arith, +ℤ_parts n.current_load (pos 1)));
          load_range =
              rw (wrap64_inc n.current_load n.capacity fit.load_range fit.capacity_range lt)
                (inc-InInt64 n.current_load n.capacity fit.load_range fit.capacity_range lt);
          capacity_range = fit.capacity_range;
        })
        h)

read_nodes-stored :
    (m : Dict String NodeInfo) (is : List String)
    → AllFit m
    → All (λ n. get n.id m ≡ some n) (read_nodes m is)
unfolding read_nodes
read_nodes-stored m [] h = tt
read_nodes-stored m (i ∷ is) h = elim (Option-cases (get i m)) [
  | inl e ↦ rw (e, read_nodes) (read_nodes-stored m is h)
  | inr (n, e) ↦
      rw (e, read_nodes)
        (subst (λ x. get x m ≡ some n) (sym (h i n e).named) e, read_nodes-stored m is h)
]

-- A batch that ends, with every node fit.
abbrev Ends : {Q : Type 0} → BatchResult Q → Type 0
Ends (finished d lost) = AllFit d.nodes × (d.strategy ≡ least_load)
Ends crashed = ⊥

abbrev Places : {Q : Type 0} → Option (Dispatcher Q × List Task) → Type 0
Places none = ⊥
Places (some (d, l)) = AllFit d.nodes × (d.strategy ≡ least_load)

-- A node that the strategy may choose.
abbrev IsFree : Dict String NodeInfo → Pick → Type 0
IsFree m (chosen n) = (get n.id m ≡ some n) × (n.current_load <ℤ n.capacity)
IsFree m no_node = Unit
IsFree m crash = ⊥

least-IsFree :
    (m : Dict String NodeInfo) (ns : List NodeInfo)
    → All (λ n. get n.id m ≡ some n) ns
    → IsFree m (select_least_load_node ns)
unfolding select_least_load_node
least-IsFree m ns h = elim (Option-cases (least_of none max_int64 ns)) [
  | inl e ↦ rw e tt
  | inr (n, e) ↦ rw e (least_of-All (λ n. get n.id m ≡ some n) ns none max_int64 n h (λ k f. cc) e)
]

select-IsFree :
    (m : Dict String NodeInfo) (nanos : ℤ) (ns : List NodeInfo) (t : Task)
    → All (λ n. get n.id m ≡ some n) ns
    → IsFree m (select_node least_load nanos ns t)
unfolding select_node
select-IsFree m nanos [] t h = tt
select-IsFree m nanos (n ∷ ns) t h = least-IsFree m (n ∷ ns) h

module _ {Q : Type 0} (ops : QueueOps Q) where
  -- A placed task changes the nodes by one count, if Redis stored the assignment.
  place-chosen :
      (env : Env) (t : Task) (n : NodeInfo) (d : Dispatcher Q)
      → (r : Dispatcher Q × List Task) × (place ops env t (chosen n) d ≡ some r)
        × (r.0.strategy ≡ d.strategy)
        × (r.0.nodes ≡ (if env.exec t.id n.id then count_load n.id d.nodes else d.nodes))
  unfolding place
  place-chosen env t n d =
      (settle ops env (assign_task env t n d), refl, ground arith, ground arith)

  place-Places :
      (env : Env) (t : Task) (p : Pick) (d : Dispatcher Q)
      → IsFree d.nodes p
      → AllFit d.nodes
      → d.strategy ≡ least_load
      → Places (place ops env t p d)
  place-Places env t crash d f h s = absurd f
  place-Places env t no_node d f h s = unfold place in (h, s)
  place-Places env t (chosen n) d f h s =
      let (r, e, same, nodes) = place-chosen env t n d in
      rw e (
        elim (Bool-cases (env.exec t.id n.id)) [
          | inl b ↦ rw (nodes, b) (count_load-AllFit n d.nodes f.0 f.1 h)
          | inr b ↦ rw (nodes, b) h
        ],
        same ∙ s,
      )

  continue-Ends :
      (next : Dispatcher Q → List Task → BatchResult Q) (r : Option (Dispatcher Q × List Task))
      → Places r
      → ((d : Dispatcher Q) (l : List Task) → Places (some (d, l)) → Ends (next d l))
      → Ends (elim r [ none ↦ crashed | some (d, l) ↦ next d l ])
  continue-Ends next none p go = absurd p
  continue-Ends next (some (d, l)) p go = go d l p

  dispatch_each-Ends :
      (env : Env) (nodes : List String) (ts : List Task) (d : Dispatcher Q) (lost : List Task)
      → AllFit d.nodes
      → d.strategy ≡ least_load
      → Ends (dispatch_each ops env nodes ts d lost)
  unfolding dispatch_each
  dispatch_each-Ends env nodes [] d lost h s = (h, s)
  dispatch_each-Ends env nodes (t ∷ ts) d lost h s =
      let pick = select_node d.strategy (env.nanos t.id) (read_nodes d.nodes nodes) t in
      let free : IsFree d.nodes pick = rw s (
        select-IsFree d.nodes (env.nanos t.id) (read_nodes d.nodes nodes) t
          (read_nodes-stored d.nodes nodes h)) in
      continue-Ends (λ d' l. dispatch_each ops env nodes ts d' (l ++ lost)) (place ops env t pick d)
        (place-Places env t pick d free h s)
        λ d' l p. dispatch_each-Ends env nodes ts d' (l ++ lost) p.0 p.1

batch_on-Ends :
    (env : Env) (ns : List NodeInfo) (d : Dispatcher PriorityQueue)
    → AllFit d.nodes
    → d.strategy ≡ least_load
    → Ends (batch_on priority_ops env ns d)
unfolding batch_on run_batch
batch_on-Ends env [] d h s = (h, s)
batch_on-Ends env (n ∷ ns) d h s =
    dispatch_each-Ends priority_ops env (map (λ m. m.id) (n ∷ ns)) _ _ [] h s

Ends-finished :
    {Q : Type 0} (r : BatchResult Q)
    → Ends r
    → (d' : Dispatcher Q) × (lost : List Task) × (r ≡ finished d' lost) × AllFit d'.nodes
Ends-finished (finished d lost) h = (d, lost, refl, h.0)
Ends-finished crashed h = absurd h

-- With a priority queue and the least-load strategy, if every node stands under its own identifier
-- with a load within its capacity (both 64-bit integers), a batch ends without a panic and every
-- node still does.
pub dispatch_batch-AllFit :
    (env : Env) (d : Dispatcher PriorityQueue)
    → AllFit d.nodes
    → d.strategy ≡ least_load
    → (d' : Dispatcher PriorityQueue) × (lost : List Task) × (dispatch_batch priority_ops env d
        ≡ finished d' lost)
      × AllFit d'.nodes
unfolding dispatch_batch
dispatch_batch-AllFit env d h s =
    Ends-finished (dispatch_batch priority_ops env d)
      (batch_on-Ends env (get_available_nodes env.now d) d h s)
