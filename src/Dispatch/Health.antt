-- ===== src/Dispatch/Health.antt =====
-- crawler/task/dispatcher.go: heartbeats, the health check and registration.
use go_backend_kit.Common.{
  String, ◌≡◌, refl, ap, ◌∙◌, true, false, Bool-cases, Option-cases, Option, none, some, List, [],
  ◌∷◌, ℤ, pos, Dict, get, get-put, string_key, str_eq, eq_iff, same_refl, Time, sub_time,
  sub_time_self, seconds, ltb_ℤ, leb_ℤ, arith, inl, inr, if◌then◌else◌,
}
use mathlib.Core.Path.{subst}
use go_backend_kit.Dispatch.Types.{NodeInfo, Dispatcher}
use go_backend_kit.Dispatch.Engine.{
  is_available, check_health, check_node_health, update_node_heartbeat, register_node,
}

abbrev mark : Time → NodeInfo → NodeInfo
mark now n =
    if ltb_ℤ (seconds (pos 60)) (sub_time now n.last_heartbeat)
    then record n { status = "dead" }
    else n

abbrev mark_stored : Time → Option NodeInfo → Option NodeInfo
mark_stored now none = none
mark_stored now (some n) = some (mark now n)

get-check_health :
    (now : Time) (i : String) (m : Dict String NodeInfo)
    → get i (check_health now m) ≡ mark_stored now (get i m)
unfolding get check_health
get-check_health now i [] = refl
get-check_health now i ((j, n) ∷ m) = elim (Bool-cases (str_eq j i)) [
  | inl b ↦ rw b refl
  | inr b ↦ rw b (get-check_health now i m)
]

abbrev beaten : Time → ℤ → Option NodeInfo → Option NodeInfo
beaten now load none = none
beaten now load (some n) = some (record n { last_heartbeat = now; current_load = load })

-- What happens to a node between two registrations.
pub data Event : Type 0 where
  beats : Time → String → ℤ → Event
  checks : Time → Event

dead_unavailable : (now : Time) (n : NodeInfo) → n.status ≡ "dead" → is_available now n ≡ false
unfolding is_available
dead_unavailable now n s = ground (arith, eq_iff n.status "active", eq_iff "dead" "active")

fresh_available :
    (now : Time) (n : NodeInfo)
    → n.status ≡ "active"
    → n.last_heartbeat ≡ now
    → ltb_ℤ n.current_load n.capacity ≡ true
    → is_available now n ≡ true
unfolding is_available
fresh_available now n s b room = ground (arith, sub_time_self now, eq_iff n.status "active")

recent_unmarked :
    (later : Time) (n : NodeInfo)
    → leb_ℤ (sub_time later n.last_heartbeat) (seconds (pos 60)) ≡ true
    → mark later n ≡ n
recent_unmarked later n h = ground arith

module _ {Q : Type 0} where
  unfoldable pub observe : Event → Dispatcher Q → Dispatcher Q
  observe (beats now i load) d = update_node_heartbeat now i load d
  observe (checks now) d = check_node_health now d

  unfoldable pub observe_all : List Event → Dispatcher Q → Dispatcher Q
  observe_all [] d = d
  observe_all (e ∷ es) d = observe_all es (observe e d)

  abbrev pub IsDead : String → Dispatcher Q → Type 0
  IsDead i d = (n : NodeInfo) × (get i d.nodes ≡ some n) × (n.status ≡ "dead")

  get-heartbeat :
      (now : Time) (j : String) (load : ℤ) (d : Dispatcher Q) (i : String)
      → get i (update_node_heartbeat now j load d).nodes
        ≡ (if str_eq j i then beaten now load (get i d.nodes) else get i d.nodes)
  unfolding update_node_heartbeat
  get-heartbeat now j load d i = elim (Option-cases (get j d.nodes)) [
    | inl e ↦
        rw (e, update_node_heartbeat)
          (elim (Bool-cases (str_eq j i)) [
            | inl b ↦ rw (b, subst (λ k. get k d.nodes ≡ none) ((eq_iff j i).0 b) e) refl
            | inr b ↦ rw b refl
          ])
    | inr (n, e) ↦
        rw (e, update_node_heartbeat)
          (get-put i j _ d.nodes ∙ elim (Bool-cases (str_eq j i)) [
            | inl b ↦ rw (b, subst (λ k. get k d.nodes ≡ some n) ((eq_iff j i).0 b) e) refl
            | inr b ↦ rw b refl
          ])
  ]

  observe-IsDead : (e : Event) (i : String) (d : Dispatcher Q) → IsDead i d → IsDead i (observe e d)
  unfolding observe
  observe-IsDead (checks now) i d (n, e, s) =
      unfold check_node_health in
      (mark now n, get-check_health now i d.nodes ∙ rw e refl, ground arith)
  observe-IsDead (beats now j load) i d (n, e, s) = elim (Bool-cases (str_eq j i)) [
    | inl b ↦ (
      record n { last_heartbeat = now; current_load = load },
      get-heartbeat now j load d i ∙ rw (b, e) refl,
      s,
    )
    | inr b ↦ (n, get-heartbeat now j load d i ∙ rw b e, s)
  ]

  observe_all-IsDead :
      (es : List Event) (i : String) (d : Dispatcher Q) → IsDead i d → IsDead i (observe_all es d)
  unfolding observe_all
  observe_all-IsDead [] i d h = h
  observe_all-IsDead (e ∷ es) i d h = observe_all-IsDead es i (observe e d) (observe-IsDead e i d h)

  -- A node that is marked dead stays known and stays unavailable at every time, through any sequence
  -- of heartbeats and health checks.
  pub dead_node_unavailable :
      (es : List Event) (i : String) (d : Dispatcher Q)
      → IsDead i d
      → (n : NodeInfo) × (get i (observe_all es d).nodes ≡ some n)
        × ((now : Time) → is_available now n ≡ false)
  dead_node_unavailable es i d h =
      let (n, e, s) = observe_all-IsDead es i d h in (n, e, λ now. dead_unavailable now n s)

  -- A node that is registered as active with room is known and available at the time of
  -- registration, and a health check at most 60 seconds later leaves it as it is.
  pub register_node-available :
      (now : Time) (n : NodeInfo) (d : Dispatcher Q)
      → n.status ≡ "active"
      → ltb_ℤ n.current_load n.capacity ≡ true
      → (m : NodeInfo) × (get n.id (register_node now n d).nodes ≡ some m)
        × (is_available now m ≡ true)
        × ((later : Time)
            → leb_ℤ (sub_time later now) (seconds (pos 60)) ≡ true
            → get n.id (check_node_health later (register_node now n d)).nodes ≡ some m)
  unfolding register_node
  register_node-available now n d s room = (
    record n { last_heartbeat = now },
    stored,
    fresh_available now (record n { last_heartbeat = now }) s refl room,
    kept,
  )
    where
      stored : get n.id (register_node now n d).nodes ≡ some (record n { last_heartbeat = now })
      stored = get-put n.id n.id _ d.nodes ∙ rw (same_refl n.id) refl

      kept :
          (later : Time)
          → leb_ℤ (sub_time later now) (seconds (pos 60)) ≡ true
          → get n.id (check_node_health later (register_node now n d)).nodes
            ≡ some (record n { last_heartbeat = now })
      kept later soon =
          unfold check_node_health in
          get-check_health later n.id (register_node now n d).nodes
          ∙ rw stored (ap some (recent_unmarked later (record n { last_heartbeat = now }) soon))
