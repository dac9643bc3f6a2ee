-- ===== src/Proxies/Weights.antt =====
-- crawler/fetcher/pool.go: the weighted choice of a user agent.
use go_backend_kit.Common.{
  ℕ, zero, suc, ◌+◌, ◌<◌, ◌≤◌, String, Bool-cases, inl, inr, ◌≡◌, refl, ap, sym, ◌∙◌, some, List,
  [], ◌∷◌, ℤ, pos, ◌+ℤ◌, wrap64, arith, ltb_ℤ, if◌then◌else◌, length, get_elem?, take, ==_iff,
}
use mathlib.Core.Path.{subst}
use go_backend_kit.Proxies.Types.{picked}
use go_backend_kit.Proxies.Agents.{total_from, agent_at, spin_agents, get_weighted}

abbrev pub as_weights : List ℕ → List ℤ
as_weights [] = []
as_weights (n ∷ ns) = pos n ∷ as_weights ns

abbrev pub sum : List ℕ → ℕ
sum [] = 0
sum (n ∷ ns) = n + sum ns

add_below : (c n : ℕ) → c + n < 9223372036854775808 → wrap64 (pos c +ℤ pos n) ≡ pos (c + n)
unfolding wrap64 ◌+ℤ◌
add_below c n h = ground arith

total_from-sum :
    (t : ℕ) (ns : List ℕ)
    → t + sum ns < 9223372036854775808
    → total_from (pos t) (as_weights ns) ≡ pos (t + sum ns)
unfolding total_from
total_from-sum t [] h = ap pos (omega arith)
total_from-sum t (n ∷ ns) h =
    ap (λ z. total_from z (as_weights ns)) (add_below t n (omega arith))
    ∙ total_from-sum (t + n) ns (omega arith)
    ∙ ap pos (omega arith)

length-as_weights : (ns : List ℕ) → length (as_weights ns) ≡ length ns
length-as_weights [] = refl
length-as_weights (n ∷ ns) = ap suc (length-as_weights ns)

-- An agent whose share of the numbers, from this one on, has the number.
abbrev pub IsShare : ℕ → ℕ → List String → List ℕ → String → Type 0
IsShare r c agents ns a =
    (i : ℕ) × (get_elem? agents i ≡ some a)
    × (c + sum (take i ns) ≤ r)
    × (r < c + sum (take (suc i) ns))

later-IsShare :
    (r c n : ℕ) (a b : String) (agents : List String) (ns : List ℕ)
    → IsShare r (c + n) agents ns a
    → IsShare r c (b ∷ agents) (n ∷ ns) a
later-IsShare r c n a b agents ns (i, e, h, l) = (suc i, e, omega arith, omega arith)

agent_at-IsShare :
    (r c : ℕ) (last : String) (agents : List String) (ns : List ℕ)
    → length agents ≡ length ns
    → c + sum ns < 9223372036854775808
    → c ≤ r
    → r < c + sum ns
    → IsShare r c agents ns (agent_at (pos r) (pos c) last agents (as_weights ns))
unfolding agent_at
agent_at-IsShare r c last [] [] e b h l = absurd (omega arith)
agent_at-IsShare r c last [] (n ∷ ns) e b h l = absurd (omega arith)
agent_at-IsShare r c last (a ∷ agents) [] e b h l = absurd (omega arith)
agent_at-IsShare r c last (a ∷ agents) (n ∷ ns) e b h l =
    subst
      (λ z.
        IsShare r c (a ∷ agents) (n ∷ ns)
          (if ltb_ℤ (pos r) z then a else agent_at (pos r) z a agents (as_weights ns)))
      (sym (add_below c n (omega arith)))
      (elim (Bool-cases (ltb_ℤ (pos r) (pos (c + n)))) [
        | inl t ↦ rw t (0, refl, omega arith, ground arith)
        | inr t ↦ rw t (
            later-IsShare r c n _ a agents ns (
              agent_at-IsShare r (c + n) a agents ns (omega arith) (omega arith) (ground arith)
                (omega arith)))
      ])

spin_agents-positive :
    (intn : ℕ → ℕ) (a : String) (more : List String) (ws : List ℤ) (t : ℕ)
    → 0 < t
    → spin_agents intn a more ws (pos t) ≡ picked (agent_at (pos (intn t)) (pos 0) a (a ∷ more) ws)
unfolding spin_agents
spin_agents-positive intn a more ws zero h = absurd (omega arith)
spin_agents-positive intn a more ws (suc n) h = refl

-- With as many natural weights as user agents, of a positive sum below 2^63, the weighted
-- selection picks the agent at an index such that the random number, which is below the sum, is at
-- least the sum of the weights before it and below the sum with its own.
pub get_weighted-IsShare :
    (intn : ℕ → ℕ) (a : String) (more : List String) (ns : List ℕ)
    → length (a ∷ more) ≡ length ns
    → sum ns < 9223372036854775808
    → 0 < sum ns
    → intn (sum ns) < sum ns
    → (x : String) × (get_weighted intn a more (as_weights ns) ≡ picked x)
      × IsShare (intn (sum ns)) 0 (a ∷ more) ns x
unfolding get_weighted
get_weighted-IsShare intn a more ns e b p h = (
  agent_at (pos (intn (sum ns))) (pos 0) a (a ∷ more) (as_weights ns),
  rw ((==_iff (length (as_weights ns)) (length (a ∷ more))).1 (length-as_weights ns ∙ sym e)) (
      ap (spin_agents intn a more (as_weights ns))
        (total_from-sum 0 ns (omega arith) ∙ ap pos (omega arith))
      ∙ spin_agents-positive intn a more (as_weights ns) (sum ns) p),
  agent_at-IsShare (intn (sum ns)) 0 a (a ∷ more) ns e (omega arith) (omega arith) (omega arith),
)
