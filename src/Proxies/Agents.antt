-- ===== src/Proxies/Agents.antt =====
-- crawler/fetcher/pool.go: `UserAgentPool`.
use go_backend_kit.Common.{
  ℕ, suc, String, Bool, true, false, List, [], ◌∷◌, ◌++◌, ℤ, pos, negsuc, ◌+ℤ◌, ltb_ℤ, str_eq,
  length, keep_if, if◌then◌else◌, not, wrap64, ◌==◌, ltb, leb, zero, ◌&&◌, ◌||◌, take,
}
use go_backend_kit.Dispatch.{bytes}
use go_backend_kit.Proxies.Types.{
  AgentStrategy, round_robin_agents, random_agents, weighted_agents, UserAgentPool, Choice, picked,
  crash,
}
use go_backend_kit.Proxies.Pool.{select_round_robin, select_random, add_int32}

unfoldable pub add_agent : String → ℤ → UserAgentPool → UserAgentPool
add_agent agent weight pool = record pool {
  user_agents = pool.user_agents ++ agent ∷ [];
  weights = (if ltb_ℤ (pos 0) weight then pool.weights ++ weight ∷ [] else pool.weights);
}

-- The lists of agents and of weights without the first entry of an agent.
unfoldable pub remove_aligned : String → List String → List ℤ → List String × List ℤ
remove_aligned agent [] ws = ([], ws)
remove_aligned agent (a ∷ more) [] =
    let rest = remove_aligned agent more [] in
    if str_eq a agent then (more, []) else (a ∷ rest.0, [])
remove_aligned agent (a ∷ more) (w ∷ ws) =
    let rest = remove_aligned agent more ws in
    if str_eq a agent then (more, ws) else (a ∷ rest.0, w ∷ rest.1)

unfoldable pub remove_agent : String → UserAgentPool → UserAgentPool
remove_agent agent pool =
    let rest = remove_aligned agent pool.user_agents pool.weights in
    record pool { user_agents = rest.0; weights = rest.1 }

unfoldable pub total_from : ℤ → List ℤ → ℤ
total_from total [] = total
total_from total (w ∷ ws) = total_from (wrap64 (total +ℤ w)) ws

-- The agent at which the sum of the weights exceeds a number, or the last one. There are as many
-- weights as agents.
unfoldable pub agent_at : ℤ → ℤ → String → List String → List ℤ → String
agent_at r cumulative last (a ∷ more) (w ∷ ws) =
    let c = wrap64 (cumulative +ℤ w) in
    let rest = agent_at r c a more ws in if ltb_ℤ r c then a else rest
agent_at r cumulative last [] ws = last
agent_at r cumulative last (a ∷ more) [] = a

-- `rand.Intn` panics unless its argument is positive.
unfoldable pub spin_agents : (ℕ → ℕ) → String → List String → List ℤ → ℤ → Choice String
spin_agents intn a more ws (negsuc n) = crash
spin_agents intn a more ws (pos zero) = crash
spin_agents intn a more ws (pos (suc n)) =
    picked (agent_at (pos (intn (suc n))) (pos 0) a (a ∷ more) ws)

unfoldable pub get_weighted : (ℕ → ℕ) → String → List String → List ℤ → Choice String
get_weighted intn a more ws =
    if length ws == length (a ∷ more)
    then spin_agents intn a more ws (total_from (pos 0) ws)
    else select_random intn (a ∷ more)

unfoldable pub get_agent_by :
    AgentStrategy → (ℕ → ℕ) → ℤ → String → List String → List ℤ → Choice String
get_agent_by round_robin_agents intn index a more ws = select_round_robin index (a ∷ more)
get_agent_by weighted_agents intn index a more ws = get_weighted intn a more ws
get_agent_by random_agents intn index a more ws = select_random intn (a ∷ more)

abbrev pub next_agent_index : AgentStrategy → ℤ → ℤ
next_agent_index round_robin_agents index = add_int32 index
next_agent_index weighted_agents index = index
next_agent_index random_agents index = index

-- An empty pool gives the empty text.
unfoldable pub get_agent_from :
    (ℕ → ℕ) → List String → UserAgentPool → UserAgentPool × Choice String
get_agent_from intn [] pool = (pool, picked "")
get_agent_from intn (a ∷ more) pool =
    let index = next_agent_index pool.strategy pool.current in
    (record pool { current = index }, get_agent_by pool.strategy intn index a more pool.weights)

unfoldable pub get_agent : (ℕ → ℕ) → UserAgentPool → UserAgentPool × Choice String
get_agent intn pool = get_agent_from intn pool.user_agents pool

-- Texts are their bytes here.
unfoldable pub same_bytes : List ℕ → List ℕ → Bool
same_bytes [] [] = true
same_bytes [] (y ∷ ys) = false
same_bytes (x ∷ xs) [] = false
same_bytes (x ∷ xs) (y ∷ ys) = (x == y) && same_bytes xs ys

-- On the empty text, the recursive call, which would panic, is not reached.
unfoldable pub contains_bytes : List ℕ → List ℕ → Bool
contains_bytes [] sub = leb (length sub) 0 && (same_bytes [] sub || (length sub == 0))
contains_bytes (x ∷ s) sub =
    let rest = contains_bytes s sub in
    leb (length sub) (length (x ∷ s))
    && (same_bytes (x ∷ s) sub
        || ((length sub == 0)
            || ((ltb 0 (length sub) && same_bytes (take (length sub) (x ∷ s)) sub) || rest)))

abbrev pub mobile_keywords : List String
mobile_keywords = "Mobile" ∷ "Android" ∷ "iPhone" ∷ "iPad" ∷ "Windows Phone" ∷ []

unfoldable pub contains_any : List ℕ → List String → Bool
contains_any agent [] = false
contains_any agent (k ∷ ks) = contains_bytes agent (bytes k) || contains_any agent ks

unfoldable pub is_mobile_user_agent : String → Bool
is_mobile_user_agent agent = contains_any (bytes agent) mobile_keywords

-- One of these agents at random, or the empty text.
unfoldable pub pick_any : (ℕ → ℕ) → List String → Choice String
pick_any intn [] = picked ""
pick_any intn (a ∷ more) = select_random intn (a ∷ more)

unfoldable pub get_desktop : (ℕ → ℕ) → UserAgentPool → Choice String
get_desktop intn pool = pick_any intn (keep_if (λ a. not (is_mobile_user_agent a)) pool.user_agents)

unfoldable pub get_mobile : (ℕ → ℕ) → UserAgentPool → Choice String
get_mobile intn pool = pick_any intn (keep_if is_mobile_user_agent pool.user_agents)
