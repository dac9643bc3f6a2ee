-- ===== src/Proxies/Types.antt =====
-- crawler/fetcher/pool.go: the data of the pools.
use go_backend_kit.Common.{String, Bool, List, ℕ, ℤ, Time, Duration}

-- Left out are the credentials and the other fields that no method reads.
pub record Proxy : Type 0 where
  pub url : String
  pub success_count : ℤ
  pub failure_count : ℤ
  pub last_used : Time
  pub last_checked : Time
  pub alive : Bool
  pub latency : Duration
  pub country : String
  pub tags : List String

-- Any other text counts as `round_robin`.
pub data ProxyStrategy : Type 0 where
  round_robin random least_used best_latency weighted : ProxyStrategy

-- A proxy, which is a pointer in the source, is its position; the pointers differ.
pub record ProxyPool : Type 0 where
  pub proxies : List Proxy
  pub strategy : ProxyStrategy
  pub current : ℤ

-- What a selection ends in: a position, `nil`, or an index out of range.
pub data Choice {ℓ} (A : Type ℓ) : Type ℓ where
  picked : A → Choice A
  nil crash : Choice A

-- The random numbers: `rand.Intn`, and what the weighted selection of proxies, which computes with
-- `float64`, picks among them.
pub record Dice : Type 0 where
  pub intn : ℕ → ℕ
  pub spin : List Proxy → ℕ

pub data AgentStrategy : Type 0 where
  round_robin_agents random_agents weighted_agents : AgentStrategy

pub record UserAgentPool : Type 0 where
  pub user_agents : List String
  pub weights : List ℤ
  pub current : ℤ
  pub strategy : AgentStrategy
