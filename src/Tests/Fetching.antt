-- ===== src/Tests/Fetching.antt =====
-- Runs of crawler/fetcher/pool.go.
use go_backend_kit.Common.{
  ◌<◌, String, Bool, true, false, ◌≡◌, ◌↔◌, refl, some, [], ◌∷◌, pos, seconds, arith,
}
use go_backend_kit.Dispatch.{bytes}
use go_backend_kit.Proxies.{
  Proxy, ProxyPool, round_robin, picked, nil, Dice, new_proxy_pool, alive_count, get_proxy,
  get_weighted, contains_bytes,
}
use go_backend_kit.Proxies.Alive.{IsFair, HasGiven, get_proxy_alive}
use go_backend_kit.Proxies.Marks.{find_proxy, mark_failures, judged, mark_failures_lem}
use go_backend_kit.Proxies.Weights.{as_weights, IsShare, get_weighted-IsShare}
use go_backend_kit.Proxies.Keywords.{IsPart, contains_bytes_iff}

abbrev proxy : String → Bool → Proxy
proxy url alive = record {
  url = url;
  success_count = pos 3;
  failure_count = pos 0;
  last_used = pos 0;
  last_checked = pos 0;
  alive = alive;
  latency = pos 5;
  country = "SE";
  tags = [];
}

abbrev pool : ProxyPool
pool = new_proxy_pool (proxy "http://a" false ∷ proxy "http://b" true ∷ []) round_robin

-- The lowest number.
abbrev zeros : Dice
zeros = record { intn = λ n. 0; spin = λ ps. 0 }

zeros-IsFair : IsFair zeros
zeros-IsFair = record { intn_below = λ n h. h; spin_below = λ ps h. h }

get_proxy_alive_example :
    (alive_count pool ≡ 0 → get_proxy zeros (seconds (pos 1)) pool ≡ (pool, nil))
    × (0 < alive_count pool
        → HasGiven (seconds (pos 1)) pool (get_proxy zeros (seconds (pos 1)) pool))
unfolding new_proxy_pool
get_proxy_alive_example =
    get_proxy_alive zeros (seconds (pos 1)) pool 0 zeros-IsFair refl (omega arith)

mark_failures_lem_example :
    find_proxy "http://b" (mark_failures 11 "http://b" pool).proxies
    ≡ some (judged 3 11 (proxy "http://b" true))
unfolding new_proxy_pool find_proxy
mark_failures_lem_example =
    mark_failures_lem 10 3 0 "http://b" (proxy "http://b" true) pool refl refl refl (omega arith)

get_weighted-IsShare_example :
    (x : String) × (get_weighted (λ n. 2) "a" ("b" ∷ []) (as_weights (1 ∷ 4 ∷ [])) ≡ picked x)
    × IsShare 2 0 ("a" ∷ "b" ∷ []) (1 ∷ 4 ∷ []) x
get_weighted-IsShare_example =
    get_weighted-IsShare (λ n. 2) "a" ("b" ∷ []) (1 ∷ 4 ∷ []) refl (omega arith) (omega arith)
      (omega arith)

contains_bytes_iff_example :
    (contains_bytes (bytes "An iPhone") (bytes "iPhone") ≡ true)
    ↔ IsPart (bytes "iPhone") (bytes "An iPhone")
contains_bytes_iff_example = contains_bytes_iff (bytes "An iPhone") (bytes "iPhone")
