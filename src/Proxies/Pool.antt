-- ===== src/Proxies/Pool.antt =====
-- crawler/fetcher/pool.go: `ProxyPool`.
use go_backend_kit.Common.{
  ℕ, suc, ◌/◌, ◌-◌, zero, String, Bool, false, none, some, List, [], ◌∷◌, ◌++◌, ℤ, pos, negsuc,
  ◌+ℤ◌, wrap64, ltb, ltb_ℤ, eq_ℤ, str_eq, Time, Duration, length, get_elem?, keep_if, if◌then◌else◌,
  ◌&&◌, ◌||◌, sub_time,
}
use go_backend_kit.Dispatch.{remainder}
use go_backend_kit.Proxies.Types.{
  Proxy, ProxyStrategy, round_robin, random, least_used, best_latency, weighted, ProxyPool, Choice,
  picked, nil, crash, Dice,
}

-- `NewProxyPool`; the checker and its interval are left to the health check.
unfoldable pub new_proxy_pool : List Proxy → ProxyStrategy → ProxyPool
new_proxy_pool ps strategy = record { proxies = ps; strategy = strategy; current = pos 0 }

unfoldable pub add_proxy : Proxy → ProxyPool → ProxyPool
add_proxy p pool = record pool { proxies = pool.proxies ++ p ∷ [] }

unfoldable pub remove_first : String → List Proxy → List Proxy
remove_first url [] = []
remove_first url (p ∷ ps) =
    let rest = remove_first url ps in if str_eq p.url url then ps else p ∷ rest

unfoldable pub remove_proxy : String → ProxyPool → ProxyPool
remove_proxy url pool = record pool { proxies = remove_first url pool.proxies }

-- `getAliveProxies`: the proxies alive with their positions, from this one on.
unfoldable pub alive_from : ℕ → List Proxy → List (ℕ × Proxy)
alive_from i [] = []
alive_from i (p ∷ ps) = let rest = alive_from (suc i) ps in if p.alive then (i, p) ∷ rest else rest

-- `atomic.AddInt32(&p.current, 1)`
unfoldable pub add_int32 : ℤ → ℤ
add_int32 z = if eq_ℤ z (pos 2147483647) then negsuc 2147483647 else z +ℤ pos 1

-- An element of a slice, or the panic.
unfoldable pub element {ℓ} : {A : Type ℓ} → List A → ℤ → Choice A
element xs (negsuc i) = crash
element xs (pos i) = elim (get_elem? xs i) [ none ↦ crash | some x ↦ picked x ]

unfoldable pub select_round_robin {ℓ} : {A : Type ℓ} → ℤ → List A → Choice A
select_round_robin index xs = element xs (remainder index (length xs))

unfoldable pub select_random {ℓ} : {A : Type ℓ} → (ℕ → ℕ) → List A → Choice A
select_random intn xs = element xs (pos (intn (length xs)))

abbrev pub usage : Proxy → ℤ
usage p = wrap64 (p.success_count +ℤ p.failure_count)

unfoldable pub least_used_of : ℕ × Proxy → ℤ → List (ℕ × Proxy) → ℕ × Proxy
least_used_of selected least [] = selected
least_used_of selected least (p ∷ ps) =
    let better = ltb_ℤ (usage p.1) least in
    least_used_of (if better then p else selected) (if better then usage p.1 else least) ps

unfoldable pub best_latency_of : ℕ × Proxy → Duration → List (ℕ × Proxy) → ℕ × Proxy
best_latency_of selected least [] = selected
best_latency_of selected least (p ∷ ps) =
    let better = ltb_ℤ p.1.latency least && ltb_ℤ (pos 0) p.1.latency in
    best_latency_of (if better then p else selected) (if better then p.1.latency else least) ps

abbrev pub proxies_of : List (ℕ × Proxy) → List Proxy
proxies_of [] = []
proxies_of (p ∷ ps) = p.1 ∷ proxies_of ps

-- The `switch` of `Get`, on at least one proxy.
unfoldable pub select_by :
    Dice → ProxyStrategy → ℤ → ℕ × Proxy → List (ℕ × Proxy) → Choice (ℕ × Proxy)
select_by dice round_robin index p ps = select_round_robin index (p ∷ ps)
select_by dice random index p ps = select_random dice.intn (p ∷ ps)
select_by dice least_used index p ps = picked (least_used_of p (usage p.1) ps)
select_by dice best_latency index p ps = picked (best_latency_of p p.1.latency ps)
select_by dice weighted index p ps = element (p ∷ ps) (pos (dice.spin (proxies_of (p ∷ ps))))

unfoldable pub touch : Time → ℕ → List Proxy → List Proxy
touch now i [] = []
touch now zero (p ∷ ps) = record p { last_used = now } ∷ ps
touch now (suc i) (p ∷ ps) = p ∷ touch now i ps

unfoldable pub finish_get : Time → ProxyPool → Choice (ℕ × Proxy) → ProxyPool × Choice ℕ
finish_get now pool nil = (pool, nil)
finish_get now pool crash = (pool, crash)
finish_get now pool (picked (i, p)) = (record pool { proxies = touch now i pool.proxies }, picked i)

-- Only the round-robin strategy moves the index.
unfoldable pub next_index : ProxyStrategy → ℤ → ℤ
next_index round_robin index = add_int32 index
next_index random index = index
next_index least_used index = index
next_index best_latency index = index
next_index weighted index = index

unfoldable pub get_among : Dice → Time → ProxyPool → List (ℕ × Proxy) → ProxyPool × Choice ℕ
get_among dice now pool [] = (pool, nil)
get_among dice now pool (p ∷ ps) =
    let index = next_index pool.strategy pool.current in
    finish_get now (record pool { current = index }) (select_by dice pool.strategy index p ps)

unfoldable pub get_proxy : Dice → Time → ProxyPool → ProxyPool × Choice ℕ
get_proxy dice now pool = get_among dice now pool (alive_from 0 pool.proxies)

abbrev pub proxy_has_tag : String → List String → Bool
proxy_has_tag tag [] = false
proxy_has_tag tag (t ∷ ts) = str_eq t tag || proxy_has_tag tag ts

unfoldable pub get_by_tag : String → ProxyPool → List Proxy
get_by_tag tag pool = keep_if (λ p. proxy_has_tag tag p.tags) pool.proxies

unfoldable pub get_by_country : String → ProxyPool → List Proxy
get_by_country country pool = keep_if (λ p. str_eq p.country country) pool.proxies

unfoldable pub change_first : String → (Proxy → Proxy) → List Proxy → List Proxy
change_first url f [] = []
change_first url f (p ∷ ps) =
    let rest = change_first url f ps in if str_eq p.url url then f p ∷ ps else p ∷ rest

unfoldable pub succeed : Proxy → Proxy
succeed p = record p { success_count = wrap64 (p.success_count +ℤ pos 1) }

-- Go's division by 2, which rounds to zero.
abbrev pub half : ℤ → ℤ
half (pos n) = pos (n / 2)
half (negsuc n) = if ltb 0 (suc n / 2) then negsuc (suc n / 2 - 1) else pos 0

unfoldable pub judge : Proxy → Proxy
judge p =
    if ltb_ℤ (pos 10) p.failure_count && ltb_ℤ p.success_count (half p.failure_count)
    then record p { alive = false }
    else p

unfoldable pub fail_proxy : Proxy → Proxy
fail_proxy p = judge (record p { failure_count = wrap64 (p.failure_count +ℤ pos 1) })

unfoldable pub mark_success : String → ProxyPool → ProxyPool
mark_success url pool = record pool { proxies = change_first url succeed pool.proxies }

unfoldable pub mark_failure : String → ProxyPool → ProxyPool
mark_failure url pool = record pool { proxies = change_first url fail_proxy pool.proxies }

unfoldable pub alive_count : ProxyPool → ℕ
alive_count pool = length (keep_if (λ p. p.alive) pool.proxies)

-- What a check of a proxy gives: when it began and ended, and whether it succeeded.
pub record Checked : Type 0 where
  pub began : Time
  pub ended : Time
  pub succeeded : Bool

unfoldable pub check_one : (Proxy → Checked) → Proxy → Proxy
check_one check p =
    let c = check p in
    record p { last_checked = c.ended; latency = sub_time c.ended c.began; alive = c.succeeded }

unfoldable pub check_proxies : (Proxy → Checked) → List Proxy → List Proxy
check_proxies check [] = []
check_proxies check (p ∷ ps) = check_one check p ∷ check_proxies check ps

unfoldable pub check_all : (Proxy → Checked) → ProxyPool → ProxyPool
check_all check pool = record pool { proxies = check_proxies check pool.proxies }
