-- ===== src/Proxies/Alive.antt =====
-- crawler/fetcher/pool.go: what `Get` gives.
use go_backend_kit.Common.{
  ℕ, suc, ◌+◌, ◌%◌, ◌<◌, true, false, Bool, Bool-cases, inl, inr, ◌≡◌, refl, ap, sym, ◌∙◌, some,
  List, [], ◌∷◌, All, All-map, ℤ, pos, ◌+ℤ◌, arith, length, get_elem?, get_elem?-lt, get_elem?-All,
  keep_if, if◌then◌else◌, Time, Duration, ltb_ℤ, ◌&&◌,
}
use native.Mathlib.Nat.{mod-lt}
use mathlib.Core.Path.{subst}
use go_backend_kit.Dispatch.{remainder}
use go_backend_kit.Proxies.Types.{
  Proxy, ProxyStrategy, round_robin, random, least_used, best_latency, weighted, ProxyPool, Choice,
  picked, nil, Dice,
}
use go_backend_kit.Proxies.Pool.{
  alive_from, add_int32, element, select_round_robin, select_random, usage, least_used_of,
  best_latency_of, proxies_of, select_by, touch, finish_get, next_index, get_among, get_proxy,
  alive_count,
}

-- The random numbers stay below their bounds.
pub record IsFair (dice : Dice) : Type 0 where
  pub intn_below : (n : ℕ) → 0 < n → dice.intn n < n
  pub spin_below : (ps : List Proxy) → 0 < length ps → dice.spin ps < length ps

-- The pool has the proxy, alive, at this distance from a position.
abbrev IsFrom : ℕ → List Proxy → ℕ × Proxy → Type 0
IsFrom k ps (i, p) = (j : ℕ) × (i ≡ k + j) × (get_elem? ps j ≡ some p) × (p.alive ≡ true)

later-IsFrom :
    (k : ℕ) (p : Proxy) (ps : List Proxy) (x : ℕ × Proxy)
    → IsFrom (suc k) ps x
    → IsFrom k (p ∷ ps) x
later-IsFrom k p ps (i, q) (j, e, f, a) = (suc j, omega (arith, e), f, a)

kept_if-All {ℓ} :
    {A : Type 0} (P : A → Type ℓ) (b : Bool) (x : A) (xs : List A)
    → (b ≡ true → P x)
    → All P xs
    → All P (if b then x ∷ xs else xs)
kept_if-All P true x xs h all = (h refl, all)
kept_if-All P false x xs h all = all

alive_from-All : (k : ℕ) (ps : List Proxy) → All (IsFrom k ps) (alive_from k ps)
unfolding alive_from
alive_from-All k [] = tt
alive_from-All k (p ∷ ps) =
    kept_if-All (IsFrom k (p ∷ ps)) p.alive (k, p) (alive_from (suc k) ps)
      (λ b. (0, omega arith, refl, b))
      (All-map (IsFrom (suc k) ps) (IsFrom k (p ∷ ps)) (alive_from (suc k) ps) (later-IsFrom k p ps)
        (alive_from-All (suc k) ps))

length-alive_from :
    (k : ℕ) (ps : List Proxy) → length (alive_from k ps) ≡ length (keep_if (λ p. p.alive) ps)
unfolding alive_from
length-alive_from k [] = refl
length-alive_from k (p ∷ ps) = elim (Bool-cases p.alive) [
  | inl b ↦ rw b (ap suc (length-alive_from (suc k) ps))
  | inr b ↦ rw b (length-alive_from (suc k) ps)
]

length-proxies_of : (ps : List (ℕ × Proxy)) → length (proxies_of ps) ≡ length ps
length-proxies_of [] = refl
length-proxies_of (p ∷ ps) = ap suc (length-proxies_of ps)

module _ {μ} (P : ℕ × Proxy → Type μ) where
  abbrev IsPicked : Choice (ℕ × Proxy) → Type μ
  IsPicked c = (x : ℕ × Proxy) × (c ≡ picked x) × P x

  element-IsPicked :
      (xs : List (ℕ × Proxy)) (i : ℕ) → i < length xs → All P xs → IsPicked (element xs (pos i))
  unfolding element
  element-IsPicked xs i h all =
      let (x, e) = get_elem?-lt xs i h in (x, rw (e, element) refl, get_elem?-All P x xs i all e)

  least_used_of-P :
      (s : ℕ × Proxy) (least : ℤ) (ps : List (ℕ × Proxy))
      → P s
      → All P ps
      → P (least_used_of s least ps)
  unfolding least_used_of
  least_used_of-P s least [] h all = h
  least_used_of-P s least (p ∷ ps) h all = elim (Bool-cases (ltb_ℤ (usage p.1) least)) [
    | inl b ↦ rw b (least_used_of-P p (usage p.1) ps all.0 all.1)
    | inr b ↦ rw b (least_used_of-P s least ps h all.1)
  ]

  best_latency_of-P :
      (s : ℕ × Proxy) (least : Duration) (ps : List (ℕ × Proxy))
      → P s
      → All P ps
      → P (best_latency_of s least ps)
  unfolding best_latency_of
  best_latency_of-P s least [] h all = h
  best_latency_of-P s least (p ∷ ps) h all =
      elim (Bool-cases (ltb_ℤ p.1.latency least && ltb_ℤ (pos 0) p.1.latency)) [
        | inl b ↦ rw b (best_latency_of-P p p.1.latency ps all.0 all.1)
        | inr b ↦ rw b (best_latency_of-P s least ps h all.1)
      ]

  select_by-IsPicked :
      (dice : Dice) (strategy : ProxyStrategy) (k : ℕ) (p : ℕ × Proxy) (ps : List (ℕ × Proxy))
      → IsFair dice
      → All P (p ∷ ps)
      → IsPicked (select_by dice strategy (pos k) p ps)
  unfolding select_by select_round_robin select_random remainder
  select_by-IsPicked dice round_robin k p ps fair all =
      element-IsPicked (p ∷ ps) (k % length (p ∷ ps)) (mod-lt k (omega arith)) all
  select_by-IsPicked dice random k p ps fair all =
      element-IsPicked (p ∷ ps) (dice.intn (length (p ∷ ps))) (fair.intn_below _ (omega arith)) all
  select_by-IsPicked dice least_used k p ps fair all =
      (_, refl, least_used_of-P p (usage p.1) ps all.0 all.1)
  select_by-IsPicked dice best_latency k p ps fair all =
      (_, refl, best_latency_of-P p p.1.latency ps all.0 all.1)
  select_by-IsPicked dice weighted k p ps fair all =
      element-IsPicked (p ∷ ps) (dice.spin (proxies_of (p ∷ ps)))
        (omega (arith, fair.spin_below (proxies_of (p ∷ ps)) (omega arith), length-proxies_of ps))
        all

-- What a call gives: a proxy of the pool that is alive, whose last use is set.
abbrev pub HasGiven : Time → ProxyPool → ProxyPool × Choice ℕ → Type 0
HasGiven now pool (pool', c) =
    (i : ℕ) × (p : Proxy) × (c ≡ picked i)
    × (get_elem? pool.proxies i ≡ some p)
    × (p.alive ≡ true)
    × (pool' ≡ record pool {
      proxies = touch now i pool.proxies;
      current = next_index pool.strategy pool.current;
    })

the_index : (i j : ℕ) → i ≡ 0 + j → i ≡ j
the_index i j f = omega (arith, f)

finish_get-HasGiven :
    (now : Time) (pool : ProxyPool) (c : Choice (ℕ × Proxy))
    → IsPicked (IsFrom 0 pool.proxies) c
    → HasGiven now pool
        (finish_get now (record pool { current = next_index pool.strategy pool.current }) c)
finish_get-HasGiven now pool c ((i, p), e, (j, f, g, a)) =
    subst
      (λ c'.
        HasGiven now pool
          (finish_get now (record pool { current = next_index pool.strategy pool.current }) c'))
      (sym e)
      (unfold finish_get in
        (i, p, refl, ap (get_elem? pool.proxies) (the_index i j f) ∙ g, a, refl))

next_index_below :
    (strategy : ProxyStrategy) (k : ℕ)
    → k < 2147483647
    → (j : ℕ) × (next_index strategy (pos k) ≡ pos j)
unfolding next_index add_int32 ◌+ℤ◌
next_index_below round_robin k h = (k + 1, ground arith)
next_index_below random k h = (k, refl)
next_index_below least_used k h = (k, refl)
next_index_below best_latency k h = (k, refl)
next_index_below weighted k h = (k, refl)

get_among-HasGiven :
    (dice : Dice) (now : Time) (pool : ProxyPool) (k : ℕ) (ps : List (ℕ × Proxy))
    → IsFair dice
    → pool.current ≡ pos k
    → k < 2147483647
    → 0 < length ps
    → All (IsFrom 0 pool.proxies) ps
    → HasGiven now pool (get_among dice now pool ps)
unfolding get_among
get_among-HasGiven dice now pool k [] fair e h l all = absurd (omega arith)
get_among-HasGiven dice now pool k (p ∷ ps) fair e h l all =
    let (j, f) = next_index_below pool.strategy k h in
    finish_get-HasGiven now pool _ (
      subst (λ z. IsPicked (IsFrom 0 pool.proxies) (select_by dice pool.strategy z p ps))
        (sym (ap (next_index pool.strategy) e ∙ f))
        (select_by-IsPicked (IsFrom 0 pool.proxies) dice pool.strategy j p ps fair all))

get_among_nil :
    (dice : Dice) (now : Time) (pool : ProxyPool) (ps : List (ℕ × Proxy))
    → length ps ≡ 0
    → get_among dice now pool ps ≡ (pool, nil)
unfolding get_among
get_among_nil dice now pool [] e = refl
get_among_nil dice now pool (p ∷ ps) e = absurd (omega arith)

-- With fair random numbers and an index below the largest 32-bit number, a proxy pool without a
-- living proxy gives nil and stays as it is, and one with a living proxy gives, by every strategy,
-- a position at which it has a living proxy, and changes only the last use there and the index.
pub get_proxy_alive :
    (dice : Dice) (now : Time) (pool : ProxyPool) (k : ℕ)
    → IsFair dice
    → pool.current ≡ pos k
    → k < 2147483647
    → (alive_count pool ≡ 0 → get_proxy dice now pool ≡ (pool, nil))
      × (0 < alive_count pool → HasGiven now pool (get_proxy dice now pool))
unfolding get_proxy alive_count
get_proxy_alive dice now pool k fair e h = (
  (λ z. get_among_nil dice now pool _ (length-alive_from 0 pool.proxies ∙ z)),
  (λ z.
      get_among-HasGiven dice now pool k _ fair e h
        (omega (arith, length-alive_from 0 pool.proxies)) (alive_from-All 0 pool.proxies)),
)
