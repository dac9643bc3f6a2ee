-- ===== src/Proxies/Marks.antt =====
-- crawler/fetcher/pool.go: `MarkFailure` again and again.
use go_backend_kit.Common.{
  ℕ, zero, suc, ◌+◌, ◌/◌, ◌<◌, String, true, false, Bool, Bool-cases, inl, inr, ◌≡◌, refl, ap, ◌∙◌,
  Option, some, none, List, [], ◌∷◌, pos, ◌+ℤ◌, wrap64, arith, ltb, ltb_ℤ, ◌&&◌, if◌then◌else◌,
  str_eq,
}
use mathlib.Core.Option.{some-injective}
use go_backend_kit.Proxies.Types.{Proxy, ProxyPool}
use go_backend_kit.Proxies.Pool.{change_first, judge, fail_proxy, half, mark_failure}

unfoldable pub fails : ℕ → Proxy → Proxy
fails zero p = p
fails (suc n) p = fails n (fail_proxy p)

unfoldable pub mark_failures : ℕ → String → ProxyPool → ProxyPool
mark_failures zero url pool = pool
mark_failures (suc n) url pool = mark_failures n url (mark_failure url pool)

-- The first proxy with an address.
unfoldable pub find_proxy : String → List Proxy → Option Proxy
find_proxy url [] = none
find_proxy url (p ∷ ps) = if str_eq p.url url then some p else find_proxy url ps

-- More than ten failures, and fewer successes than half of them.
abbrev pub is_bad : ℕ → ℕ → Bool
is_bad s n = ltb 10 n && ltb s (n / 2)

-- A proxy with so many failures, which a bad record has put out of use.
abbrev pub judged : ℕ → ℕ → Proxy → Proxy
judged s n p = record p { failure_count = pos n; alive = (if is_bad s n then false else p.alive) }

wrap64_next : (n : ℕ) → suc n < 9223372036854775808 → wrap64 (pos n +ℤ pos 1) ≡ pos (suc n)
unfolding wrap64 ◌+ℤ◌
wrap64_next n h = ground arith

put_out :
    (b : Bool) (p : Proxy)
    → (if b then record p { alive = false } else p)
      ≡ record p { alive = (if b then false else p.alive) }
put_out true p = refl
put_out false p = refl

same_test : (s n : ℕ) → ltb_ℤ (pos 10) (pos n) && ltb_ℤ (pos s) (pos (n / 2)) ≡ is_bad s n
same_test s n = ground arith

judge_lem :
    (s n : ℕ) (p : Proxy)
    → p.success_count ≡ pos s
    → p.failure_count ≡ pos n
    → judge p ≡ record p { alive = (if is_bad s n then false else p.alive) }
unfolding judge
judge_lem s n p e g =
    ap (λ b. if b then record p { alive = false } else p)
      (ap (λ z. ltb_ℤ (pos 10) z && ltb_ℤ p.success_count (half z)) g
        ∙ ap (λ z. ltb_ℤ (pos 10) (pos n) && ltb_ℤ z (half (pos n))) e
        ∙ same_test s n)
    ∙ put_out (is_bad s n) p

fail_proxy-judged :
    (s f : ℕ) (p : Proxy)
    → p.success_count ≡ pos s
    → p.failure_count ≡ pos f
    → suc f < 9223372036854775808
    → fail_proxy p ≡ judged s (suc f) p
unfolding fail_proxy
fail_proxy-judged s f p e g h =
    ap (λ z. judge (record p { failure_count = z }))
      (ap (λ z. wrap64 (z +ℤ pos 1)) g ∙ wrap64_next f h)
    ∙ judge_lem s (suc f) (record p { failure_count = pos (suc f) }) e refl

-- A bad record stays bad.
judged_twice :
    (s f n : ℕ) (p : Proxy) → judged s (f + suc n) (judged s f p) ≡ judged s (f + suc n) p
judged_twice s f n p =
    ap (λ a. record p { failure_count = pos (f + suc n); alive = a })
      (by (is_bad s f) (is_bad s (f + suc n)) p.alive (λ h. still h))
  where
    still : is_bad s f ≡ true → is_bad s (f + suc n) ≡ true
    still h = ground arith

    by :
        (b c a : Bool)
        → (b ≡ true → c ≡ true)
        → (if c then false else (if b then false else a)) ≡ (if c then false else a)
    by b true a h = refl
    by true false a h = ground (arith, h refl)
    by false false a h = refl

fails-judged :
    (n s f : ℕ) (p : Proxy)
    → p.success_count ≡ pos s
    → p.failure_count ≡ pos f
    → f + suc n < 9223372036854775808
    → fails (suc n) p ≡ judged s (f + suc n) p
unfolding fails
fails-judged zero s f p e g h =
    fail_proxy-judged s f p e g (omega arith) ∙ ap (λ k. judged s k p) (omega arith)
fails-judged (suc n) s f p e g h =
    ap (fails (suc n)) (fail_proxy-judged s f p e g (omega arith))
    ∙ fails-judged n s (suc f) (judged s (suc f) p) e refl (omega arith)
    ∙ judged_twice s (suc f) n p
    ∙ ap (λ k. judged s k p) (omega arith)

fail_proxy-url : (p : Proxy) → (fail_proxy p).url ≡ p.url
unfolding fail_proxy judge
fail_proxy-url p =
    by (ltb_ℤ (pos 10) q.failure_count && ltb_ℤ q.success_count (half q.failure_count))
  where
    q : Proxy
    q = record p { failure_count = wrap64 (p.failure_count +ℤ pos 1) }

    by : (b : Bool) → (if b then record q { alive = false } else q).url ≡ p.url
    by true = refl
    by false = refl

-- The mark reaches the first proxy of the address.
find_change :
    (url : String) (p : Proxy) (ps : List Proxy)
    → find_proxy url ps ≡ some p
    → find_proxy url (change_first url fail_proxy ps) ≡ some (fail_proxy p)
unfolding find_proxy change_first
find_change url p [] e = cc
find_change url p (q ∷ ps) e = elim (Bool-cases (str_eq q.url url)) [
  | inl b ↦ rw b (
      ap (λ z. if str_eq z url then some (fail_proxy q) else find_proxy url ps) (fail_proxy-url q)
      ∙ rw b (ap (λ z. some (fail_proxy z)) (some-injective q p (rw b at e))))
  | inr b ↦ rw (b, find_proxy, b) (find_change url p ps (rw b at e))
]

find-mark_failures :
    (n : ℕ) (url : String) (p : Proxy) (pool : ProxyPool)
    → find_proxy url pool.proxies ≡ some p
    → find_proxy url (mark_failures n url pool).proxies ≡ some (fails n p)
unfolding mark_failures fails mark_failure
find-mark_failures zero url p pool e = e
find-mark_failures (suc n) url p pool e =
    find-mark_failures n url (fail_proxy p) (mark_failure url pool)
      (find_change url p pool.proxies e)

-- Any positive number of failures in a row of an address, whose first proxy has natural counts
-- that stay below 2^63, leaves that proxy with the sum as its failures, out of use if that is more
-- than 10 and the successes are fewer than half of it, rounded down, and otherwise as it was.
pub mark_failures_lem :
    (n s f : ℕ) (url : String) (p : Proxy) (pool : ProxyPool)
    → find_proxy url pool.proxies ≡ some p
    → p.success_count ≡ pos s
    → p.failure_count ≡ pos f
    → f + suc n < 9223372036854775808
    → find_proxy url (mark_failures (suc n) url pool).proxies ≡ some (judged s (f + suc n) p)
mark_failures_lem n s f url p pool e g h l =
    find-mark_failures (suc n) url p pool e ∙ ap some (fails-judged n s f p g h l)
