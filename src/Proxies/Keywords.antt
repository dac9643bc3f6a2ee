-- ===== src/Proxies/Keywords.antt =====
-- crawler/fetcher/pool.go: `contains`, and the user agents of mobile devices.
use go_backend_kit.Common.{
  ℕ, ◌≤◌, true, false, Bool, inl, inr, ◌≡◌, ◌↔◌, ◌⊎◌, refl, ap, sym, ◌∙◌, List, [], ◌∷◌, ◌++◌,
  arith, length, take, ltb, drop, take-append-drop, length-append, leb, ◌&&◌, ◌||◌, ◌==◌, ==_iff,
}
use mathlib.Core.Path.{subst}
use go_backend_kit.Proxies.Agents.{same_bytes, contains_bytes}

same_bytes_refl : (a : List ℕ) → same_bytes a a ≡ true
unfolding same_bytes
same_bytes_refl [] = refl
same_bytes_refl (x ∷ a) = ground (arith, ==_iff x x, same_bytes_refl a)

same_bytes_eq : (a b : List ℕ) → same_bytes a b ≡ true → a ≡ b
unfolding same_bytes
same_bytes_eq [] [] e = refl
same_bytes_eq [] (y ∷ b) e = cc
same_bytes_eq (x ∷ a) [] e = cc
same_bytes_eq (x ∷ a) (y ∷ b) e =
    both x y (x == y) (same_bytes a b) (==_iff x y).0 (same_bytes_eq a b) e
  where
    both :
        (x y : ℕ) (c d : Bool)
        → (c ≡ true → x ≡ y)
        → (d ≡ true → a ≡ b)
        → c && d ≡ true
        → x ∷ a ≡ y ∷ b
    both x y true true f g e = ap (λ z. z ∷ a) (f refl) ∙ ap (λ l. y ∷ l) (g refl)
    both x y true false f g e = cc
    both x y false d f g e = cc

append_nil : (a : List ℕ) → a ++ [] ≡ a
append_nil [] = refl
append_nil (x ∷ a) = ap (λ l. x ∷ l) (append_nil a)

take-append : (a b : List ℕ) → take (length a) (a ++ b) ≡ a
take-append [] b = refl
take-append (x ∷ a) b = ap (λ l. x ∷ l) (take-append a b)

-- The text stands somewhere in the other.
abbrev pub IsPart : List ℕ → List ℕ → Type 0
IsPart sub s = (before : List ℕ) × (after : List ℕ) × (s ≡ before ++ (sub ++ after))

empty-IsPart : (sub s : List ℕ) → length sub ≡ 0 → IsPart sub s
empty-IsPart [] s e = ([], s, refl)
empty-IsPart (y ∷ sub) s e = absurd (omega arith)

length-IsPart : (sub s : List ℕ) → IsPart sub s → length sub ≤ length s
length-IsPart sub s (before, after, e) =
    omega (arith, ap length e, length-append before (sub ++ after), length-append sub after)

-- The cases of the test.
test_cases :
    (a b c d e r : Bool)
    → (a && (b || (c || ((d && e) || r)))) ≡ true
    → (b ≡ true) ⊎ ((c ≡ true) ⊎ ((e ≡ true) ⊎ (r ≡ true)))
test_cases false b c d e r h = cc
test_cases true true c d e r h = inl refl
test_cases true false true d e r h = inr (inl refl)
test_cases true false false true true r h = inr (inr (inl refl))
test_cases true false false true false r h = inr (inr (inr h))
test_cases true false false false e r h = inr (inr (inr h))

contains_bytes-IsPart : (s sub : List ℕ) → contains_bytes s sub ≡ true → IsPart sub s
unfolding contains_bytes
contains_bytes-IsPart [] sub e =
    empty-IsPart sub [] (zero_length (length sub) (same_bytes [] sub || (length sub == 0)) e)
  where
    zero_length : (n : ℕ) (b : Bool) → leb n 0 && b ≡ true → n ≡ 0
    zero_length n b h = ground arith
contains_bytes-IsPart (x ∷ s) sub e =
    elim (test_cases (leb (length sub) (length (x ∷ s))) (same_bytes (x ∷ s) sub) (length sub == 0)
      (ltb 0 (length sub)) (same_bytes (take (length sub) (x ∷ s)) sub) (contains_bytes s sub) e) [
        | inl same ↦ ([], [], sym (append_nil sub ∙ sym (same_bytes_eq (x ∷ s) sub same)))
        | inr (inl z) ↦ empty-IsPart sub (x ∷ s) ((==_iff (length sub) 0).0 z)
        | inr (inr (inl front)) ↦ (
          [],
          drop (length sub) (x ∷ s),
          sym (
              ap (λ l. l ++ drop (length sub) (x ∷ s))
                (sym (same_bytes_eq (take (length sub) (x ∷ s)) sub front))
              ∙ take-append-drop (length sub) (x ∷ s)),
        )
        | inr (inr (inr rest)) ↦
            let (before, after, h) = contains_bytes-IsPart s sub rest in
            (x ∷ before, after, ap (λ l. x ∷ l) h)
      ]

-- A front part is found at once.
contains_bytes_front : (sub after : List ℕ) → contains_bytes (sub ++ after) sub ≡ true
contains_bytes_front [] [] = unfold contains_bytes in ground arith
contains_bytes_front [] (y ∷ after) = unfold contains_bytes in ground arith
contains_bytes_front (x ∷ sub) after =
    unfold contains_bytes in
    found (same_bytes (x ∷ (sub ++ after)) (x ∷ sub)) (contains_bytes (sub ++ after) (x ∷ sub)) (
      subst (λ l. same_bytes l (x ∷ sub) ≡ true) (sym (take-append (x ∷ sub) after))
        (same_bytes_refl (x ∷ sub)))
  where
    found :
        (b r : Bool)
        → same_bytes (take (length (x ∷ sub)) (x ∷ (sub ++ after))) (x ∷ sub) ≡ true
        → leb (length (x ∷ sub)) (length (x ∷ (sub ++ after)))
            && (b
                || ((length (x ∷ sub) == 0)
                    || ((ltb 0 (length (x ∷ sub))
                          && same_bytes (take (length (x ∷ sub)) (x ∷ (sub ++ after))) (x ∷ sub))
                        || r)))
          ≡ true
    found b r h = ground (arith, length-append sub after)

-- A later part is found by the recursive call.
contains_bytes_later :
    (x : ℕ) (s sub : List ℕ)
    → length sub ≤ length s
    → contains_bytes s sub ≡ true
    → contains_bytes (x ∷ s) sub ≡ true
unfolding contains_bytes
contains_bytes_later x s sub l h =
    found (same_bytes (x ∷ s) sub) (length sub == 0)
      (ltb 0 (length sub) && same_bytes (take (length sub) (x ∷ s)) sub) (contains_bytes s sub) h
  where
    found :
        (b c d r : Bool)
        → r ≡ true
        → leb (length sub) (length (x ∷ s)) && (b || (c || (d || r))) ≡ true
    found b c d r h = ground arith

contains_bytes-part :
    (before sub after : List ℕ) → contains_bytes (before ++ (sub ++ after)) sub ≡ true
contains_bytes-part [] sub after = contains_bytes_front sub after
contains_bytes-part (x ∷ before) sub after =
    contains_bytes_later x (before ++ (sub ++ after)) sub
      (length-IsPart sub (before ++ (sub ++ after)) (before, after, refl))
      (contains_bytes-part before sub after)

-- The hand-written search answers true exactly if the bytes are some bytes, then the bytes
-- searched for, then some bytes.
pub contains_bytes_iff : (s sub : List ℕ) → (contains_bytes s sub ≡ true) ↔ IsPart sub s
contains_bytes_iff s sub = (
  contains_bytes-IsPart s sub,
  (λ h. subst (λ l. contains_bytes l sub ≡ true) (sym h.2) (contains_bytes-part h.0 sub h.1)),
)
