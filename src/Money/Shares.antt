-- ===== src/Money/Shares.antt =====
-- decimal/money.go: what `Split` hands out.
use go_backend_kit.Common.{
  ℕ, zero, suc, ◌+◌, ◌-◌, ◌*◌, ◌/◌, ◌%◌, ◌<◌, ◌≡◌, refl, ap, sym, ◌∙◌, List, [], ◌∷◌, pos, arith,
  length,
}
use mathlib.Core.Path.{subst}
use native.Mathlib.Nat.{suc-mul, mul_assoc, mul_comm, div-add-mod}
use go_backend_kit.Money.Types.{DecimalOps, DecimalLaws}
use go_backend_kit.Money.Engine.{
  sum_from, sum_money, copies, add_pennies, distribute, split_positive, split,
}

abbrev pub total : List ℕ → ℕ
total [] = 0
total (x ∷ xs) = x + total xs

abbrev pub copies_of : ℕ → ℕ → List ℕ
copies_of zero b = []
copies_of (suc n) b = b ∷ copies_of n b

abbrev pub with_pennies : ℕ → List ℕ → List ℕ
with_pennies zero xs = xs
with_pennies (suc k) [] = []
with_pennies (suc k) (x ∷ xs) = (x + 1) ∷ with_pennies k xs

length-copies_of : (n b : ℕ) → length (copies_of n b) ≡ n
length-copies_of zero b = refl
length-copies_of (suc n) b = ap suc (length-copies_of n b)

total-copies_of : (n b : ℕ) → total (copies_of n b) ≡ n * b
total-copies_of zero b = omega arith
total-copies_of (suc n) b = omega (arith, total-copies_of n b, suc-mul n b)

total-with_pennies :
    (k : ℕ) (xs : List ℕ) → total (with_pennies k xs) + (length xs - k) ≡ total xs + length xs
total-with_pennies zero xs = omega arith
total-with_pennies (suc k) [] = omega arith
total-with_pennies (suc k) (x ∷ xs) = omega (arith, total-with_pennies k xs)

length-with_pennies : (k : ℕ) (xs : List ℕ) → length (with_pennies k xs) ≡ length xs
length-with_pennies zero xs = refl
length-with_pennies (suc k) [] = refl
length-with_pennies (suc k) (x ∷ xs) = ap suc (length-with_pennies k xs)

base_total : (n q : ℕ) → n * (q * 100) ≡ 100 * n * q
base_total n q = sym (mul_assoc n q 100) ∙ mul_comm (n * q) 100 ∙ sym (mul_assoc 100 n q)

-- The shares of so many parts, and what they miss.
abbrev pub shares : ℕ → ℕ → List ℕ
shares x n = with_pennies (x % (100 * n)) (copies_of n (x / (100 * n) * 100))

copies_rest : (x n : ℕ) → total (copies_of n (x / (100 * n) * 100)) + x % (100 * n) ≡ x
copies_rest x n = omega (
  arith,
  total-copies_of n (x / (100 * n) * 100),
  base_total n (x / (100 * n)),
  div-add-mod x (100 * n),
)

shares_total : (x n : ℕ) → total (shares x n) + (x % (100 * n) - n) ≡ x
shares_total x n = omega (
  arith,
  copies_rest x n,
  total-with_pennies (x % (100 * n)) (copies_of n (x / (100 * n) * 100)),
  length-copies_of n (x / (100 * n) * 100),
)

module _ {D : Type 0} (ops : DecimalOps D) (laws : DecimalLaws ops) where
  -- These amounts are so many hundredths each.
  abbrev pub AreCents : List D → List ℕ → Type 0
  AreCents [] [] = Unit
  AreCents [] (x ∷ xs) = ⊥
  AreCents (d ∷ ds) [] = ⊥
  AreCents (d ∷ ds) (x ∷ xs) = laws.IsCents d x × AreCents ds xs

  copies-AreCents : (n b : ℕ) (d : D) → laws.IsCents d b → AreCents (copies ops n d) (copies_of n b)
  unfolding copies
  copies-AreCents zero b d h = tt
  copies-AreCents (suc n) b d h = (h, copies-AreCents n b d h)

  sum_from-cents :
      (ds : List D) (xs : List ℕ) (t : D) (y : ℕ)
      → laws.IsCents t y
      → AreCents ds xs
      → laws.IsCents (sum_from ops t ds) (y + total xs)
  unfolding sum_from
  sum_from-cents [] [] t y h all = subst (laws.IsCents t) (omega arith) h
  sum_from-cents [] (x ∷ xs) t y h all = absurd all
  sum_from-cents (d ∷ ds) [] t y h all = absurd all
  sum_from-cents (d ∷ ds) (x ∷ xs) t y h all =
      subst (laws.IsCents (sum_from ops (ops.add t d) ds)) (omega arith)
        (sum_from-cents ds xs (ops.add t d) (y + x) (laws.add_cents t d y x h all.0) all.1)

  sum_money-cents :
      (ds : List D) (xs : List ℕ) → AreCents ds xs → laws.IsCents (sum_money ops ds) (total xs)
  unfolding sum_money
  sum_money-cents ds xs all =
      subst (laws.IsCents (sum_from ops ops.nought ds)) (omega arith)
        (sum_from-cents ds xs ops.nought 0 laws.nought_cents all)

  add_pennies-AreCents :
      (k : ℕ) (ds : List D) (xs : List ℕ)
      → AreCents ds xs
      → AreCents (add_pennies ops k ds) (with_pennies k xs)
  unfolding add_pennies
  add_pennies-AreCents zero ds xs h = h
  add_pennies-AreCents (suc k) [] [] h = tt
  add_pennies-AreCents (suc k) [] (x ∷ xs) h = absurd h
  add_pennies-AreCents (suc k) (d ∷ ds) [] h = absurd h
  add_pennies-AreCents (suc k) (d ∷ ds) (x ∷ xs) h =
      (laws.add_cents d ops.penny x 1 h.0 laws.penny_cents, add_pennies-AreCents k ds xs h.1)

  split_positive-AreCents :
      (m : D) (x n : ℕ)
      → laws.IsCents m x
      → 0 < n
      → n < 1000000000000
      → AreCents (split_positive ops m n) (shares x n)
  unfolding split_positive
  split_positive-AreCents m x n h l u =
      subst (λ z. AreCents (distribute ops z parts) (shares x n)) (sym pennies)
        (unfold distribute in add_pennies-AreCents (x % (100 * n)) parts _ cents)
    where
      parts : List D
      parts = copies ops n (ops.floor (ops.div m n))

      cents : AreCents parts (copies_of n (x / (100 * n) * 100))
      cents =
          copies-AreCents n (x / (100 * n) * 100) (ops.floor (ops.div m n))
            (laws.floor_cents m x n h l u)

      spent :
          laws.IsCents (sum_from ops ops.nought parts) (total (copies_of n (x / (100 * n) * 100)))
      spent = unfold sum_money in sum_money-cents parts _ cents

      left : laws.IsCents (ops.sub m (sum_from ops ops.nought parts)) (x % (100 * n))
      left =
          subst (laws.IsCents (ops.sub m (sum_from ops ops.nought parts)))
            (omega (arith, copies_rest x n))
            (laws.sub_cents m (sum_from ops ops.nought parts) x _ h spent
              (omega (arith, copies_rest x n)))

      pennies :
          ops.int_part (ops.times_100 (ops.sub m (sum_from ops ops.nought parts)))
          ≡ pos (x % (100 * n))
      pennies = laws.int_part_cents (ops.sub m (sum_from ops ops.nought parts)) (x % (100 * n)) left

  -- Over any decimals with the laws of the library, an amount of a natural number of hundredths that
  -- is split in n parts, n positive and below 10^12, gives n parts, whose sum as Sum computes it
  -- misses the amount by what its remainder modulo n whole units has above n hundredths.
  pub split_lem :
      (m : D) (x k : ℕ)
      → laws.IsCents m x
      → suc k < 1000000000000
      → (xs : List ℕ) × AreCents (split ops m (pos (suc k))) xs
        × (length xs ≡ suc k)
        × laws.IsCents (sum_money ops (split ops m (pos (suc k)))) (total xs)
        × (total xs + (x % (100 * suc k) - suc k) ≡ x)
  unfolding split
  split_lem m x k h u =
      let parts = split_positive-AreCents m x (suc k) h (omega arith) u in
      (
        shares x (suc k),
        parts,
        length-with_pennies (x % (100 * suc k)) _ ∙ length-copies_of (suc k) _,
        sum_money-cents (split_positive ops m (suc k)) (shares x (suc k)) parts,
        shares_total x (suc k),
      )
