-- ===== src/Tests/Paying.antt =====
-- Runs of decimal/money.go.
use go_backend_kit.Common.{
  ℕ, ◌+◌, ◌-◌, ◌*◌, ◌/◌, ◌%◌, ◌≡◌, refl, ap, ◌∙◌, List, [], ◌∷◌, pos, arith, length,
}
use native.Mathlib.Nat.{div-div-eq-div-mul, mul_comm, mul-div_cancel}
use go_backend_kit.Money.{
  DecimalOps, DecimalLaws, split, split_positive, sum_money, sum_from, copies, distribute,
  add_pennies,
}
use go_backend_kit.Money.Shares.{AreCents, total, split_lem}

-- Amounts in whole hundredths.
abbrev whole : DecimalOps ℕ
whole = record {
  nought = 0;
  penny = 1;
  add = λ a b. a + b;
  sub = λ a b. a - b;
  div = λ a n. a / n;
  floor = λ a. a / 100 * 100;
  times_100 = λ a. a * 100;
  int_part = λ a. pos (a / 100);
}

abbrev whole_laws : DecimalLaws whole
whole_laws = record {
  IsCents = λ a x. a ≡ x;
  nought_cents = refl;
  penny_cents = refl;
  add_cents = λ a b x y e f. omega (arith, e, f);
  sub_cents = λ a b x y e f l. omega (arith, e, f);
  floor_cents = λ a x n e l u.
      ap (λ z. z / n / 100 * 100) e
      ∙ ap (λ z. z * 100) (div-div-eq-div-mul x n 100 ∙ ap (λ z. x / z) (mul_comm n 100));
  int_part_cents = λ a x e. ap pos (mul-div_cancel a (omega arith) ∙ e);
}

-- 10.00 in three parts: 97 hundredths are lost.
split_test : split whole 1000 (pos 3) ≡ 301 ∷ 301 ∷ 301 ∷ []
unfolding split split_positive sum_from copies distribute add_pennies
split_test = refl

split_lem_example :
    (xs : List ℕ) × AreCents whole whole_laws (split whole 1000 (pos 3)) xs
    × (length xs ≡ 3)
    × (sum_money whole (split whole 1000 (pos 3)) ≡ total xs)
    × (total xs + (1000 % 300 - 3) ≡ 1000)
split_lem_example = split_lem whole whole_laws 1000 1000 2 refl (omega arith)
