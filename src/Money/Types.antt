-- ===== src/Money/Types.antt =====
-- decimal/money.go: the decimal library as the code uses it.
use go_backend_kit.Common.{ℕ, ◌+◌, ◌-◌, ◌*◌, ◌/◌, ◌≤◌, ◌<◌, ◌≡◌, ℤ, pos}

-- An amount is a decimal. `div` divides by a whole number, `times_100` multiplies by 100, and
-- `penny` is 0.01.
pub record DecimalOps (D : Type 0) : Type 0 where
  pub nought : D
  pub penny : D
  pub add : D → D → D
  pub sub : D → D → D
  pub div : D → ℕ → D
  pub floor : D → D
  pub times_100 : D → D
  pub int_part : D → ℤ

-- What the documentation says of amounts that are so many hundredths. Division keeps 16 digits
-- after the point, which is exact enough to floor the quotient by a number below 10^12.
pub record DecimalLaws {D : Type 0} (ops : DecimalOps D) : Type 1 where
  pub IsCents : D → ℕ → Type 0
  pub nought_cents : IsCents ops.nought 0
  pub penny_cents : IsCents ops.penny 1
  pub add_cents : (a b : D) (x y : ℕ) → IsCents a x → IsCents b y → IsCents (ops.add a b) (x + y)
  pub sub_cents :
      (a b : D) (x y : ℕ) → IsCents a x → IsCents b y → y ≤ x → IsCents (ops.sub a b) (x - y)
  pub floor_cents :
      (a : D) (x n : ℕ)
      → IsCents a x
      → 0 < n
      → n < 1000000000000
      → IsCents (ops.floor (ops.div a n)) (x / (100 * n) * 100)
  pub int_part_cents : (a : D) (x : ℕ) → IsCents a x → ops.int_part (ops.times_100 a) ≡ pos x
