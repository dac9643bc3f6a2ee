-- ===== src/Money/Engine.antt =====
-- decimal/money.go: `Sum` and `Split`.
use go_backend_kit.Common.{ℕ, zero, suc, List, [], ◌∷◌, ℤ, pos, negsuc}
use go_backend_kit.Money.Types.{DecimalOps}

module _ {D : Type 0} (ops : DecimalOps D) where
  unfoldable pub sum_from : D → List D → D
  sum_from total [] = total
  sum_from total (d ∷ ds) = sum_from (ops.add total d) ds

  unfoldable pub sum_money : List D → D
  sum_money ds = sum_from ops.nought ds

  -- So many parts of the base amount.
  unfoldable pub copies : ℕ → D → List D
  copies zero base = []
  copies (suc n) base = base ∷ copies n base

  -- A penny for each of the first parts.
  unfoldable pub add_pennies : ℕ → List D → List D
  add_pennies zero ds = ds
  add_pennies (suc k) [] = []
  add_pennies (suc k) (d ∷ ds) = ops.add d ops.penny ∷ add_pennies k ds

  -- A negative number of pennies gives none.
  unfoldable pub distribute : ℤ → List D → List D
  distribute (negsuc k) ds = ds
  distribute (pos k) ds = add_pennies k ds

  unfoldable pub split_positive : D → ℕ → List D
  split_positive m n =
      let base = ops.floor (ops.div m n) in
      let parts = copies n base in
      distribute (ops.int_part (ops.times_100 (ops.sub m (sum_from ops.nought parts)))) parts

  unfoldable pub split : D → ℤ → List D
  split m (negsuc n) = []
  split m (pos zero) = []
  split m (pos (suc n)) = split_positive m (suc n)
