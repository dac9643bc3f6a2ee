-- ===== src/Common/Maps.antt =====
-- Go maps as association lists over keys with a decidable test.
use mathlib.Core.Path.{◌≡◌, refl}
use mathlib.Core.Bool.{Bool, true}
use mathlib.Core.Logic.{◌↔◌}
use mathlib.Core.List.{List, [], ◌∷◌}
use mathlib.Core.Option.{Option, none, some, some-injective}
use native.Mathlib.Omega.{arith}
use Prim.Native.String.{String}
use text.Mathlib.Text.{◌==◌ as str_eq}
use text.Mathlib.TextEquality.{eq_iff}
use mathlib.Core.Path.{subst}
use mathlib.Core.Logic.{inl, inr}
use go_backend_kit.Common.Tests.{if◌then◌else◌, Bool-cases}
use go_backend_kit.Common.Lists.{All}
use go_backend_kit.Common.Int.{ℤ, eq_ℤ, eq_ℤ_iff}

-- Keys of a map: the Go operator `==`.
pub record Key {ℓ} (K : Type ℓ) : Type ℓ where
  pub same : K → K → Bool
  pub same_iff : (a b : K) → (same a b ≡ true) ↔ (a ≡ b)

instance abbrev pub int_key : Key ℤ
int_key = record { same = eq_ℤ; same_iff = eq_ℤ_iff }

instance abbrev pub string_key : Key String
string_key = record { same = str_eq; same_iff = eq_iff }

abbrev pub Dict {ℓ κ} : Type ℓ → Type κ → Type (ℓ ⊔ κ)
Dict K V = List (K × V)

pub same_refl {ℓ} : {K : Type ℓ} ⦃k : Key K⦄ (j : K) → k.same j j ≡ true
same_refl ⦃k⦄ j = (k.same_iff j j).1 refl

module _ {ℓ κ} {K : Type ℓ} {V : Type κ} ⦃k : Key K⦄ where
  -- `v, ok := m[j]`
  unfoldable pub get : K → Dict K V → Option V
  get j [] = none
  get j ((i, v) ∷ m) = if k.same i j then some v else get j m

  -- `m[j] = v`
  unfoldable pub put : K → V → Dict K V → Dict K V
  put j v [] = (j, v) ∷ []
  put j v ((i, w) ∷ m) = if k.same i j then (j, v) ∷ m else (i, w) ∷ put j v m

  -- `delete(m, j)`
  unfoldable pub delete : K → Dict K V → Dict K V
  delete j [] = []
  delete j ((i, w) ∷ m) = let rest = delete j m in if k.same i j then rest else (i, w) ∷ rest

  pub get-put :
      (j i : K) (v : V) (m : Dict K V)
      → get j (put i v m) ≡ (if k.same i j then some v else get j m)
  unfolding get put
  get-put j i v [] = refl
  get-put j i v ((h, w) ∷ m) =
      ground (arith, k.same_iff h i, k.same_iff i j, k.same_iff h j, get-put j i v m)

  pub get-delete :
      (j i : K) (m : Dict K V) → get j (delete i m) ≡ (if k.same i j then none else get j m)
  unfolding get delete
  get-delete j i [] = ground arith
  get-delete j i ((h, w) ∷ m) =
      ground (arith, k.same_iff h i, k.same_iff i j, k.same_iff h j, get-delete j i m)

  -- What holds of all values holds of them after a change of the map, and of a value that is found.
  pub put-All {μ} :
      (P : V → Type μ) (i : K) (v : V) (m : Dict K V)
      → All (λ p. P p.1) m
      → P v
      → All (λ p. P p.1) (put i v m)
  unfolding put
  put-All P i v [] h w = (w, tt)
  put-All P i v ((j, u) ∷ m) h w = elim (Bool-cases (k.same j i)) [
    | inl b ↦ rw b (w, h.1)
    | inr b ↦ rw b (h.0, put-All P i v m h.1 w)
  ]

  pub delete-All {μ} :
      (P : V → Type μ) (i : K) (m : Dict K V) → All (λ p. P p.1) m → All (λ p. P p.1) (delete i m)
  unfolding delete
  delete-All P i [] h = tt
  delete-All P i ((j, u) ∷ m) h = elim (Bool-cases (k.same j i)) [
    | inl b ↦ rw b (delete-All P i m h.1)
    | inr b ↦ rw b (h.0, delete-All P i m h.1)
  ]

  pub get-All {μ} :
      (P : V → Type μ) (i : K) (v : V) (m : Dict K V) → All (λ p. P p.1) m → get i m ≡ some v → P v
  unfolding get
  get-All P i v [] h e = cc
  get-All P i v ((j, u) ∷ m) h e = elim (Bool-cases (k.same j i)) [
    | inl b ↦ subst P (some-injective u v (rw b at e)) h.0
    | inr b ↦ get-All P i v m h.1 (rw b at e)
  ]

pub ruleset dict_laws = (get-put, get-delete, same_refl)
