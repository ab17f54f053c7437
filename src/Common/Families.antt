-- ===== src/Common/Families.antt =====
-- Families over the natural numbers: one member changed, and the sum of the first members' weights.
use Prim.Native.Nat.{ℕ, zero, suc, ◌+◌, ◌≤◌, ◌<◌}
use mathlib.Core.Path.{◌≡◌, refl}
use mathlib.Core.Logic.{inl, inr}
use native.Mathlib.Omega.{arith}
use pg_k8s_proxy.Common.Tests.{if◌then◌else◌, ◌==◌, ==_iff, Bool-cases}

abbrev pub update {ℓ} : {A : Type ℓ} → ℕ → A → (ℕ → A) → ℕ → A
update i a f j = if i == j then a else f j

module _ {ℓ} {A : Type ℓ} (w : A → ℕ) where
  unfoldable pub sum : ℕ → (ℕ → A) → ℕ
  sum zero f = 0
  sum (suc n) f = sum n f + w (f n)

  pub sum-update_above :
      (n : ℕ) (i : ℕ) (a : A) (f : ℕ → A) → n ≤ i → sum n (update i a f) ≡ sum n f
  unfolding sum
  sum-update_above zero i a f h = refl
  sum-update_above (suc n) i a f h = ground (arith, sum-update_above n i a f)

  -- Changing a member below the bound changes the sum by the difference of the weights.
  pub sum-update :
      (n : ℕ) (i : ℕ) (a : A) (f : ℕ → A) → i < n → sum n (update i a f) + w (f i) ≡ sum n f + w a
  unfolding sum
  sum-update zero i a f h = absurd (omega arith)
  sum-update (suc n) i a f h = elim (Bool-cases (i == n)) [
    | inl e ↦ let e' = (==_iff i n).0 e in rw e' (ground (arith, sum-update_above n n a f))
    | inr e ↦ ground (arith, sum-update n i a f)
  ]

  pub sum-le : (n : ℕ) (f : ℕ → A) (i : ℕ) → i < n → w (f i) ≤ sum n f
  unfolding sum
  sum-le zero f i h = absurd (omega arith)
  sum-le (suc n) f i h = elim (Bool-cases (i == n)) [
    | inl e ↦ rw ((==_iff i n).0 e) (omega arith)
    | inr e ↦ ground (arith, sum-le n f i)
  ]

  -- A sum that is not 0 has a member that is not.
  pub sum_inv : (n : ℕ) (f : ℕ → A) → 0 < sum n f → (i : ℕ) × (i < n) × (0 < w (f i))
  unfolding sum
  sum_inv zero f h = absurd (omega (arith, h))
  sum_inv (suc n) f h = elim (Bool-cases (w (f n) == 0)) [
    | inl e ↦
        let (i, below, here) = sum_inv n f (ground (arith, h, e)) in (i, omega (arith, below), here)
    | inr e ↦ (n, omega arith, ground arith)
  ]
