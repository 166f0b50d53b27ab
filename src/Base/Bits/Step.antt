-- ===== src/Base/Bits/Step.antt =====
-- The native bit operations as one equation for the lowest digit.
use Prim.Native.Nat.{ℕ, zero, suc, ◌+◌, ◌-◌, ◌*◌, ◌/◌, ◌%◌, ◌≤◌, min, max}
use Prim.Native.Nat.{bit_and, bit_or, digits, bitwise}
use Prim.Native.Nat.{bit_and-bitwise, bit_or-bitwise}
use mathlib.Core.Path.{◌≡◌, refl, ap, ◌∙◌}
use native.Mathlib.Omega.{arith}

-- Induction on the number of binary digits.
pub halving {ℓ} : (P : ℕ → Type ℓ) → P 0 → ((a : ℕ) → P (a / 2) → P a) → (a : ℕ) → P a
halving P base step a = go a a (omega arith)
  where
    go : (bound : ℕ) → (x : ℕ) → x ≤ bound → P x
    go _ zero _ = base
    go zero (suc x) above = absurd (omega arith)
    go (suc bound) (suc x) above = step (suc x) (go bound (suc x / 2) (omega arith))

module _ (past : ℕ → ℕ) (op : ℕ → ℕ → ℕ) where
  -- A unit of fuel that is not needed changes nothing.
  spare_unit : (fuel x y : ℕ) → x ≤ fuel → digits past op (suc fuel) x y ≡ digits past op fuel x y
  spare_unit zero zero y enough = refl
  spare_unit zero (suc x) y enough = absurd (omega arith)
  spare_unit (suc fuel) zero y enough = refl
  spare_unit (suc fuel) (suc x) y enough = rw (spare_unit fuel (suc x / 2) (y / 2) (omega arith))

  spare_fuel : (spare x y : ℕ) → digits past op (spare + x) x y ≡ digits past op x x y
  spare_fuel zero x y = ap (λ t. digits past op t x y) {x = 0 + x} {y = x} (omega arith)
  spare_fuel (suc spare) x y =
      ap (λ t. digits past op t x y) {x = suc spare + x} {y = suc (spare + x)} (omega arith)
      ∙ spare_unit (spare + x) x y (omega arith)
      ∙ spare_fuel spare x y

  half_fuel : (x y : ℕ) → digits past op x (suc x / 2) y ≡ bitwise past op (suc x / 2) y
  half_fuel x y =
      let spare = x - suc x / 2 in
      ap (λ t. digits past op t (suc x / 2) y) {x = x} {y = spare + suc x / 2} (omega arith)
      ∙ spare_fuel spare (suc x / 2) y

  pub lowest_digit :
      (x y : ℕ)
      → bitwise past op (suc x) y ≡ bitwise past op (suc x / 2) (y / 2) * 2 + op (suc x % 2) (y % 2)
  lowest_digit x y = ap (λ t. t * 2 + op (suc x % 2) (y % 2)) (half_fuel x (y / 2))

-- A number without digits is neutral for `|` and absorbs under `&`.
pub bit_or_step : (x y : ℕ) → bit_or x y ≡ bit_or (x / 2) (y / 2) * 2 + max (x % 2) (y % 2)
bit_or_step zero y = simp bit_or-bitwise (omega arith)
bit_or_step (suc x) y = simp bit_or-bitwise (lowest_digit (λ t. t) max x y)

pub bit_and_step : (x y : ℕ) → bit_and x y ≡ bit_and (x / 2) (y / 2) * 2 + min (x % 2) (y % 2)
bit_and_step zero y = simp bit_and-bitwise (omega arith)
bit_and_step (suc x) y = simp bit_and-bitwise (lowest_digit (λ t. 0) min x y)

pub zero-bit_or : (y : ℕ) → bit_or 0 y ≡ y
zero-bit_or y = bit_or-bitwise 0 y
