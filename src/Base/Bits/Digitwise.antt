-- ===== src/Base/Bits/Digitwise.antt =====
-- Operations that act on each binary digit for itself, and `^`, which is one.
use Prim.Native.Nat.{
  ℕ, zero, suc, ◌+◌, ◌-◌, ◌*◌, ◌/◌, ◌%◌, ◌^◌, ◌≤◌, ◌<◌, bit_xor, bit_xor-bitwise, differ,
}
use mathlib.Core.Path.{◌≡◌, refl, ap, ap₂, ◌∙◌}
use native.Mathlib.Nat.{pow-suc}
use native.Mathlib.Omega.{arith}
use copy_space.Base.Bits.Step.{lowest_digit}
use copy_space.Base.Bits.Digits.{testbit}

module _ (f g : ℕ → ℕ → ℕ) (law : (x y : ℕ) → f x y ≡ f (x / 2) (y / 2) * 2 + g (x % 2) (y % 2))
    (one_digit : (p q : ℕ) → p ≤ 1 → q ≤ 1 → g p q ≤ 1) (nothing : f 0 0 ≡ 0) where
  pub digitwise-lt : (w x y : ℕ) → x < 2 ^ w → y < 2 ^ w → f x y < 2 ^ w
  digitwise-lt zero x y p q =
      let x_zero : x ≡ 0 = omega arith in
      let y_zero : y ≡ 0 = omega arith in omega (arith, ap₂ f x_zero y_zero, nothing)
  digitwise-lt (suc w) x y p q =
      let halves =
        digitwise-lt w (x / 2) (y / 2) (omega (arith, pow-suc 2 w)) (omega (arith, pow-suc 2 w)) in
      omega (arith, law x y, pow-suc 2 w, one_digit (x % 2) (y % 2) (omega arith) (omega arith))

  pub testbit-digitwise : (x y k : ℕ) → testbit (f x y) k ≡ g (testbit x k) (testbit y k)
  testbit-digitwise x y zero =
      omega (arith, law x y, one_digit (x % 2) (y % 2) (omega arith) (omega arith))
  testbit-digitwise x y (suc k) =
      let half : f x y / 2 ≡ f (x / 2) (y / 2) =
        omega (arith, law x y, one_digit (x % 2) (y % 2) (omega arith) (omega arith)) in
      ap (λ t. testbit t k) half ∙ testbit-digitwise (x / 2) (y / 2) k

pub bit_xor_step : (x y : ℕ) → bit_xor x y ≡ bit_xor (x / 2) (y / 2) * 2 + differ (x % 2) (y % 2)
bit_xor_step zero y = simp bit_xor-bitwise (omega arith)
bit_xor_step (suc x) y = simp bit_xor-bitwise (lowest_digit (λ t. t) differ x y)

differ-zero : (p : ℕ) → differ p 0 ≡ p
differ-zero zero = refl
differ-zero (suc p) = refl

pub differ-le-one : (p q : ℕ) → p ≤ 1 → q ≤ 1 → differ p q ≤ 1
differ-le-one zero q h k = k
differ-le-one (suc p) zero h k = h
differ-le-one (suc p) (suc q) h k = differ-le-one p q (omega arith) (omega arith)

-- `x ^ (1 << w)` sets digit `w` of an `x` below it.
pub bit_xor-low : (w x : ℕ) → x < 2 ^ w → bit_xor x (2 ^ w) ≡ x + 2 ^ w
bit_xor-low zero x h = rw (zero_of x h) refl
  where
    zero_of : (x : ℕ) → x < 1 → x ≡ 0
    zero_of x h = omega arith
bit_xor-low (suc w) x h =
    let half : 2 ^ suc w / 2 ≡ 2 ^ w = omega (arith, pow-suc 2 w) in
    let even : 2 ^ suc w % 2 ≡ 0 = omega (arith, pow-suc 2 w) in
    omega (
      arith,
      bit_xor_step x (2 ^ suc w),
      ap (λ t. bit_xor (x / 2) t) half,
      ap (λ t. differ (x % 2) t) even,
      differ-zero (x % 2),
      bit_xor-low w (x / 2) (omega (arith, pow-suc 2 w)),
      pow-suc 2 w,
    )

-- It clears digit `w` of an `x` that has it as its highest one.
pub bit_xor-high : (w x : ℕ) → 2 ^ w ≤ x → x < 2 ^ suc w → bit_xor x (2 ^ w) ≡ x - 2 ^ w
bit_xor-high zero x h k = rw (one_of x h k) refl
  where
    one_of : (x : ℕ) → 1 ≤ x → x < 2 → x ≡ 1
    one_of x h k = omega arith
bit_xor-high (suc w) x h k =
    let half : 2 ^ suc w / 2 ≡ 2 ^ w = omega (arith, pow-suc 2 w) in
    let even : 2 ^ suc w % 2 ≡ 0 = omega (arith, pow-suc 2 w) in
    omega (
      arith,
      bit_xor_step x (2 ^ suc w),
      ap (λ t. bit_xor (x / 2) t) half,
      ap (λ t. differ (x % 2) t) even,
      differ-zero (x % 2),
      bit_xor-high w (x / 2) (omega (arith, pow-suc 2 w)) (omega (arith, pow-suc 2 (suc w))),
      pow-suc 2 w,
      pow-suc 2 (suc w),
    )
