-- ===== src/Base/Bits/Digits.antt =====
-- `testbit a k` is digit `k` of `a`, with the law of each C operator on it.
use Prim.Native.Nat.{ℕ, zero, suc, ◌+◌, ◌-◌, ◌*◌, ◌/◌, ◌%◌, ◌^◌, ◌≤◌, ◌<◌, min, max}
use Prim.Native.Nat.{bit_and, bit_or}
use mathlib.Core.Path.{◌≡◌, refl, sym, ap, ◌∙◌}
use native.Mathlib.Nat.{pow-suc, one-le-pow, div-div-eq-div-mul, div-one, mul-one, sub-zero}
use native.Mathlib.Nat.{zero-add, add-zero, mul_comm, mul_assoc, mod-lt, mod-eq_of_lt, div-add-mod}
use native.Mathlib.Nat.{add-mul-mod_self_right}
use native.Mathlib.Omega.{arith}
use copy_space.Base.Bits.Step.{bit_and_step, bit_or_step, halving, zero-bit_or}

abbrev pub testbit : ℕ → ℕ → ℕ
testbit a zero = a % 2
testbit a (suc k) = testbit (a / 2) k

pub testbit-le-one : (a k : ℕ) → testbit a k ≤ 1
testbit-le-one a zero = omega arith
testbit-le-one a (suc k) = testbit-le-one (a / 2) k

-- The same digit, with its index written in two ways.
pub testbit_at : (a i j : ℕ) → i ≡ j → testbit a i ≡ testbit a j
testbit_at a i j e = ap (λ t. testbit a t) e

pub testbit-zero : (k : ℕ) → testbit 0 k ≡ 0
testbit-zero zero = refl
testbit-zero (suc k) = testbit-zero k

pub testbit-bit_and : (a b k : ℕ) → testbit (bit_and a b) k ≡ min (testbit a k) (testbit b k)
testbit-bit_and a b zero = omega (arith, bit_and_step a b)
testbit-bit_and a b (suc k) =
    let half : bit_and a b / 2 ≡ bit_and (a / 2) (b / 2) = omega (arith, bit_and_step a b) in
    ap (λ t. testbit t k) half ∙ testbit-bit_and (a / 2) (b / 2) k

pub testbit-bit_or : (a b k : ℕ) → testbit (bit_or a b) k ≡ max (testbit a k) (testbit b k)
testbit-bit_or a b zero = omega (arith, bit_or_step a b)
testbit-bit_or a b (suc k) =
    let half : bit_or a b / 2 ≡ bit_or (a / 2) (b / 2) = omega (arith, bit_or_step a b) in
    ap (λ t. testbit t k) half ∙ testbit-bit_or (a / 2) (b / 2) k

pub half-pow : (a s : ℕ) → a / 2 ^ suc s ≡ a / 2 / 2 ^ s
half-pow a s = rw (pow-suc 2 s, div-div-eq-div-mul) (ap (λ t. a / t) (omega arith))

-- `a >> s`.
pub testbit-shr : (a s k : ℕ) → testbit (a / 2 ^ s) k ≡ testbit a (s + k)
testbit-shr a zero k = simp (div-one, zero-add)
testbit-shr a (suc s) k = rw (half-pow a s) (testbit-shr (a / 2) s k ∙ shift)
  where
    shift : testbit a (suc (s + k)) ≡ testbit a (suc s + k)
    shift = testbit_at a (suc (s + k)) (suc s + k) (omega arith)

pub mul-pow : (a s : ℕ) → a * 2 ^ suc s ≡ 2 * (a * 2 ^ s)
mul-pow a s = omega (arith, ap (λ (t : ℕ). a * t) (pow-suc 2 s))

-- `a << s`: the digits below `s` are 0, the others are moved up.
pub testbit-shl_low : (a s k : ℕ) → k < s → testbit (a * 2 ^ s) k ≡ 0
testbit-shl_low a zero k h = elim h [ ]
testbit-shl_low a (suc s) zero h = omega (arith, mul-pow a s)
testbit-shl_low a (suc s) (suc k) h =
    let half : a * 2 ^ suc s / 2 ≡ a * 2 ^ s = omega (arith, mul-pow a s) in
    ap (λ t. testbit t k) half ∙ testbit-shl_low a s k (omega arith)

pub testbit-shl : (a s k : ℕ) → s ≤ k → testbit (a * 2 ^ s) k ≡ testbit a (k - s)
testbit-shl a zero k h = simp (mul-one, sub-zero)
testbit-shl a (suc s) zero h = absurd (omega arith)
testbit-shl a (suc s) (suc k) h =
    let half : a * 2 ^ suc s / 2 ≡ a * 2 ^ s = omega (arith, mul-pow a s) in
    ap (λ t. testbit t k) half ∙ testbit-shl a s k (omega arith) ∙ shift
  where
    shift : testbit a (k - s) ≡ testbit a (suc k - suc s)
    shift = testbit_at a (k - s) (suc k - suc s) (omega arith)

-- The remainder by `2 ^ suc w` is twice a remainder by `2 ^ w`, and the lowest digit.
pub mod-pow-suc : (a w : ℕ) → a % 2 ^ suc w ≡ 2 * (a / 2 % 2 ^ w) + a % 2
mod-pow-suc a w = ap (λ t. t % 2 ^ suc w) split ∙ add-mul-mod_self_right _ q _ ∙ mod-eq_of_lt below
  where
    q : ℕ
    q = a / 2 / 2 ^ w

    below : 2 * (a / 2 % 2 ^ w) + a % 2 < 2 ^ suc w
    below = omega (arith, pow-suc 2 w, mod-lt (a / 2) {m = 2 ^ w} (one-le-pow w 2 (omega arith)))

    split : a ≡ 2 * (a / 2 % 2 ^ w) + a % 2 + q * 2 ^ suc w
    split = omega (arith, mul-pow q w, div-add-mod (a / 2) (2 ^ w), mul_comm (2 ^ w) q)

-- A cast to `w` bits keeps the digits below `w`.
pub testbit-mod : (a w k : ℕ) → k < w → testbit (a % 2 ^ w) k ≡ testbit a k
testbit-mod a zero k h = elim h [ ]
testbit-mod a (suc w) zero h = omega (arith, mod-pow-suc a w)
testbit-mod a (suc w) (suc k) h =
    let half : a % 2 ^ suc w / 2 ≡ a / 2 % 2 ^ w = omega (arith, mod-pow-suc a w) in
    ap (λ t. testbit t k) half ∙ testbit-mod (a / 2) w k (omega arith)

pub testbit-of_lt : (a w k : ℕ) → a < 2 ^ w → w ≤ k → testbit a k ≡ 0
testbit-of_lt a zero k h p =
    let none_left : a ≡ 0 = omega arith in ap (λ t. testbit t k) none_left ∙ testbit-zero k
testbit-of_lt a (suc w) zero h p = absurd (omega arith)
testbit-of_lt a (suc w) (suc k) h p =
    testbit-of_lt (a / 2) w k (omega (arith, pow-suc 2 w)) (omega arith)

bit_and-zero : (x : ℕ) → bit_and x 0 ≡ 0
bit_and-zero = halving (λ x. bit_and x 0 ≡ 0) refl λ x rest. omega (arith, bit_and_step x 0, rest)

pub mod_two-le : (a : ℕ) → a % 2 ≤ 1
mod_two-le a = omega arith

pub bit_and_one : (a : ℕ) → bit_and a 1 ≡ a % 2
bit_and_one a = omega (arith, bit_and_step a 1, bit_and-zero (a / 2))

-- `(a >> s) & 1` is digit `s`.
pub bit_and_one-shr : (a s : ℕ) → bit_and (a / 2 ^ s) 1 ≡ testbit a s
bit_and_one-shr a s = bit_and_one (a / 2 ^ s) ∙ testbit-shr a s 0 ∙ ap (testbit a) (add-zero s)

-- A number below `2 ^ w` is given by its digits below `w`.
pub testbit_ext :
    (w a b : ℕ) → a < 2 ^ w → b < 2 ^ w → ((k : ℕ) → k < w → testbit a k ≡ testbit b k) → a ≡ b
testbit_ext zero a b p q h = omega arith
testbit_ext (suc w) a b p q h =
    let halves : a / 2 ≡ b / 2 =
      testbit_ext w (a / 2) (b / 2) (omega (arith, pow-suc 2 w)) (omega (arith, pow-suc 2 w))
        λ k below. h (suc k) (omega arith) in
    let lowest : a % 2 ≡ b % 2 = h 0 (omega arith) in omega arith

pub bit_or-lt : (w a b : ℕ) → a < 2 ^ w → b < 2 ^ w → bit_or a b < 2 ^ w
bit_or-lt zero a b p q =
    let a_zero : a ≡ 0 = omega arith in
    let b_zero : b ≡ 0 = omega arith in rw (a_zero, b_zero) (omega arith)
bit_or-lt (suc w) a b p q =
    let halves =
      bit_or-lt w (a / 2) (b / 2) (omega (arith, pow-suc 2 w)) (omega (arith, pow-suc 2 w)) in
    omega (arith, bit_or_step a b, pow-suc 2 w)

low_mask_half : (w : ℕ) → (2 ^ suc w - 1) / 2 ≡ 2 ^ w - 1
low_mask_half w = omega (arith, pow-suc 2 w, one-le-pow w 2 (omega arith))

-- `a & ((1 << w) - 1)`.
pub bit_and-low_mask : (w a : ℕ) → bit_and a (2 ^ w - 1) ≡ a % 2 ^ w
bit_and-low_mask zero a = omega (arith, bit_and-zero a)
bit_and-low_mask (suc w) a = omega (
  arith,
  bit_and_step a (2 ^ suc w - 1),
  ap (λ t. bit_and (a / 2) t) (low_mask_half w),
  bit_and-low_mask w (a / 2),
  mod-pow-suc a w,
  pow-suc 2 w,
  one-le-pow w 2 (omega arith),
)

-- `a & ~((1 << w) - 1)`, the mask cut to the digits of `m` above the `w` lowest.
pub bit_and-high_mask : (w a m : ℕ) → bit_and a (m * 2 ^ w) ≡ bit_and (a / 2 ^ w) m * 2 ^ w
bit_and-high_mask zero a m = omega (
  arith,
  ap (λ t. bit_and t m) {x = a / 2 ^ 0} {y = a} (omega (arith, div-one a)),
  ap (λ t. bit_and a t) {x = m * 2 ^ 0} {y = m} (omega arith),
)
bit_and-high_mask (suc w) a m =
    let half : m * 2 ^ suc w / 2 ≡ m * 2 ^ w = omega (arith, mul-pow m w) in
    let deeper : a / 2 / 2 ^ w ≡ a / 2 ^ suc w =
      div-div-eq-div-mul a 2 (2 ^ w)
      ∙ ap (λ t. a / t) {x = 2 * 2 ^ w} {y = 2 ^ suc w} (omega (arith, pow-suc 2 w)) in
    omega (
      arith,
      bit_and_step a (m * 2 ^ suc w),
      ap (λ t. bit_and (a / 2) t) half,
      bit_and-high_mask w (a / 2) m,
      ap (λ t. bit_and t m * 2 ^ w) deeper,
      mul-pow m w,
      mul-pow (bit_and (a / 2 ^ suc w) m) w,
    )

pub bit_or-zero : (x : ℕ) → bit_or x 0 ≡ x
bit_or-zero = halving (λ x. bit_or x 0 ≡ x) refl λ x rest. omega (arith, bit_or_step x 0, rest)

-- `x | b` for an even `x` and a single bit `b`.
pub bit_or-even : (x b : ℕ) → b ≤ 1 → bit_or (2 * x) b ≡ 2 * x + b
bit_or-even x b h =
    let half : 2 * x / 2 ≡ x = omega arith in
    let none_left : b / 2 ≡ 0 = omega arith in
    let rest : bit_or (2 * x / 2) (b / 2) ≡ x = rw (half, none_left) (bit_or-zero x) in
    omega (arith, bit_or_step (2 * x) b)

-- `x | y` for an `x` below the lowest digit that `y` may have.
pub bit_or-disjoint : (w x y : ℕ) → x < 2 ^ w → bit_or x (y * 2 ^ w) ≡ x + y * 2 ^ w
bit_or-disjoint zero x y h =
    let none_left : x ≡ 0 = omega arith in rw none_left (omega (arith, zero-bit_or (y * 2 ^ 0)))
bit_or-disjoint (suc w) x y h =
    let half : y * 2 ^ suc w / 2 ≡ y * 2 ^ w = omega (arith, mul-pow y w) in
    let rest = bit_or-disjoint w (x / 2) y (omega (arith, pow-suc 2 w)) in
    omega (arith, bit_or_step x (y * 2 ^ suc w), ap (λ t. bit_or (x / 2) t) half, rest, mul-pow y w)

-- The same with the operands exchanged.
pub bit_or-above : (w x y : ℕ) → x < 2 ^ w → bit_or (y * 2 ^ w) x ≡ y * 2 ^ w + x
bit_or-above zero x y h =
    let none_left : x ≡ 0 = omega arith in rw none_left (omega (arith, bit_or-zero (y * 2 ^ 0)))
bit_or-above (suc w) x y h =
    let half : y * 2 ^ suc w / 2 ≡ y * 2 ^ w = omega (arith, mul-pow y w) in
    let rest = bit_or-above w (x / 2) y (omega (arith, pow-suc 2 w)) in
    omega (arith, bit_or_step (y * 2 ^ suc w) x, ap (λ t. bit_or t (x / 2)) half, rest, mul-pow y w)

-- `a & (1 << w)`.
pub bit_and-pow : (w a : ℕ) → bit_and a (2 ^ w) ≡ a / 2 ^ w % 2 * 2 ^ w
bit_and-pow zero a = omega (arith, bit_and_one a)
bit_and-pow (suc w) a = omega (
  arith,
  bit_and_step a (2 ^ suc w),
  ap (λ t. bit_and (a / 2) t) {x = 2 ^ suc w / 2} {y = 2 ^ w} (omega (arith, pow-suc 2 w)),
  bit_and-pow w (a / 2),
  half-pow a w,
  mul-pow (a / 2 / 2 ^ w % 2) w,
  ap (λ t. t % 2 * 2 ^ suc w) (half-pow a w),
  pow-suc 2 w,
)

pub le-bit_or : (x y : ℕ) → (x ≤ bit_or x y) × (y ≤ bit_or x y)
le-bit_or =
    halving (λ x. (y : ℕ) → (x ≤ bit_or x y) × (y ≤ bit_or x y))
      (λ y. (omega arith, omega (arith, zero-bit_or y)))
      λ x rest y.
        let r = rest (y / 2) in
        (omega (arith, bit_or_step x y, r), omega (arith, bit_or_step x y, r))

-- Powers of two multiply by adding their exponents.
pub pow_sum : (k i : ℕ) → 2 ^ (k + i) ≡ 2 ^ k * 2 ^ i
pow_sum zero i = omega (arith, ap (λ t. 2 ^ t) {x = 0 + i} {y = i} (omega arith))
pow_sum (suc k) i =
    ap (λ t. 2 ^ t) {x = suc k + i} {y = suc (k + i)} (omega arith)
    ∙ pow-suc 2 (k + i)
    ∙ ap (λ t. t * 2) (pow_sum k i)
    ∙ mul_assoc (2 ^ k) (2 ^ i) 2
    ∙ ap (λ t. 2 ^ k * t) (mul_comm (2 ^ i) 2)
    ∙ sym (mul_assoc (2 ^ k) 2 (2 ^ i))
    ∙ ap (λ t. t * 2 ^ i) (sym (pow-suc 2 k))

pub pow-le : (d a : ℕ) → 2 ^ a ≤ 2 ^ (a + d)
pow-le zero a = omega (arith, ap (λ t. 2 ^ t) {x = a + 0} {y = a} (omega arith))
pow-le (suc d) a = omega (
  arith,
  pow-le d a,
  pow-suc 2 (a + d),
  ap (λ t. 2 ^ t) {x = a + suc d} {y = suc (a + d)} (omega arith),
)
