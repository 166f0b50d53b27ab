-- ===== src/Integer64/Divide.antt =====
-- The division of `cc_integer64_fold`, one binary digit of the quotient at a time.
use copy_space.Base.{
  pow_sum, ℕ, suc, ◌+◌, ◌-◌, ◌*◌, ◌/◌, ◌%◌, ◌^◌, ◌<◌, ◌≤◌, ◌≡◌, sym, ap, ap₂, ◌∙◌, arith,
}
use copy_space.Base.{
  ltb, bit_or, bit_and_one-shr, bit_or-above, testbit, testbit_at, testbit-mod, testbit-shr, inl,
  inr, Bool-cases,
}
use native.Mathlib.Nat.{
  pow-suc, one-le-pow, mul-le-mul_right, mul-sub, mul_comm, div-div-eq-div-mul,
}
use copy_space.Integer64.{CcU64, cell, digit, with_digit}
use copy_space.Integer64.Words.{IsU64, value, Holds}

pub digit-testbit : (a : CcU64) (i : ℕ) → IsU64 a → digit a i ≡ testbit (value a) i
unfolding digit
digit-testbit a i u = elim (Bool-cases (ltb i 32)) [
  | inl low ↦
      let cut : value a % 2 ^ 32 ≡ a.lo = omega (arith, u.lo_cell) in
      rw low (
        bit_and_one-shr a.lo i
        ∙ ap (λ t. testbit t i) (sym cut)
        ∙ testbit-mod (value a) 32 i (ground arith))
  | inr high ↦
      let above : 32 ≤ i = ground arith in
      let cut : value a / 2 ^ 32 ≡ a.hi = omega (arith, u.lo_cell) in
      rw high (
        bit_and_one-shr a.hi (i - 32)
        ∙ ap (λ t. testbit t (i - 32)) (sym cut)
        ∙ testbit-shr (value a) 32 (i - 32)
        ∙ testbit_at (value a) (32 + (i - 32)) i (omega arith))
]

-- The digits from `i` on are those from `i + 1` on and digit `i`.
pub prefix_step : (x i : ℕ) → x / 2 ^ i ≡ 2 * (x / 2 ^ suc i) + testbit x i
prefix_step x i =
    let half : x / 2 ^ suc i ≡ x / 2 ^ i / 2 =
      ap (λ t. x / t) (pow-suc 2 i) ∙ sym (div-div-eq-div-mul x (2 ^ i) 2) in
    let last : x / 2 ^ i % 2 ≡ testbit x i =
      testbit-shr x i 0 ∙ testbit_at x (i + 0) i (omega arith) in
    omega (arith, half, last)

pow_split : (i w : ℕ) → i ≤ w → 2 ^ w ≡ 2 ^ (w - i) * 2 ^ i
pow_split i w h = ap (λ t. 2 ^ t) {x = w} {y = w - i + i} (omega arith) ∙ pow_sum (w - i) i

sub_product : (x y z : ℕ) → (x - y) * z ≡ x * z - y * z
sub_product x y z =
    mul_comm (x - y) z ∙ mul-sub z x y ∙ ap₂ (λ s t. s - t) (mul_comm z x) (mul_comm z y)

-- A cell with no digit below `suc i` takes digit `i`.
cell_digit :
    (c i z : ℕ)
    → i < 32
    → c < 2 ^ 32
    → c ≡ z * 2 ^ suc i
    → (bit_or c (cell (2 ^ i)) ≡ c + 2 ^ i) × (c + 2 ^ i < 2 ^ 32)
cell_digit c i z h k e =
    let room = pow_split (suc i) 32 h in
    let fits : z < 2 ^ (32 - suc i) = elim (Bool-cases (ltb z (2 ^ (32 - suc i)))) [
      | inl fitting ↦ ground arith
      | inr over ↦
          let reach = mul-le-mul_right {m = 2 ^ (32 - suc i)} {n = z} (2 ^ suc i) (ground arith) in
          absurd (omega arith)
    ] in
    let most = mul-le-mul_right {m = z + 1} {n = 2 ^ (32 - suc i)} (2 ^ suc i) (omega arith) in
    let spread : (z + 1) * 2 ^ suc i ≡ z * 2 ^ suc i + 2 ^ suc i = spread_one z (2 ^ suc i) in
    let positive = one-le-pow i 2 (omega arith) in
    let below : 2 ^ i < 2 ^ suc i = omega (arith, pow-suc 2 i) in
    let same : cell (2 ^ i) ≡ 2 ^ i = omega (arith, pow-suc 2 i) in
    (
      ap₂ bit_or e same ∙ bit_or-above (suc i) (2 ^ i) z below ∙ ap (λ t. t + 2 ^ i) (sym e),
      omega (arith, pow-suc 2 i),
    )
  where
    spread_one : (x y : ℕ) → (x + 1) * y ≡ x * y + y
    spread_one x y = grind arith

-- The quotient so far has no digit below `suc i`; digit `i` is set.
pub with_digit-Holds :
    (q : CcU64) (i y : ℕ)
    → IsU64 q
    → i < 64
    → value q ≡ y * 2 ^ suc i
    → Holds (value q + 2 ^ i) (with_digit q i)
unfolding with_digit
with_digit-Holds q i y u h e = elim (Bool-cases (ltb i 32)) [
  | inl low ↦
      let room = pow_split (suc i) 32 (ground arith) in
      let m = 2 ^ (32 - suc i) in
      let lo : q.lo ≡ (y - q.hi * m) * 2 ^ suc i = omega (
        arith,
        sub_product y (q.hi * m) (2 ^ suc i),
        spread q.hi m (2 ^ suc i),
        ap (λ t. q.hi * t) room,
      ) in
      let (set, fits) = cell_digit q.lo i (y - q.hi * m) (ground arith) u.lo_cell lo in
      rw low (record {
        cells = record { lo_cell = omega (arith, set); hi_cell = u.hi_cell };
        number = omega (arith, set);
      })
  | inr high ↦
      let above : 32 ≤ i = ground arith in
      let room = pow_split 32 (suc i) (omega arith) in
      let z = y * 2 ^ (suc i - 32) in
      let whole : value q ≡ z * 2 ^ 32 =
        omega (arith, ap (λ t. y * t) room, spread y (2 ^ (suc i - 32)) (2 ^ 32)) in
      let shift : suc i - 32 ≡ suc (i - 32) = omega arith in
      let hi : q.hi ≡ y * 2 ^ suc (i - 32) = omega (arith, ap (λ t. y * 2 ^ t) shift, u.lo_cell) in
      let (set, fits) = cell_digit q.hi (i - 32) y (omega arith) u.hi_cell hi in
      let top = pow_split 32 i above in
      rw high (record {
        cells = record { lo_cell = u.lo_cell; hi_cell = omega (arith, set) };
        number = omega (arith, set, top);
      })
]
  where
    spread : (x s t : ℕ) → x * (s * t) ≡ x * s * t
    spread x s t = grind arith
