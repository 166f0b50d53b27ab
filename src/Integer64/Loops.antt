-- ===== src/Integer64/Loops.antt =====
-- The loops of shifts and of the multiplication, which `cc_integer64_fold` runs on two cells.
use copy_space.Base.{ℕ, zero, suc, ◌+◌, ◌-◌, ◌*◌, ◌/◌, ◌%◌, ◌^◌, ◌<◌, ◌≡◌, sym, ap, ap₂, ◌∙◌, arith}
use copy_space.Base.{
  true, false, ltb, ◌==◌, if◌then◌else◌, bit_and, bit_and_one, half-pow, mul-pow, inl, inr,
  Bool-cases,
}
use native.Mathlib.Nat.{pow-suc, div-one, mul-one}
use copy_space.Integer64.{
  CcU64, cc_u64_add, cc_u64_left, cc_u64_right, shift_left, shift_right, multiply,
}
use copy_space.Integer64.Meaning.{signed_shift}
use copy_space.Integer64.Words.{
  IsU64, value, Holds, add-Holds, left-Holds, right-Holds, right_signed-Holds,
}

pub at_number : {x y : ℕ} {a : CcU64} → x ≡ y → Holds x a → Holds y a
at_number e h = record { cells = h.cells; number = h.number ∙ e }

-- Only the remainder of a factor matters to a sum taken modulo 2 ^ 64.
mod_factor : (r x y : ℕ) → (r + x % 2 ^ 64 * y) % 2 ^ 64 ≡ (r + x * y) % 2 ^ 64
mod_factor r x y = omega (arith, ap (λ t. t * y) split ∙ spread (x % 2 ^ 64) (2 ^ 64) (x / 2 ^ 64))
  where
    split : x ≡ x % 2 ^ 64 + 2 ^ 64 * (x / 2 ^ 64)
    split = omega arith

    spread : (p m q : ℕ) → (p + m * q) * y ≡ p * y + m * (q * y)
    spread p m q = grind arith

pub shift_left-Holds :
    (k : ℕ) (a : CcU64) → IsU64 a → Holds (value a * 2 ^ k % 2 ^ 64) (shift_left k a)
unfolding shift_left
shift_left-Holds zero a u = record { cells = u; number = omega (arith, u.lo_cell, u.hi_cell) }
shift_left-Holds (suc k) a u =
    let h = left-Holds a u in
    let same : value (cc_u64_left a) * 2 ^ k % 2 ^ 64 ≡ value a * 2 ^ suc k % 2 ^ 64 =
      ap (λ t. t * 2 ^ k % 2 ^ 64) h.number
      ∙ omega (
        arith,
        mod_factor 0 (2 * value a) (2 ^ k),
        mul-pow (value a) k,
        double (value a) (2 ^ k),
      ) in
    at_number same (shift_left-Holds k (cc_u64_left a) h.cells)
  where
    double : (x y : ℕ) → 2 * x * y ≡ 2 * (x * y)
    double x y = grind arith

pub shift_right-Holds :
    (k : ℕ) (a : CcU64) → IsU64 a → Holds (value a / 2 ^ k) (shift_right false k a)
unfolding shift_right
shift_right-Holds zero a u = record { cells = u; number = omega arith }
shift_right-Holds (suc k) a u =
    let h = right-Holds a u in
    at_number (ap (λ t. t / 2 ^ k) h.number ∙ sym (half-pow (value a) k))
      (shift_right-Holds k (cc_u64_right a false) h.cells)

signed_shift-suc :
    (x k : ℕ) → x < 2 ^ 64 → signed_shift (x / 2 + x / 2 ^ 63 * 2 ^ 63) k ≡ signed_shift x (suc k)
signed_shift-suc x k h = elim (Bool-cases (ltb x (2 ^ 63))) [
  | inl low ↦
      let e : x / 2 + x / 2 ^ 63 * 2 ^ 63 ≡ x / 2 = ground arith in
      let low' : ltb (x / 2) (2 ^ 63) ≡ true = ground arith in
      rw (e, low, low') (sym (half-pow x k))
  | inr high ↦
      let y = x / 2 + x / 2 ^ 63 * 2 ^ 63 in
      let high' : ltb y (2 ^ 63) ≡ false = ground arith in
      let e : 2 ^ 64 - 1 - y ≡ (2 ^ 64 - 1 - x) / 2 = ground arith in
      rw (high, high')
        (ap (λ t. 2 ^ 64 - 1 - t / 2 ^ k) e
          ∙ ap (λ t. 2 ^ 64 - 1 - t) (sym (half-pow (2 ^ 64 - 1 - x) k)))
]

pub shift_right_signed-Holds :
    (k : ℕ) (a : CcU64) → IsU64 a → Holds (signed_shift (value a) k) (shift_right true k a)
unfolding shift_right
shift_right_signed-Holds zero a u = record {
  cells = u;
  number = ground (arith, u.lo_cell, u.hi_cell, div-one (value a), div-one (2 ^ 64 - 1 - value a));
}
shift_right_signed-Holds (suc k) a u =
    let h = right_signed-Holds a u in
    at_number
      (ap (λ t. signed_shift t k) h.number
        ∙ signed_shift-suc (value a) k (omega (arith, u.lo_cell, u.hi_cell)))
      (shift_right_signed-Holds k (cc_u64_right a true) h.cells)

-- One digit of the multiplier.
product_step :
    (r x y : ℕ)
    → ((r + x * (y % 2)) % 2 ^ 64 + 2 * x % 2 ^ 64 * (y / 2)) % 2 ^ 64 ≡ (r + x * y) % 2 ^ 64
product_step r x y = mod_factor ((r + x * (y % 2)) % 2 ^ 64) (2 * x) (y / 2) ∙ omega (arith, halves)
  where
    split : y ≡ y % 2 + 2 * (y / 2)
    split = omega arith

    spread : (p q : ℕ) → x * (p + 2 * q) ≡ x * p + 2 * x * q
    spread p q = grind arith

    halves : x * y ≡ x * (y % 2) + 2 * x * (y / 2)
    halves = ap (λ t. x * t) split ∙ spread (y % 2) (y / 2)

added :
    (a b r : CcU64)
    → IsU64 a
    → IsU64 r
    → Holds
        ((value r + value a * (value b % 2)) % 2 ^ 64)
        (if bit_and b.lo 1 == 0 then r else cc_u64_add r a)
added a b r u w = elim (Bool-cases (bit_and b.lo 1 == 0)) [
  | inl even ↦
      let e : value b % 2 ≡ 0 = ground (arith, bit_and_one b.lo) in
      rw (even, e) (record { cells = w; number = omega (arith, w.lo_cell, w.hi_cell) })
  | inr odd ↦
      let e : value b % 2 ≡ 1 = ground (arith, bit_and_one b.lo) in
      rw (odd, e, mul-one) (add-Holds r a w u)
]

pub multiply-Holds :
    (rounds : ℕ) (a b r : CcU64)
    → IsU64 a
    → IsU64 b
    → IsU64 r
    → value b < 2 ^ rounds
    → Holds ((value r + value a * value b) % 2 ^ 64) (multiply rounds a b r)
unfolding multiply
multiply-Holds zero a b r u v w h =
    let none_left : value b ≡ 0 = omega arith in
    rw none_left (record { cells = w; number = omega (arith, w.lo_cell, w.hi_cell) })
multiply-Holds (suc rounds) a b r u v w h =
    let p = left-Holds a u in
    let q = right-Holds b v in
    let s = added a b r u w in
    let rest =
      multiply-Holds rounds (cc_u64_left a) (cc_u64_right b false)
        (if bit_and b.lo 1 == 0 then r else cc_u64_add r a) p.cells q.cells s.cells
        (omega (arith, q.number, pow-suc 2 rounds)) in
    at_number
      (ap₂ (λ t x. (t + x) % 2 ^ 64) s.number (ap₂ (λ x y. x * y) p.number q.number)
        ∙ product_step (value r) (value a) (value b))
      rest
