-- ===== src/Integer64/Bitwise.antt =====
-- The bitwise operations and the tests on two cells.
use copy_space.Base.{
  ℕ, ◌+◌, ◌-◌, ◌*◌, ◌/◌, ◌%◌, ◌^◌, ◌<◌, ◌≤◌, ◌≡◌, refl, sym, ap, ap₂, ◌∙◌, arith, min, max,
}
use copy_space.Base.{
  ltb, ◌==◌, bit_and, bit_or, bit_xor, bit_and_step, bit_or_step, bit_xor_step, differ-le-one,
  testbit, testbit_at, testbit_ext, le-bit_or, testbit-mod, testbit-shr, digitwise-lt,
  testbit-digitwise, bit_xor-low, bit_xor-high, inl, inr, Bool-cases,
}
use Prim.Native.Nat.{differ}
use copy_space.Integer64.{CcU64, flip_sign}
use copy_space.Integer64.Words.{IsU64, value, Holds}

-- A digit of the lower cell, and one of the upper.
low_digit : (a : CcU64) (k : ℕ) → IsU64 a → k < 32 → testbit (value a) k ≡ testbit a.lo k
low_digit a k u h =
    let cut : value a % 2 ^ 32 ≡ a.lo = omega (arith, u.lo_cell) in
    sym (testbit-mod (value a) 32 k h) ∙ ap (λ t. testbit t k) cut

high_digit : (a : CcU64) (k : ℕ) → IsU64 a → testbit (value a) (32 + k) ≡ testbit a.hi k
high_digit a k u =
    let cut : value a / 2 ^ 32 ≡ a.hi = omega (arith, u.lo_cell) in
    sym (testbit-shr (value a) 32 k) ∙ ap (λ t. testbit t k) cut

module _ (f g : ℕ → ℕ → ℕ) (law : (x y : ℕ) → f x y ≡ f (x / 2) (y / 2) * 2 + g (x % 2) (y % 2))
    (one_digit : (p q : ℕ) → p ≤ 1 → q ≤ 1 → g p q ≤ 1) (nothing : f 0 0 ≡ 0) where
  cellwise : CcU64 → CcU64 → CcU64
  cellwise a b = record { lo = f a.lo b.lo; hi = f a.hi b.hi }

  cellwise-IsU64 : (a b : CcU64) → IsU64 a → IsU64 b → IsU64 (cellwise a b)
  unfolding cellwise
  cellwise-IsU64 a b u v = record {
    lo_cell = digitwise-lt f g law one_digit nothing 32 a.lo b.lo u.lo_cell v.lo_cell;
    hi_cell = digitwise-lt f g law one_digit nothing 32 a.hi b.hi u.hi_cell v.hi_cell;
  }

  same_digit :
      (a b : CcU64) (k : ℕ)
      → IsU64 a
      → IsU64 b
      → testbit (value (cellwise a b)) k ≡ testbit (f (value a) (value b)) k
  unfolding cellwise
  same_digit a b k u v =
      let w = cellwise-IsU64 a b u v in
      let law_at = testbit-digitwise f g law one_digit nothing in
      elim (Bool-cases (ltb k 32)) [
        | inl low ↦
            let below : k < 32 = ground arith in
            low_digit (cellwise a b) k w below
            ∙ law_at a.lo b.lo k
            ∙ ap₂ g (sym (low_digit a k u below)) (sym (low_digit b k v below))
            ∙ sym (law_at (value a) (value b) k)
        | inr high ↦
            let j = k - 32 in
            let at : k ≡ 32 + j = ground arith in
            testbit_at (value (cellwise a b)) k (32 + j) at
            ∙ high_digit (cellwise a b) j w
            ∙ law_at a.hi b.hi j
            ∙ ap₂ g (sym (high_digit a j u)) (sym (high_digit b j v))
            ∙ sym (law_at (value a) (value b) (32 + j))
            ∙ testbit_at (f (value a) (value b)) (32 + j) k (sym at)
      ]

  pub cellwise-Holds :
      (a b : CcU64)
      → IsU64 a
      → IsU64 b
      → Holds (f (value a) (value b)) (record { lo = f a.lo b.lo; hi = f a.hi b.hi })
  unfolding cellwise
  cellwise-Holds a b u v =
      let w = cellwise-IsU64 a b u v in
      record {
        cells = w;
        number =
            testbit_ext 64 (value (cellwise a b)) (f (value a) (value b))
              (omega (arith, w.lo_cell, w.hi_cell))
              (digitwise-lt f g law one_digit nothing 64 (value a) (value b)
                (omega (arith, u.lo_cell, u.hi_cell)) (omega (arith, v.lo_cell, v.hi_cell)))
              λ k h. same_digit a b k u v;
      }

min-le-one : (p q : ℕ) → p ≤ 1 → q ≤ 1 → min p q ≤ 1
min-le-one p q h k = omega arith

max-le-one : (p q : ℕ) → p ≤ 1 → q ≤ 1 → max p q ≤ 1
max-le-one p q h k = omega arith

module _ (a b : CcU64) (u : IsU64 a) (v : IsU64 b) where
  pub and-Holds :
      Holds
        (bit_and (value a) (value b))
        (record { lo = bit_and a.lo b.lo; hi = bit_and a.hi b.hi })
  and-Holds = cellwise-Holds bit_and min bit_and_step min-le-one refl a b u v

  pub or-Holds :
      Holds (bit_or (value a) (value b)) (record { lo = bit_or a.lo b.lo; hi = bit_or a.hi b.hi })
  or-Holds = cellwise-Holds bit_or max bit_or_step max-le-one refl a b u v

  pub xor-Holds :
      Holds
        (bit_xor (value a) (value b))
        (record { lo = bit_xor a.lo b.lo; hi = bit_xor a.hi b.hi })
  xor-Holds = cellwise-Holds bit_xor differ bit_xor_step differ-le-one refl a b u v

-- Flipping the top digit moves a number by half the range.
flipped : (x : ℕ) → x < 2 ^ 32 → bit_xor x 0x80000000 ≡ (x + 2 ^ 31) % 2 ^ 32
flipped x h = elim (Bool-cases (ltb x (2 ^ 31))) [
  | inl low ↦ ground (arith, bit_xor-low 31 x (ground arith))
  | inr high ↦ ground (arith, bit_xor-high 31 x (ground arith) h)
]

pub flip_sign-Holds : (a : CcU64) → IsU64 a → Holds ((value a + 2 ^ 63) % 2 ^ 64) (flip_sign a)
flip_sign-Holds a u =
    let e = flipped a.hi u.hi_cell in
    record {
      cells = record { lo_cell = u.lo_cell; hi_cell = omega (arith, e) };
      number = omega (arith, e, u.lo_cell, u.hi_cell);
    }

pub no_digit : (x y : ℕ) → x < 2 ^ 32 → y < 2 ^ 32 → (bit_or x y == 0) ≡ (x + y * 2 ^ 32 == 0)
no_digit x y h k = elim (Bool-cases (bit_or x y == 0)) [
  | inl none_set ↦ let e : bit_or x y ≡ 0 = ground arith in ground (arith, le-bit_or x y)
  | inr some_set ↦ elim (Bool-cases (x + y * 2 ^ 32 == 0)) [
    | inl nothing ↦
        let e : x ≡ 0 = ground arith in
        let d : y ≡ 0 = ground arith in absurd (ground (arith, ap₂ bit_or e d))
    | inr something ↦ rw (some_set, something) refl
  ]
]
