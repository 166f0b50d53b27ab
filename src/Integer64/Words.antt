-- ===== src/Integer64/Words.antt =====
-- The operations on two cells, as arithmetic on the 64-bit number that they hold.
use copy_space.Base.{ℕ, ◌+◌, ◌-◌, ◌*◌, ◌/◌, ◌%◌, ◌^◌, ◌<◌, ◌≤◌, ◌≡◌, ap, ◌∙◌, arith}
use copy_space.Base.{true, false, ltb, bit_and, bit_or, bit_or-even, bit_or-disjoint, bit_and-pow}
use copy_space.Integer64.{
  CcU64, cell, not32, flag, cc_u64_add, cc_u64_neg, cc_u64_sub, cc_u64_less, cc_u64_left,
  cc_u64_right,
}

pub record IsU64 (a : CcU64) : Type 0 where
  pub lo_cell : a.lo < 2 ^ 32
  pub hi_cell : a.hi < 2 ^ 32

abbrev pub value : CcU64 → ℕ
value a = a.lo + a.hi * 2 ^ 32

-- Two cells that hold the number `x`.
pub record Holds (x : ℕ) (a : CcU64) : Type 0 where
  pub cells : IsU64 a
  pub number : value a ≡ x

carry_of : (x y : ℕ) → x < 2 ^ 32 → y < 2 ^ 32 → flag (ltb (cell (x + y)) x) ≡ (x + y) / 2 ^ 32
carry_of x y h k = ground arith

pub add-Holds :
    (a b : CcU64) → IsU64 a → IsU64 b → Holds ((value a + value b) % 2 ^ 64) (cc_u64_add a b)
unfolding cc_u64_add
add-Holds a b u v =
    let carry = carry_of a.lo b.lo u.lo_cell v.lo_cell in
    record {
      cells = record { lo_cell = omega arith; hi_cell = omega arith };
      number = omega (arith, carry, u.lo_cell, v.lo_cell);
    }

pub neg-Holds : (a : CcU64) → IsU64 a → Holds ((2 ^ 64 - value a) % 2 ^ 64) (cc_u64_neg a)
unfolding cc_u64_neg
neg-Holds a u =
    let w =
      add-Holds (record { lo = not32 a.lo; hi = not32 a.hi }) (record { lo = 1; hi = 0 })
        (record { lo_cell = omega arith; hi_cell = omega arith })
        (record { lo_cell = omega arith; hi_cell = omega arith }) in
    record { cells = w.cells; number = omega (arith, w.number, u.lo_cell, u.hi_cell) }

pub sub-Holds :
    (a b : CcU64)
    → IsU64 a
    → IsU64 b
    → Holds ((value a + (2 ^ 64 - value b)) % 2 ^ 64) (cc_u64_sub a b)
unfolding cc_u64_sub
sub-Holds a b u v =
    let n = neg-Holds b v in
    let w = add-Holds a (cc_u64_neg b) u n.cells in
    record { cells = w.cells; number = omega (arith, w.number, n.number) }

pub less-value : (a b : CcU64) → IsU64 a → IsU64 b → cc_u64_less a b ≡ ltb (value a) (value b)
unfolding cc_u64_less
less-value a b u v = ground (arith, u.lo_cell, u.hi_cell, v.lo_cell, v.hi_cell)

pub left-Holds : (a : CcU64) → IsU64 a → Holds (2 * value a % 2 ^ 64) (cc_u64_left a)
unfolding cc_u64_left
left-Holds a u =
    let even : cell (a.hi * 2) ≡ 2 * (a.hi % 2 ^ 31) = omega arith in
    let top : a.lo / 2 ^ 31 ≤ 1 = omega (arith, u.lo_cell) in
    let hi : bit_or (cell (a.hi * 2)) (a.lo / 2 ^ 31) ≡ 2 * (a.hi % 2 ^ 31) + a.lo / 2 ^ 31 =
      ap (λ t. bit_or t (a.lo / 2 ^ 31)) even ∙ bit_or-even (a.hi % 2 ^ 31) (a.lo / 2 ^ 31) top in
    record {
      cells = record { lo_cell = omega arith; hi_cell = omega (arith, hi, top) };
      number = omega (arith, hi, u.lo_cell, u.hi_cell);
    }

-- The lower cell of a shift to the right.
right-lo :
    (a : CcU64) → IsU64 a → bit_or (a.lo / 2) (cell (a.hi * 2 ^ 31)) ≡ a.lo / 2 + a.hi % 2 * 2 ^ 31
right-lo a u =
    let moved : cell (a.hi * 2 ^ 31) ≡ a.hi % 2 * 2 ^ 31 = omega arith in
    ap (λ t. bit_or (a.lo / 2) t) moved
    ∙ bit_or-disjoint 31 (a.lo / 2) (a.hi % 2) (omega (arith, u.lo_cell))

-- The upper cell of a shift to the right that keeps the sign.
right-hi :
    (a : CcU64)
    → IsU64 a
    → bit_or (a.hi / 2) (bit_and a.hi 0x80000000) ≡ a.hi / 2 + a.hi / 2 ^ 31 % 2 * 2 ^ 31
right-hi a u =
    ap (λ t. bit_or (a.hi / 2) t) (bit_and-pow 31 a.hi)
    ∙ bit_or-disjoint 31 (a.hi / 2) (a.hi / 2 ^ 31 % 2) (omega (arith, u.hi_cell))

pub right-Holds : (a : CcU64) → IsU64 a → Holds (value a / 2) (cc_u64_right a false)
unfolding cc_u64_right
right-Holds a u = record {
  cells = record {
    lo_cell = omega (arith, right-lo a u, u.lo_cell);
    hi_cell = omega (arith, u.hi_cell);
  };
  number = omega (arith, right-lo a u, u.lo_cell);
}

-- With the sign: the top bit stays.
pub right_signed-Holds :
    (a : CcU64) → IsU64 a → Holds (value a / 2 + value a / 2 ^ 63 * 2 ^ 63) (cc_u64_right a true)
unfolding cc_u64_right
right_signed-Holds a u = record {
  cells = record {
    lo_cell = omega (arith, right-lo a u, u.lo_cell);
    hi_cell = omega (arith, right-hi a u, u.hi_cell);
  };
  number = omega (arith, right-lo a u, right-hi a u, u.lo_cell, u.hi_cell);
}
