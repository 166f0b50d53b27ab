-- ===== src/Integer64/Quotient.antt =====
-- The long division of `cc_integer64_fold` gives the quotient and the remainder.
use copy_space.Base.{
  ℕ, zero, suc, ◌+◌, ◌-◌, ◌*◌, ◌/◌, ◌%◌, ◌^◌, ◌<◌, ◌≤◌, ◌≡◌, ◌≢◌, refl, ap, ap₂, ◌∙◌, arith,
}
use copy_space.Base.{
  not, ltb, leb, ◌==◌, ◌||◌, bit_or, bit_or-even, testbit, testbit-le-one, inl, inr, Bool-cases,
}
use native.Mathlib.Nat.{pow-suc, div-one, mul-one, div-eq_of_lt-le, mod-eq-sub-div-mul}
use copy_space.Integer64.{
  CcU64, cell, cell_zero, cc_u64_sub, cc_u64_less, cc_u64_left, digit, shift_in, Division,
  divide_step, divide,
}
use copy_space.Integer64.Words.{IsU64, value, Holds, sub-Holds, less-value, left-Holds}
use copy_space.Integer64.Divide.{digit-testbit, prefix_step, with_digit-Holds}

shift_in-Holds :
    (a r : CcU64) (i : ℕ)
    → IsU64 a
    → IsU64 r
    → Holds ((2 * value r + testbit (value a) i) % 2 ^ 64) (shift_in a i r)
unfolding shift_in cc_u64_left
shift_in-Holds a r i u v =
    let h = left-Holds r v in
    let one_digit = testbit-le-one (value a) i in
    let even : cell (r.lo * 2) ≡ 2 * (r.lo % 2 ^ 31) = omega arith in
    let set : bit_or (cell (r.lo * 2)) (digit a i) ≡ 2 * (r.lo % 2 ^ 31) + testbit (value a) i =
      ap₂ bit_or even (digit-testbit a i u)
      ∙ bit_or-even (r.lo % 2 ^ 31) (testbit (value a) i) one_digit in
    record {
      cells = record { lo_cell = omega (arith, set, one_digit); hi_cell = h.cells.hi_cell };
      number = omega (arith, set, one_digit, h.number);
    }

-- After the digits from `left` on: `so_far` is the quotient of these digits and `r` the remainder.
record Partial (x b left : ℕ) (d : Division) : Type 0 where
  so_far : ℕ
  q_cells : IsU64 d.q
  r_cells : IsU64 d.r
  quotient : value d.q ≡ so_far * 2 ^ left
  remainder : x / 2 ^ left ≡ so_far * b + value d.r
  small : value d.r < b

-- The test of a round: the divisor goes once more into the doubled remainder.
goes_in :
    (a b : CcU64) (i : ℕ) (r : CcU64)
    → IsU64 a
    → IsU64 b
    → IsU64 r
    → (not (r.hi / 2 ^ 31 == 0) || not (cc_u64_less (shift_in a i r) b))
      ≡ leb (value b) (2 * value r + testbit (value a) i)
goes_in a b i r u v w =
    let h = shift_in-Holds a r i u w in
    ap (λ t. not (r.hi / 2 ^ 31 == 0) || not t) (less-value (shift_in a i r) b h.cells v)
    ∙ compared (value (shift_in a i r)) h.number
  where
    compared :
        (y : ℕ)
        → y ≡ (2 * value r + testbit (value a) i) % 2 ^ 64
        → (not (r.hi / 2 ^ 31 == 0) || not (ltb y (value b)))
          ≡ leb (value b) (2 * value r + testbit (value a) i)
    compared y e =
        ground (arith, testbit-le-one (value a) i, v.lo_cell, v.hi_cell, w.lo_cell, w.hi_cell)

double_product : (y b : ℕ) → 2 * y * b ≡ 2 * (y * b)
double_product y b = grind arith

odd_product : (y b : ℕ) → (2 * y + 1) * b ≡ 2 * (y * b) + b
odd_product y b = grind arith

divide_step-Partial :
    (a b : CcU64) (i : ℕ) (d : Division)
    → IsU64 a
    → IsU64 b
    → i < 64
    → Partial (value a) (value b) (suc i) d
    → Partial (value a) (value b) i (divide_step a b i d)
unfolding divide_step
divide_step-Partial a b i d u v h p =
    let s = shift_in-Holds a d.r i u p.r_cells in
    let next = prefix_step (value a) i in
    let t = 2 * value d.r + testbit (value a) i in
    let one_digit = testbit-le-one (value a) i in
    let below : t < 2 * value b = omega (arith, p.small) in
    let test = goes_in a b i d.r u v p.r_cells in
    elim (Bool-cases (leb (value b) t)) [
      | inl enough ↦
          let q = with_digit-Holds d.q i p.so_far p.q_cells h p.quotient in
          let r = sub-Holds (shift_in a i d.r) b s.cells v in
          let rest : value (cc_u64_sub (shift_in a i d.r) b) ≡ t - value b =
            ground (arith, r.number, s.number, v.lo_cell, v.hi_cell) in
          let fits : value b ≤ t = ground arith in
          rw (test, enough)
            (record {
              so_far = 2 * p.so_far + 1;
              q_cells = q.cells;
              r_cells = r.cells;
              quotient = omega (
                arith,
                q.number,
                p.quotient,
                odd_product p.so_far (2 ^ i),
                ap (λ k. p.so_far * k) (pow-suc 2 i),
                twice p.so_far (2 ^ i),
              );
              remainder = omega (arith, next, p.remainder, rest, odd_product p.so_far (value b));
              small = omega (arith, rest);
            })
      | inr less ↦
          let fits : t < value b = ground arith in
          let rest : value (shift_in a i d.r) ≡ t = omega (arith, s.number, v.lo_cell, v.hi_cell) in
          rw (test, less)
            (record {
              so_far = 2 * p.so_far;
              q_cells = p.q_cells;
              r_cells = s.cells;
              quotient = omega (
                arith,
                p.quotient,
                double_product p.so_far (2 ^ i),
                ap (λ k. p.so_far * k) (pow-suc 2 i),
                twice p.so_far (2 ^ i),
              );
              remainder = omega (arith, next, p.remainder, rest, double_product p.so_far (value b));
              small = omega (arith, rest);
            })
    ]
  where
    twice : (y z : ℕ) → y * (z * 2) ≡ 2 * (y * z)
    twice y z = grind arith

divide-Partial :
    (a b : CcU64) (left : ℕ) (d : Division)
    → IsU64 a
    → IsU64 b
    → left ≤ 64
    → Partial (value a) (value b) left d
    → Partial (value a) (value b) 0 (divide a b left d)
unfolding divide
divide-Partial a b zero d u v h p = p
divide-Partial a b (suc i) d u v h p =
    divide-Partial a b i (divide_step a b i d) u v (omega arith)
      (divide_step-Partial a b i d u v (omega arith) p)

pub zero-IsU64 : IsU64 cell_zero
zero-IsU64 = record { lo_cell = omega arith; hi_cell = omega arith }

-- The quotient and the remainder, from nothing.
pub record Divides (a b : CcU64) (d : Division) : Type 0 where
  pub quotient : Holds (value a / value b) d.q
  pub remainder : Holds (value a % value b) d.r

pub divide-Divides :
    (a b : CcU64)
    → IsU64 a
    → IsU64 b
    → value b ≢ 0
    → Divides a b (divide a b 64 (record { q = cell_zero; r = cell_zero }))
divide-Divides a b u v nonzero =
    let d = divide a b 64 (record { q = cell_zero; r = cell_zero }) in
    let p =
      divide-Partial a b 64 (record { q = cell_zero; r = cell_zero }) u v (omega arith)
        (record {
          so_far = 0;
          q_cells = zero-IsU64;
          r_cells = zero-IsU64;
          quotient = refl;
          remainder = omega (arith, u.lo_cell, u.hi_cell);
          small = omega arith;
        }) in
    let whole : value a ≡ p.so_far * value b + value d.r =
      omega (arith, p.remainder, div-one (value a)) in
    let y : value a / value b ≡ p.so_far =
      div-eq_of_lt-le (value b) (omega arith)
        (omega (arith, next_product p.so_far (value b), p.small)) in
    record {
      quotient = record {
        cells = p.q_cells;
        number = omega (arith, p.quotient, mul-one p.so_far, y);
      };
      remainder = record {
        cells = p.r_cells;
        number = omega (arith, mod-eq-sub-div-mul (value a) (value b), ap (λ t. t * value b) y);
      };
    }
  where
    next_product : (x z : ℕ) → (x + 1) * z ≡ x * z + z
    next_product x z = grind arith
