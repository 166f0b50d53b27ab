-- ===== src/Integer64/Fold.antt =====
-- `cc_integer64_fold` computes what its operations mean.
use copy_space.Base.{
  ℕ, ◌+◌, ◌-◌, ◌*◌, ◌/◌, ◌%◌, ◌^◌, ◌<◌, ◌≡◌, ◌≢◌, refl, sym, ap, ap₂, ◌∙◌, arith, Option, none,
  some,
}
use copy_space.Base.{
  Bool, true, false, not, ltb, leb, ◌==◌, ◌&&◌, ◌||◌, if◌then◌else◌, inl, inr, Bool-cases,
}
use copy_space.Integer64.{
  CcU64, cell_zero, flag, flip_sign, not32, cc_u64_less, shift_left, shift_right, multiply,
  negate_if, sign_of, overflows, divide, fold_division, fold_shift, cc_integer64_fold,
}
use copy_space.Integer64.Words.{IsU64, value, Holds, add-Holds, sub-Holds, neg-Holds, less-value}
use copy_space.Integer64.Loops.{
  at_number, shift_left-Holds, shift_right-Holds, shift_right_signed-Holds, multiply-Holds,
}
use copy_space.Integer64.Bitwise.{and-Holds, or-Holds, xor-Holds, flip_sign-Holds, no_digit}
use copy_space.Integer64.Quotient.{zero-IsU64, divide-Divides}
use copy_space.Integer64.Meaning.{
  wrap, negative, opposite, magnitude, signed_shift, shift_meaning, quotient_meaning,
  remainder_meaning, division_meaning, meaning,
}

-- Both are left alone, or the cells hold the number.
pub data Agrees : Option ℕ → Option CcU64 → Type 0 where
  left_alone : Agrees none none
  computed : {x : ℕ} {a : CcU64} → Holds x a → Agrees (some x) (some a)

-- Two tests of the same condition.
if-Agrees :
    (p : Bool) {x y : Option ℕ} {a b : Option CcU64}
    → Agrees x a
    → Agrees y b
    → Agrees (if p then x else y) (if p then a else b)
if-Agrees true h k = h
if-Agrees false h k = k

same_test :
    {p q : Bool} (x y : Option ℕ) (c : Option CcU64)
    → p ≡ q
    → Agrees (if q then x else y) c
    → Agrees (if p then x else y) c
same_test x y c e h = rw e h

flag-Holds : (p q : Bool) → p ≡ q → Holds (flag q) (record { lo = flag p; hi = 0 })
flag-Holds true q e =
    rw (← e)
      (record { cells = record { lo_cell = omega arith; hi_cell = omega arith }; number = refl })
flag-Holds false q e =
    rw (← e)
      (record { cells = record { lo_cell = omega arith; hi_cell = omega arith }; number = refl })

not-Holds :
    (a : CcU64)
    → IsU64 a
    → Holds (2 ^ 64 - 1 - value a) (record { lo = not32 a.lo; hi = not32 a.hi })
not-Holds a u = record {
  cells = record { lo_cell = omega arith; hi_cell = omega arith };
  number = omega (arith, u.lo_cell, u.hi_cell);
}

count_of : (b : CcU64) → IsU64 b → (not (b.hi == 0) || leb 64 b.lo) ≡ leb 64 (value b)
count_of b v = ground (arith, v.lo_cell)

-- A shift by a count below 64; others are left alone.
shift-Agrees :
    (x : ℕ) (a : CcU64 → CcU64) (b : CcU64)
    → IsU64 b
    → (value b ≡ b.lo → Holds x (a b))
    → Agrees (shift_meaning x (value b)) (fold_shift a b)
unfolding fold_shift
shift-Agrees x a b v h = elim (Bool-cases (leb 64 (value b))) [
  | inl refused ↦ rw (count_of b v, refused) left_alone
  | inr shifted ↦
      let same : value b ≡ b.lo = ground (arith, v.lo_cell) in
      rw (count_of b v, shifted) (computed (h same))
]

sign_of-negative :
    (signed : Bool) (a : CcU64) → IsU64 a → sign_of signed a ≡ (signed && negative (value a))
sign_of-negative false a u = refl
sign_of-negative true a u = ground (arith, u.lo_cell, u.hi_cell)

negate_if-Holds :
    (s t : Bool) (x : ℕ) (a : CcU64) → s ≡ t → Holds x a → Holds (magnitude t x) (negate_if s a)
negate_if-Holds true t x a e h = rw (← e) (at_number (ap opposite h.number) (neg-Holds a h.cells))
negate_if-Holds false t x a e h = rw (← e) h

overflows-value :
    (a b : CcU64) → IsU64 a → IsU64 b → overflows a b ≡ (value a == 2 ^ 63 && value b == 2 ^ 64 - 1)
unfolding overflows
overflows-value a b u v = ground (arith, u.lo_cell, u.hi_cell, v.lo_cell, v.hi_cell)

-- The absolute value of a number that is not zero is not zero.
magnitude-nonzero : (s : Bool) (x : ℕ) → x ≢ 0 → x < 2 ^ 64 → magnitude s x ≢ 0
magnitude-nonzero true x h k = omega arith
magnitude-nonzero false x h k = h

module _ (a b : CcU64) (u : IsU64 a) (v : IsU64 b) where
  divided :
      (s s' t t' : Bool)
      → s ≡ s'
      → t ≡ t'
      → value b ≢ 0
      → let d =
          divide (negate_if s a) (negate_if t b) 64 (record { q = cell_zero; r = cell_zero }) in
        Holds (quotient_meaning s' t' (value a) (value b)) (negate_if (not (flag s == flag t)) d.q)
        × Holds (remainder_meaning s' t' (value a) (value b)) (negate_if s d.r)
  divided s s' t t' e e' nonzero =
      let x = negate_if-Holds s s' (value a) a e (record { cells = u; number = refl }) in
      let y = negate_if-Holds t t' (value b) b e' (record { cells = v; number = refl }) in
      let some_divisor : value (negate_if t b) ≢ 0 = λ h.
        magnitude-nonzero t' (value b) nonzero (omega (arith, v.lo_cell, v.hi_cell))
          (sym y.number ∙ h) in
      let d = divide-Divides (negate_if s a) (negate_if t b) x.cells y.cells some_divisor in
      (
        negate_if-Holds (not (flag s == flag t)) (not (flag s' == flag t')) _ _
            (ap₂ (λ p q. not (flag p == flag q)) e e')
            (at_number (ap₂ (λ p q. p / q) x.number y.number) d.quotient),
        negate_if-Holds s s' _ _ e (at_number (ap₂ (λ p q. p % q) x.number y.number) d.remainder),
      )

  chosen :
      (quotient : Bool) (x y : ℕ) (p q : CcU64)
      → Holds x p
      → Holds y q
      → Agrees (some (if quotient then x else y)) (some (if quotient then p else q))
  chosen true x y p q h k = computed h
  chosen false x y p q h k = computed k

  division-Agrees :
      (signed quotient : Bool)
      → Agrees
          (division_meaning signed quotient (value a) (value b))
          (fold_division signed quotient a b)
  unfolding fold_division
  division-Agrees signed quotient = elim (Bool-cases (value b == 0)) [
    | inl by_zero ↦ rw (no_digit b.lo b.hi v.lo_cell v.hi_cell, by_zero) left_alone
    | inr nonzero ↦
        let d =
          divided (sign_of signed a) (signed && negative (value a)) (sign_of signed b)
            (signed && negative (value b)) (sign_of-negative signed a u)
            (sign_of-negative signed b v) (ground arith) in
        rw (no_digit b.lo b.hi v.lo_cell v.hi_cell, nonzero, overflows-value a b u v)
          (if-Agrees (signed && (value a == 2 ^ 63 && value b == 2 ^ 64 - 1)) left_alone
            (chosen quotient _ _ _ _ d.0 d.1))
  ]

  less_signed :
      cc_u64_less (flip_sign a) (flip_sign b)
      ≡ ltb (wrap (value a + 2 ^ 63)) (wrap (value b + 2 ^ 63))
  less_signed =
      let x = flip_sign-Holds a u in
      let y = flip_sign-Holds b v in
      less-value (flip_sign a) (flip_sign b) x.cells y.cells ∙ ap₂ ltb x.number y.number

  product-Holds : Holds (wrap (value a * value b)) (multiply 64 a b cell_zero)
  product-Holds =
      at_number (omega arith)
        (multiply-Holds 64 a b cell_zero u v zero-IsU64 (omega (arith, v.lo_cell, v.hi_cell)))

  equal_cells : (a.lo == b.lo && a.hi == b.hi) ≡ (value a == value b)
  equal_cells = ground (arith, u.lo_cell, v.lo_cell)

-- For every operation code and all operands of two cells, the result of `cc_integer64_fold` holds
-- the number that the operation means on 64-bit integers, signed ones in two's complement: sums,
-- products, comparisons, bitwise operations, shifts, quotients rounded towards zero and remainders.
-- The fold is refused for exactly the unknown codes, counts of 64 or more, division by zero and the
-- least integer divided by -1.
pub cc_integer64_fold-Agrees :
    (op : ℕ) (a b : CcU64)
    → IsU64 a
    → IsU64 b
    → Agrees (meaning op (value a) (value b)) (cc_integer64_fold op a b)
unfolding cc_integer64_fold meaning
cc_integer64_fold-Agrees op a b u v = if-Agrees (op == 0) (computed (add-Holds a b u v)) (
    if-Agrees (op == 1) (computed (sub-Holds a b u v)) (
      if-Agrees (op == 2) (computed (flag-Holds _ _ (equal_cells a b u v))) (
        if-Agrees (op == 3) (computed (flag-Holds _ _ (less_signed a b u v))) (
          if-Agrees (op == 4) (computed (flag-Holds _ _ (less-value a b u v))) (
            if-Agrees (op == 5) (computed (and-Holds a b u v)) (
              if-Agrees (op == 6) (computed (or-Holds a b u v)) (
                if-Agrees (op == 7) (computed (xor-Holds a b u v)) (
                  if-Agrees (op == 8) (computed (not-Holds a u)) (
                    if-Agrees (op == 9)
                      (shift-Agrees _ (λ s. shift_left s.lo a) b v
                        λ e.
                          at_number (ap (λ k. wrap (value a * 2 ^ k)) (sym e))
                            (shift_left-Holds b.lo a u))
                      (if-Agrees (op == 10)
                        (shift-Agrees _ (λ s. shift_right false s.lo a) b v
                          λ e.
                            at_number (ap (λ k. value a / 2 ^ k) (sym e))
                              (shift_right-Holds b.lo a u))
                        (if-Agrees (op == 11)
                          (shift-Agrees _ (λ s. shift_right true s.lo a) b v
                            λ e.
                              at_number (ap (λ k. signed_shift (value a) k) (sym e))
                                (shift_right_signed-Holds b.lo a u))
                          (if-Agrees (op == 12) (computed (product-Holds a b u v)) (
                            if-Agrees (op == 13) (division-Agrees a b u v true true) (
                              if-Agrees (op == 14) (division-Agrees a b u v false true) (
                                if-Agrees (op == 15) (division-Agrees a b u v true false) (
                                  if-Agrees (op == 16) (division-Agrees a b u v false false) (
                                    if-Agrees (op == 17)
                                      (computed (
                                        flag-Holds _ _
                                          (ap not (no_digit a.lo a.hi u.lo_cell u.hi_cell))))
                                      left_alone)))))))))))))))))
