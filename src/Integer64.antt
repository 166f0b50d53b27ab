-- ===== src/Integer64.antt =====
-- runtime/copy_c/integer64_fold.h: 64-bit constants folded on 32-bit cells. A cell is a number
-- below 2 ^ 32; `<<` and `+` on cells are taken modulo 2 ^ 32.
pub mod Words
pub mod Loops
mod Divide
pub mod Bitwise
pub mod Meaning
pub mod Fold
mod Tests
pub mod Quotient
use copy_space.Base.{ℕ, zero, suc, ◌+◌, ◌-◌, ◌*◌, ◌/◌, ◌%◌, ◌^◌, Option, none, some}
use copy_space.Base.{
  bit_xor, Bool, true, false, not, ◌&&◌, ◌||◌, ltb, leb, ◌==◌, if◌then◌else◌, bit_and, bit_or,
}

pub record CcU64 : Type 0 where
  pub lo : ℕ
  pub hi : ℕ

abbrev pub cell : ℕ → ℕ
cell x = x % 2 ^ 32

-- `~x` of a cell.
abbrev pub not32 : ℕ → ℕ
not32 x = 2 ^ 32 - 1 - x

-- The cell of a C truth value.
abbrev pub flag : Bool → ℕ
flag b = if b then 1 else 0

abbrev pub cell_zero : CcU64
cell_zero = record { lo = 0; hi = 0 }

pub cc_u64_add : CcU64 → CcU64 → CcU64
cc_u64_add a b =
    let lo = cell (a.lo + b.lo) in
    record { lo = lo; hi = cell (cell (a.hi + b.hi) + flag (ltb lo a.lo)) }

pub cc_u64_neg : CcU64 → CcU64
cc_u64_neg a = cc_u64_add (record { lo = not32 a.lo; hi = not32 a.hi }) (record { lo = 1; hi = 0 })

pub cc_u64_sub : CcU64 → CcU64 → CcU64
cc_u64_sub a b = cc_u64_add a (cc_u64_neg b)

pub cc_u64_less : CcU64 → CcU64 → Bool
cc_u64_less a b = ltb a.hi b.hi || (a.hi == b.hi && ltb a.lo b.lo)

pub cc_u64_left : CcU64 → CcU64
cc_u64_left a = record { lo = cell (a.lo * 2); hi = bit_or (cell (a.hi * 2)) (a.lo / 2 ^ 31) }

pub cc_u64_right : CcU64 → Bool → CcU64
cc_u64_right a sign = record {
  lo = bit_or (a.lo / 2) (cell (a.hi * 2 ^ 31));
  hi = if sign then bit_or (a.hi / 2) (bit_and a.hi 0x80000000) else a.hi / 2;
}

-- `for (i = 0; i < b.lo; ++i) r = op == 9 ? left(r) : right(r, op == 11)`.
pub shift_left : ℕ → CcU64 → CcU64
shift_left zero r = r
shift_left (suc k) r = shift_left k (cc_u64_left r)

pub shift_right : Bool → ℕ → CcU64 → CcU64
shift_right sign zero r = r
shift_right sign (suc k) r = shift_right sign k (cc_u64_right r sign)

-- The loop of case 12, with `rounds` to go.
pub multiply : ℕ → CcU64 → CcU64 → CcU64 → CcU64
multiply zero a b r = r
multiply (suc rounds) a b r =
    multiply rounds (cc_u64_left a) (cc_u64_right b false)
      (if bit_and b.lo 1 == 0 then r else cc_u64_add r a)

-- `(i < 32 ? a.lo >> i : a.hi >> (i - 32)) & 1`.
pub digit : CcU64 → ℕ → ℕ
digit a i = bit_and (if ltb i 32 then a.lo / 2 ^ i else a.hi / 2 ^ (i - 32)) 1

-- `if (i < 32) q.lo |= 1 << i; else q.hi |= 1 << (i - 32);`.
pub with_digit : CcU64 → ℕ → CcU64
with_digit q i =
    if ltb i 32
    then record q { lo = bit_or q.lo (cell (2 ^ i)) }
    else record q { hi = bit_or q.hi (cell (2 ^ (i - 32))) }

-- The remainder so far, doubled, with digit `i` of `a` below it.
pub shift_in : CcU64 → ℕ → CcU64 → CcU64
shift_in a i r = let r' = cc_u64_left r in record r' { lo = bit_or r'.lo (digit a i) }

pub record Division : Type 0 where
  pub q : CcU64
  pub r : CcU64

pub divide_step : CcU64 → CcU64 → ℕ → Division → Division
divide_step a b i d =
    let r' = shift_in a i d.r in
    if not (d.r.hi / 2 ^ 31 == 0) || not (cc_u64_less r' b)
    then record { q = with_digit d.q i; r = cc_u64_sub r' b }
    else record { q = d.q; r = r' }

-- `for (i = 63; i >= 0; --i)`, at index `left - 1`.
pub divide : CcU64 → CcU64 → ℕ → Division → Division
divide a b zero d = d
divide a b (suc i) d = divide a b i (divide_step a b i d)

abbrev pub negate_if : Bool → CcU64 → CcU64
negate_if b a = if b then cc_u64_neg a else a

-- The sign of a cell pair that a signed operation reads.
abbrev pub sign_of : Bool → CcU64 → Bool
sign_of signed a = signed && not (a.hi / 2 ^ 31 == 0)

-- The quotient that no 64-bit integer holds: the least integer divided by -1.
pub overflows : CcU64 → CcU64 → Bool
overflows a b = a.hi == 0x80000000 && a.lo == 0 && b.hi == 0xffffffff && b.lo == 0xffffffff

-- Cases 13 to 16.
pub fold_division : Bool → Bool → CcU64 → CcU64 → Option CcU64
fold_division signed quotient a b =
    if bit_or b.lo b.hi == 0
    then none
    else if signed && overflows a b
    then none
    else (let sign_a = sign_of signed a in
        let sign_b = sign_of signed b in
        let d =
          divide (negate_if sign_a a) (negate_if sign_b b) 64
            (record { q = cell_zero; r = cell_zero }) in
        some (
          if quotient
          then negate_if (not (flag sign_a == flag sign_b)) d.q
          else negate_if sign_a d.r))

-- `a.hi ^= 0x80000000`.
abbrev pub flip_sign : CcU64 → CcU64
flip_sign a = record a { hi = bit_xor a.hi 0x80000000 }

-- Cases 9 to 11: a count of 64 or more is not folded.
pub fold_shift : (CcU64 → CcU64) → CcU64 → Option CcU64
fold_shift shift b = if not (b.hi == 0) || leb 64 b.lo then none else some (shift b)

-- The switch of `cc_integer64_fold`; `none` is the result 0, for an operation that is left alone.
pub cc_integer64_fold : ℕ → CcU64 → CcU64 → Option CcU64
cc_integer64_fold op a b =
    if op == 0
    then some (cc_u64_add a b)
    else if op == 1
    then some (cc_u64_sub a b)
    else if op == 2
    then some (record { lo = flag (a.lo == b.lo && a.hi == b.hi); hi = 0 })
    else if op == 3
    then some (record { lo = flag (cc_u64_less (flip_sign a) (flip_sign b)); hi = 0 })
    else if op == 4
    then some (record { lo = flag (cc_u64_less a b); hi = 0 })
    else if op == 5
    then some (record { lo = bit_and a.lo b.lo; hi = bit_and a.hi b.hi })
    else if op == 6
    then some (record { lo = bit_or a.lo b.lo; hi = bit_or a.hi b.hi })
    else if op == 7
    then some (record { lo = bit_xor a.lo b.lo; hi = bit_xor a.hi b.hi })
    else if op == 8
    then some (record { lo = not32 a.lo; hi = not32 a.hi })
    else if op == 9
    then fold_shift (λ s. shift_left s.lo a) b
    else if op == 10
    then fold_shift (λ s. shift_right false s.lo a) b
    else if op == 11
    then fold_shift (λ s. shift_right true s.lo a) b
    else if op == 12
    then some (multiply 64 a b cell_zero)
    else if op == 13
    then fold_division true true a b
    else if op == 14
    then fold_division false true a b
    else if op == 15
    then fold_division true false a b
    else if op == 16
    then fold_division false false a b
    else if op == 17
    then some (record { lo = flag (not (bit_or a.lo a.hi == 0)); hi = 0 })
    else none
