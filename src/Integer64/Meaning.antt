-- ===== src/Integer64/Meaning.antt =====
-- What `cc_integer64_fold` is to compute, on 64-bit numbers; a signed operation reads its operands
-- in two's complement. Nothing here knows of cells.
use copy_space.Base.{ℕ, ◌+◌, ◌-◌, ◌*◌, ◌/◌, ◌%◌, ◌^◌, Option, none, some, Bool, true, false, not}
use copy_space.Base.{ltb, leb, ◌==◌, ◌&&◌, if◌then◌else◌, bit_and, bit_or, bit_xor}
use copy_space.Integer64.{flag}

abbrev pub wrap : ℕ → ℕ
wrap x = x % 2 ^ 64

abbrev pub negative : ℕ → Bool
negative x = leb (2 ^ 63) x

abbrev pub opposite : ℕ → ℕ
opposite x = wrap (2 ^ 64 - x)

-- The absolute value of the integer that `x` stands for.
abbrev pub magnitude : Bool → ℕ → ℕ
magnitude below_zero x = if below_zero then opposite x else x

-- Division by 2 ^ k of the integer that `x` stands for, rounded down.
abbrev pub signed_shift : ℕ → ℕ → ℕ
signed_shift x k = if ltb x (2 ^ 63) then x / 2 ^ k else 2 ^ 64 - 1 - (2 ^ 64 - 1 - x) / 2 ^ k

abbrev pub shift_meaning : ℕ → ℕ → Option ℕ
shift_meaning x k = if leb 64 k then none else some x

-- The quotient is rounded towards zero and the remainder has the sign of the dividend.
abbrev pub quotient_meaning : Bool → Bool → ℕ → ℕ → ℕ
quotient_meaning s t x y = magnitude (not (flag s == flag t)) (magnitude s x / magnitude t y)

abbrev pub remainder_meaning : Bool → Bool → ℕ → ℕ → ℕ
remainder_meaning s t x y = magnitude s (magnitude s x % magnitude t y)

-- Dividing by zero, and dividing the least integer by -1, are left alone.
abbrev pub division_meaning : Bool → Bool → ℕ → ℕ → Option ℕ
division_meaning signed quotient x y =
    let s = signed && negative x in
    let t = signed && negative y in
    if y == 0
    then none
    else if signed && (x == 2 ^ 63 && y == 2 ^ 64 - 1)
    then none
    else some (if quotient then quotient_meaning s t x y else remainder_meaning s t x y)

unfoldable pub meaning : ℕ → ℕ → ℕ → Option ℕ
meaning op x y =
    if op == 0
    then some (wrap (x + y))
    else if op == 1
    then some (wrap (x + (2 ^ 64 - y)))
    else if op == 2
    then some (flag (x == y))
    else if op == 3
    then some (flag (ltb (wrap (x + 2 ^ 63)) (wrap (y + 2 ^ 63))))
    else if op == 4
    then some (flag (ltb x y))
    else if op == 5
    then some (bit_and x y)
    else if op == 6
    then some (bit_or x y)
    else if op == 7
    then some (bit_xor x y)
    else if op == 8
    then some (2 ^ 64 - 1 - x)
    else if op == 9
    then shift_meaning (wrap (x * 2 ^ y)) y
    else if op == 10
    then shift_meaning (x / 2 ^ y) y
    else if op == 11
    then shift_meaning (signed_shift x y) y
    else if op == 12
    then some (wrap (x * y))
    else if op == 13
    then division_meaning true true x y
    else if op == 14
    then division_meaning false true x y
    else if op == 15
    then division_meaning true false x y
    else if op == 16
    then division_meaning false false x y
    else if op == 17
    then some (flag (not (x == 0)))
    else none
