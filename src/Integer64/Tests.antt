-- ===== src/Integer64/Tests.antt =====
-- Constants folded on cells, and the theorem on them at a concrete input.
use copy_space.Base.{◌≡◌, refl, arith, some}
use copy_space.Integer64.{
  CcU64, cc_integer64_fold, fold_division, divide, divide_step, shift_in, cc_u64_left, cc_u64_sub,
  cc_u64_neg, cc_u64_add, cc_u64_less, digit, with_digit, overflows, multiply, cc_u64_right,
}
use copy_space.Integer64.Words.{value}
use copy_space.Integer64.Meaning.{meaning}
use copy_space.Integer64.Fold.{Agrees, cc_integer64_fold-Agrees}

-- -7 and 2.
abbrev minus_seven : CcU64
minus_seven = record { lo = 0xfffffff9; hi = 0xffffffff }

abbrev two_cells : CcU64
two_cells = record { lo = 2; hi = 0 }

-- The signed quotient is rounded towards zero, and the product wraps.
fold_runs :
    (cc_integer64_fold 13 minus_seven two_cells
      ≡ some (record { lo = 0xfffffffd; hi = 0xffffffff }))
    × (cc_integer64_fold 12 minus_seven two_cells
        ≡ some (record { lo = 0xfffffff2; hi = 0xffffffff }))
unfolding cc_integer64_fold fold_division divide divide_step shift_in cc_u64_left cc_u64_sub
    cc_u64_neg cc_u64_add cc_u64_less digit with_digit overflows multiply cc_u64_right
fold_runs = (refl, refl)

cc_integer64_fold-Agrees_example :
    Agrees
      (meaning 13 (value minus_seven) (value two_cells))
      (cc_integer64_fold 13 minus_seven two_cells)
cc_integer64_fold-Agrees_example =
    cc_integer64_fold-Agrees 13 minus_seven two_cells
      (record { lo_cell = omega arith; hi_cell = omega arith })
      (record { lo_cell = omega arith; hi_cell = omega arith })
