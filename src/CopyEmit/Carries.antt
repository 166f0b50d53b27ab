-- ===== src/CopyEmit/Carries.antt =====
-- Where the operands of an addition lie, and the carries of its bits.
use copy_space.Base.{ℕ, zero, suc, ◌+◌, ◌-◌, ◌*◌, ◌<◌, ◌≤◌, ◌≡◌, arith, ◌⊎◌}
use copy_space.Config.{Config, space_size, address_size}
use copy_space.Space.Model.{BitSpace}
use copy_space.CopyEmit.Machine.{RowIn, RowIn-kept}
use copy_space.CopyEmit.Group.{slot_at}
use copy_space.CopyEmit.AddBit.{AddRows, Behind, Apart}

-- Where the operands of an addition may lie.
pub record AddLayout (c : Config) (code j dest left right table t z u : ℕ) : Type 0 where
  pub wide : 5 ≤ address_size c
  pub rows_inside : slot_at c (j + 192) ≤ code
  pub code_inside : code ≤ space_size c
  pub left_place : Behind c code left 32
  pub right_place : Behind c code right 32
  pub z_place : Behind c code z 1
  pub t_place : Behind c code t 2
  pub e_place : Behind c code table 16
  pub d_place : Behind c code dest 32
  pub aligned : table ≡ u * 16
  pub table_temporary : Apart table 16 t 2
  pub carry_temporary : Apart z 1 t 2
  pub dest_temporary : Apart dest 32 t 2
  pub left_temporary : Apart left 32 t 2
  pub right_temporary : Apart right 32 t 2
  pub dest_carry : Apart dest 32 z 1
  pub left_carry : Apart left 32 z 1
  pub right_carry : Apart right 32 z 1
  pub table_carry : Apart table 16 z 1
  pub table_dest : Apart table 16 dest 32
  pub left_dest : (left ≡ dest) ⊎ Apart left 32 dest 32
  pub right_dest : (right ≡ dest) ⊎ Apart right 32 dest 32

RowIn-at :
    (a : ℕ) (b b' : BitSpace) (at at' : ℕ) (code : ℕ)
    → 1 ≤ a
    → at ≤ at'
    → at' + (3 * a - 1) ≤ code
    → ((p : ℕ) → at ≤ p → p < code → b' p ≡ b p)
    → (n d s : ℕ) → RowIn a b at' (record { n = n; dst = d; src = s })
    → RowIn a b' at' (record { n = n; dst = d; src = s })
RowIn-at a b b' at at' code h l m same n d s w =
    RowIn-kept a b b' at' _ h (λ q k r. same q (omega arith) (omega arith)) w

pub AddRows-kept :
    (a : ℕ) (b b' : BitSpace) (at x y z t e d code : ℕ)
    → 1 ≤ a
    → at + 6 * (3 * a - 1) ≤ code
    → ((p : ℕ) → at ≤ p → p < code → b' p ≡ b p)
    → AddRows a b at x y z t e d
    → AddRows a b' at x y z t e d
AddRows-kept a b b' at x y z t e d code h l same w = record {
  first = RowIn-at a b b' at _ code h (omega arith) (omega arith) same _ _ _ w.first;
  second = RowIn-at a b b' at _ code h (omega arith) (omega arith) same _ _ _ w.second;
  third = RowIn-at a b b' at _ code h (omega arith) (omega arith) same _ _ _ w.third;
  lookup = RowIn-at a b b' at _ code h (omega arith) (omega arith) same _ _ _ w.lookup;
  result = RowIn-at a b b' at _ code h (omega arith) (omega arith) same _ _ _ w.result;
  carry = RowIn-at a b b' at _ code h (omega arith) (omega arith) same _ _ _ w.carry;
}

module _ (b : BitSpace) (left right table z : ℕ) where
  -- The carry into bit `k`, and the entry of the table that gives bit `k`.
  unfoldable pub carry_at : ℕ → ℕ
  carry_at zero = b z
  carry_at (suc k) = b (table + 2 * (b (left + k) + 2 * b (right + k) + 4 * carry_at k) + 1)

  unfoldable pub place_at : ℕ → ℕ
  place_at k = table + 2 * (b (left + k) + 2 * b (right + k) + 4 * carry_at k)
