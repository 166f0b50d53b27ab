-- ===== src/VmSpace.antt =====
-- legacy/src/vm/space.c: bits and numbers of the earlier machine, whose numbers have their most
-- significant bit first. `vm_bit_set` is in Rv32.
pub mod Numbers
mod Tests
use copy_space.Base.{
  ℕ, zero, suc, ◌+◌, ◌-◌, ◌*◌, ◌%◌, ◌^◌, Option, none, some, ◌>>=◌, Bool, true, false, not, ◌||◌,
  ltb, ◌==◌, if◌then◌else◌, bit_and, bit_or,
}
use copy_space.Memory.{Bytes, shl, shr, load}
use copy_space.Rv32.{vm_bit_set}

unfoldable pub vm_bit_get : Bytes → ℕ → Option ℕ
vm_bit_get m pos = do byte ← load m (shr pos 3); some (bit_and (shr byte (7 - bit_and pos 7)) 1)

-- The loop of `vm_read_uint` at index `i`, with `left` rounds to go.
unfoldable pub read_bits : Bytes → ℕ → ℕ → ℕ → ℕ → Option ℕ
read_bits m pos zero i v = some v
read_bits m pos (suc left) i v = do
  bit ← vm_bit_get m (pos + i)
  read_bits m pos left (i + 1) (bit_or (shl v 1 % 2 ^ 64) bit)

unfoldable pub vm_read_uint : Bytes → ℕ → ℕ → Option ℕ
vm_read_uint m pos width = if width == 0 || ltb 64 width then some 0 else read_bits m pos width 0 0

-- The loop of `vm_write_uint`.
unfoldable pub write_bits : Bytes → ℕ → ℕ → ℕ → ℕ → ℕ → Option Bytes
write_bits m pos width value zero i = some m
write_bits m pos width value (suc left) i = do
  m' ← vm_bit_set m (pos + i) (not (bit_and (shr value (width - 1 - i)) 1 == 0))
  write_bits m' pos width value left (i + 1)

unfoldable pub vm_write_uint : Bytes → ℕ → ℕ → ℕ → Option Bytes
vm_write_uint m pos width value =
    if width == 0 || ltb 64 width then some m else write_bits m pos width value width 0
