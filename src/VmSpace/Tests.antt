-- ===== src/VmSpace/Tests.antt =====
-- A number in a field that crosses bytes.
use copy_space.Base.{◌+◌, ◌%◌, ◌^◌, ◌<◌, ◌≤◌, ◌≡◌, ℕ, arith, some, [], ◌∷◌}
use copy_space.Memory.{Bytes}
use copy_space.Memory.Bits.{bit_at}
use copy_space.BitCopy.Spec.{Returns}
use copy_space.VmSpace.{vm_read_uint, vm_write_uint}
use copy_space.VmSpace.Numbers.{vm_read_uint-vm_write_uint}

abbrev three_bytes : Bytes
three_bytes = 0xff ∷ 0x00 ∷ 0xff ∷ []

vm_read_uint-vm_write_uint_example : Returns (vm_write_uint three_bytes 5 13 9000) (λ m'.
    (vm_read_uint m' 5 13 ≡ some (9000 % 2 ^ 13))
    × ((q : ℕ) → q < 5 → bit_at m' q ≡ bit_at three_bytes q)
    × ((q : ℕ) → 5 + 13 ≤ q → bit_at m' q ≡ bit_at three_bytes q))
vm_read_uint-vm_write_uint_example =
    vm_read_uint-vm_write_uint three_bytes 5 13 9000 (omega arith) (omega arith) (omega arith)
