-- ===== src/Config.antt =====
-- The constants of src/support.h and src/space.h. VM_SPACE_BYTES and PROCESSOR_N may be given to
-- the compiler, so they are a record, and the other constants are computed from it.
pub mod Laws
mod Tests
use copy_space.Base.{ℕ, zero, suc, ◌+◌, ◌-◌, ◌*◌, ◌/◌, ◌%◌, ◌^◌, ◌≤◌, ◌<◌, leb, if◌then◌else◌}

pub record Config : Type 0 where
  pub vm_space_bytes : ℕ
  pub processor_n : ℕ

-- The ladder of CEIL_LOG2_U32 from the rung `x <= 2 ^ k` on.
pub ceil_log2_from : ℕ → ℕ → ℕ → ℕ
ceil_log2_from zero k x = k
ceil_log2_from (suc rungs) k x =
    let rest = ceil_log2_from rungs (k + 1) x in if leb x (2 ^ k) then k else rest

unfoldable pub ceil_log2_u32 : ℕ → ℕ
unfolding ceil_log2_from
ceil_log2_u32 x = ceil_log2_from 31 0 x

abbrev pub char_bit : ℕ
char_bit = 8

abbrev pub processor_start : ℕ
processor_start = 0

-- `(size)VM_SPACE_BYTES * CHAR_BIT`, a product of `uint32_t`.
abbrev pub space_size : Config → ℕ
space_size c = c.vm_space_bytes * char_bit % 2 ^ 32

abbrev pub address_size : Config → ℕ
address_size c = ceil_log2_u32 (space_size c)

abbrev pub n_size : Config → ℕ
n_size c = address_size c - 1

abbrev pub instruction_size : Config → ℕ
instruction_size c = n_size c + 2 * address_size c

abbrev pub processor_bits : Config → ℕ
processor_bits c = c.processor_n * instruction_size c

-- `o[]` and `s[]`: the offset and the width of each field of an instruction.
abbrev pub n_offset : Config → ℕ
n_offset c = 0

abbrev pub dst_offset : Config → ℕ
dst_offset c = n_size c

abbrev pub src_offset : Config → ℕ
src_offset c = n_size c + address_size c

-- `space_configuration_valid`, and that SPACE_SIZE, an enumeration constant, is an `int`.
pub record IsConfig (c : Config) : Type 0 where
  pub enough_slots : 4 ≤ c.processor_n
  pub address_low : 1 < address_size c
  pub address_high : address_size c ≤ 31
  pub processor_fits : processor_bits c < space_size c
  pub is_int : c.vm_space_bytes * char_bit < 2 ^ 31
