-- ===== src/Assembler/Code.antt =====
-- src/assembler.c: `write_code`, on the buffer `space` of the assembler. Its `bit_set_local` and
-- `write_field_bits` are those of src/space.c once more.
use copy_space.Base.{ℕ, ◌+◌, ◌*◌, Option, ◌>>=◌}
use copy_space.Memory.{Bytes}
use copy_space.Config.{
  Config, address_size, n_size, instruction_size, n_offset, dst_offset, src_offset,
}
use copy_space.Field.{write_field_bits}
use copy_space.Space.{Instruction}

-- The three fields of the row of slot `i`.
unfoldable pub write_code : Config → Bytes → ℕ → Instruction → Option Bytes
write_code c space i r = do
  m1 ← write_field_bits space (instruction_size c * i + n_offset c) r.n (n_size c)
  m2 ← write_field_bits m1 (instruction_size c * i + dst_offset c) r.dst (address_size c)
  write_field_bits m2 (instruction_size c * i + src_offset c) r.src (address_size c)
