-- ===== src/Field/Tests.antt =====
-- Fields of a small buffer, and the theorems on them at concrete inputs.
use copy_space.Base.{ℕ, ◌≡◌, ◌≤◌, ◌<◌, ◌+◌, ◌%◌, ◌^◌, refl, arith, some, [], ◌∷◌}
use copy_space.Memory.{Bytes, load}
use copy_space.Memory.Bits.{bit_at}
use copy_space.Field.{
  get_argument, gather_bits, load_packed, add_fifth, reverse_bits_in_bytes, write_field_bits,
  read_field,
}
use copy_space.Field.Argument.{get_argument-eq-read_field}
use copy_space.Field.Encode.{get_argument-write_field_bits}

abbrev cells : Bytes
cells = 0xa5 ∷ 0x3c ∷ 0x96 ∷ 0x0f ∷ 0x81 ∷ 0x42 ∷ []

-- The fast path, and the bit loop at the end of the buffer.
get_argument_runs : (get_argument cells 4 12 ≡ some 0x3ca) × (get_argument cells 30 15 ≡ some 0xa07)
unfolding get_argument gather_bits load_packed add_fifth reverse_bits_in_bytes load
get_argument_runs = (refl, refl)

get_argument-eq-read_field_example : get_argument cells 7 31 ≡ some (read_field cells 7 31)
get_argument-eq-read_field_example =
    get_argument-eq-read_field cells 7 31 (omega arith) (omega arith)

get_argument-write_field_bits_example :
    (m' : Bytes) × (write_field_bits cells 5 1000 9 ≡ some m')
    × (get_argument m' 5 9 ≡ some (1000 % 2 ^ 9))
    × ((q : ℕ) → q < 5 → bit_at m' q ≡ bit_at cells q)
    × ((q : ℕ) → 5 + 9 ≤ q → bit_at m' q ≡ bit_at cells q)
get_argument-write_field_bits_example =
    get_argument-write_field_bits cells 5 1000 9 (omega arith) (omega arith)
