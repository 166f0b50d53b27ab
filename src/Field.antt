-- ===== src/Field.antt =====
-- Number fields in bit space: `get_argument` and `write_field_bits` of src/space.c. The least
-- significant bit of a field comes first, while bytes are written most significant bit first.
pub mod Meaning
mod Reverse
mod Decode
pub mod Argument
pub mod Encode
mod Tests
use copy_space.Base.{ℕ, zero, suc, ◌+◌, ◌-◌, ◌*◌, ◌/◌, ◌%◌, ◌^◌, Option, none, some}
use copy_space.Base.{◌>>=◌, ltb, if◌then◌else◌, bit_and, bit_or, length}
use copy_space.Memory.{Bytes, u8, not8, shl, shr, load}
use copy_space.Memory.Bits.{bit_at}
use copy_space.BitCopy.{bit_set_ptr}

abbrev pub u32 : ℕ → ℕ
u32 x = x % 2 ^ 32

-- One line of `reverse_bits_in_bytes`.
abbrev pub swap_neighbours : ℕ → ℕ → ℕ → ℕ
swap_neighbours mask k value =
    bit_or (u32 (shl (bit_and value mask) k)) (bit_and (shr value k) mask)

pub reverse_bits_in_bytes : ℕ → ℕ
reverse_bits_in_bytes value =
    swap_neighbours 0x0f0f0f0f 4 (swap_neighbours 0x33333333 2 (swap_neighbours 0x55555555 1 value))

-- The bit loop near the end of space: `left` rounds to go, at index `i`.
pub gather_bits : Bytes → ℕ → ℕ → ℕ → ℕ → Option ℕ
gather_bits space src zero i value = some value
gather_bits space src (suc left) i value = do
  x ← load space ((src + i) / 8)
  let bit = bit_and (shr x (7 - (src + i) % 8)) 1
  gather_bits space src left (i + 1) (bit_or value (u32 (shl bit i)))

-- The four bytes at `byte` as one number, the first one lowest.
pub load_packed : Bytes → ℕ → Option ℕ
load_packed space byte = do
  p0 ← load space byte
  p1 ← load space (byte + 1)
  p2 ← load space (byte + 2)
  p3 ← load space (byte + 3)
  some (bit_or (bit_or (bit_or p0 (shl p1 8)) (shl p2 16)) (shl p3 24))

-- The fifth byte, where a field reaches into it.
pub add_fifth : Bytes → ℕ → ℕ → ℕ → ℕ → Option ℕ
add_fifth space byte offset n value =
    if ltb 32 (n + offset)
    then (do
      p4 ← load space (byte + 4)
      some (bit_or value (u32 (shl (reverse_bits_in_bytes p4) (32 - offset)))))
    else some value

pub get_argument : Bytes → ℕ → ℕ → Option ℕ
get_argument space src n =
    let byte = src / 8 in
    let offset = src % 8 in
    if ltb (length space) (byte + 4) then gather_bits space src n 0 0 else do
      packed ← load_packed space byte
      value ← add_fifth space byte offset n (shr (reverse_bits_in_bytes packed) offset)
      some (bit_and value (shl 1 n - 1))

-- `bit_set_local`, which is `bit_set_ptr` once more.
pub bit_set_local : Bytes → ℕ → ℕ → Option Bytes
bit_set_local p bitpos v = bit_set_ptr p bitpos v

-- The loop of `write_field_bits`: `left` rounds to go, at index `i`.
pub write_bits_from : Bytes → ℕ → ℕ → ℕ → ℕ → Option Bytes
write_bits_from space dst_bit value zero i = some space
write_bits_from space dst_bit value (suc left) i = do
  space' ← bit_set_local space (dst_bit + i) (bit_and (shr value i) 1)
  write_bits_from space' dst_bit value left (i + 1)

pub write_field_bits : Bytes → ℕ → ℕ → ℕ → Option Bytes
write_field_bits space dst_bit value width = write_bits_from space dst_bit value width 0

-- What a field means: its bits from position `p` on, the least significant first.
unfoldable pub read_field : Bytes → ℕ → ℕ → ℕ
read_field m p zero = 0
read_field m p (suc n) = bit_at m p + 2 * read_field m (p + 1) n
