-- ===== src/Core.antt =====
-- `encode` of src/core.c, which writes rows of instructions into an image of zero bits.
mod Fields
pub mod Rows
mod Tests
use copy_space.Base.{ℕ, zero, suc, ◌+◌, ◌-◌, ◌*◌, ◌/◌, ◌%◌, ◌^◌, Option, none, some, List, [], ◌∷◌}
use copy_space.Base.{◌>>=◌, bit_and, bit_or}
use copy_space.Memory.{Bytes, u8, shl, shr, load, store}
use copy_space.Config.{
  Config, n_size, address_size, instruction_size, n_offset, dst_offset, src_offset,
}
use copy_space.Space.{Instruction}

-- `image[position / CHAR_BIT] |= (unsigned char)(bit << (CHAR_BIT - 1 - position % CHAR_BIT))`.
pub or_bit : Bytes → ℕ → ℕ → Option Bytes
or_bit image position bit = do
  x ← load image (position / 8)
  store image (position / 8) (bit_or x (u8 (shl bit (7 - position % 8))))

-- The loop over the bits of a field, at index `bit` with `left` rounds to go.
pub encode_bits : Bytes → ℕ → ℕ → ℕ → ℕ → Option Bytes
encode_bits image position value zero bit = some image
encode_bits image position value (suc left) bit = do
  image' ← or_bit image (position + bit) (bit_and (shr value bit) 1)
  encode_bits image' position value left (bit + 1)

module _ (c : Config) where
  -- The loop over the three fields of a slot that starts at `at`.
  pub encode_slot : Bytes → ℕ → Instruction → Option Bytes
  encode_slot image at row = do
    image' ← encode_bits image (at + n_offset c) row.n (n_size c) 0
    image'' ← encode_bits image' (at + dst_offset c) row.dst (address_size c) 0
    encode_bits image'' (at + src_offset c) row.src (address_size c) 0

  -- The loop over the slots, for the rows still to come.
  pub encode_from : Bytes → ℕ → ℕ → List Instruction → Option Bytes
  encode_from image base slot [] = some image
  encode_from image base slot (row ∷ rows) = do
    image' ← encode_slot image (base + slot * instruction_size c) row
    encode_from image' base (slot + 1) rows

  pub encode : Bytes → ℕ → List Instruction → Option Bytes
  encode image base rows = encode_from image base 0 rows
