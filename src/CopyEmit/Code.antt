-- ===== src/CopyEmit/Code.antt =====
-- runtime/gcc/copy_emit.c: the copy code of addition, subtraction and the bitwise operations.
use copy_space.Base.{ℕ, zero, suc, ◌+◌, ◌-◌, ◌*◌, ◌%◌, ◌^◌, Option, some, List, [], ◌∷◌}
use copy_space.Base.{
  Bool, true, false, not, ◌&&◌, ◌||◌, ◌>>=◌, ltb, ◌==◌, if◌then◌else◌, bit_and, bit_or,
}
use copy_space.Memory.{shr}
use copy_space.Field.{u32}
use copy_space.CopyEmit.{CopyImage, Answer, refuse, fits, field, with_buffer, cs_copy_emit}

unfoldable pub overlaps : ℕ → ℕ → ℕ → ℕ → Bool
overlaps a an b bn = ltb a (u32 (b + bn)) && ltb b (u32 (a + an))

-- The six operands of an addition, and their widths.
pub record Operands : Type 0 where
  pub destination : ℕ
  pub left : ℕ
  pub right : ℕ
  pub table : ℕ
  pub temporary : ℕ
  pub carry : ℕ

-- An address with the width of what it points at.
abbrev pub Range : Type 0
Range = ℕ × ℕ

abbrev pub add_ranges : Operands → List Range
add_ranges x =
    (x.destination, 32)
    ∷ (x.left, 32)
    ∷ (x.right, 32)
    ∷ (x.table, 16)
    ∷ (x.temporary, 2)
    ∷ (x.carry, 1)
    ∷ []

-- Whether a range leaves space, or meets the layer that runs or the one that is written.
unfoldable pub range_refused : CopyImage → Range → Bool
range_refused image (a, n) =
    not (fits a n image.space_bits)
    || overlaps a n image.layer image.layer_bits
    || overlaps a n 0 image.layer_bits

unfoldable pub meets_any : Range → List Range → Bool
meets_any r [] = false
meets_any (a, n) ((b, k) ∷ rs) = overlaps a n b k || meets_any (a, n) rs

unfoldable pub any_refused : CopyImage → List Range → Bool
any_refused image [] = false
any_refused image (r ∷ rs) = range_refused image r || any_refused image rs

-- A range may be the destination's own, but must not meet it otherwise.
abbrev pub meets_partly : ℕ → ℕ → Bool
meets_partly destination a = not (destination == a) && overlaps destination 32 a 32

-- The pairs of operands of which one is the table, the temporary or the carry.
abbrev pub pairs_meet : Operands → Bool
pairs_meet x =
    let data_ranges = (x.destination, 32) ∷ (x.left, 32) ∷ (x.right, 32) ∷ [] in
    meets_any (x.table, 16) data_ranges
    || meets_any (x.temporary, 2) ((x.table, 16) ∷ data_ranges)
    || meets_any (x.carry, 1) ((x.table, 16) ∷ (x.temporary, 2) ∷ data_ranges)

-- `add_valid` answering 0.
unfoldable pub add_valid : CopyImage → Operands → Bool
add_valid image x = not (
    ltb image.address_bits 5
    || ltb (255 - 193) image.slot
    || not (bit_and x.table 15 == 0)
    || any_refused image (add_ranges x)
    || pairs_meet x
    || meets_partly x.destination x.left
    || meets_partly x.destination x.right
    || not (fits x.table 16 (u32 (image.bytes * 8)))
    || not (fits x.carry 1 (u32 (image.bytes * 8))))

-- `a - b - c` of single bits, modulo 2 ^ 32, and whether it borrows.
abbrev pub difference : ℕ → ℕ → ℕ → ℕ
difference a b c =
    bit_or (bit_and ((a + 2 * 2 ^ 32 - b - c) % 2 ^ 32) 1) ((if ltb a (b + c) then 1 else 0) * 2)

-- The two bits that entry `i` of the table holds.
unfoldable pub entry : Bool → ℕ → ℕ
entry subtract i =
    let a = bit_and i 1 in
    let b = bit_and (shr i 1) 1 in
    let c = bit_and (shr i 2) 1 in if subtract then difference a b c else a + b + c

-- `for (i = 0; i < 8; ++i) field(image, table + 2 * i, 2, value)`.
unfoldable pub write_table : Bool → ℕ → ℕ → ℕ → CopyImage → Option CopyImage
write_table subtract table zero i image = some image
write_table subtract table (suc left) i image = do
  m ← field image.buffer (table + 2 * i) 2 (entry subtract i)
  write_table subtract table left (i + 1) (with_buffer image m)

-- The image after `cs_copy_emit`, whose answer is not looked at.
unfoldable pub emitted : CopyImage → ℕ → ℕ → ℕ → Option CopyImage
emitted image count destination source = do
  r ← cs_copy_emit image count destination source
  some r.1

-- The position of the source field of the row `ahead` slots further on.
abbrev pub source_field : CopyImage → ℕ → ℕ
source_field image ahead =
    (image.slot + ahead) * image.instruction_bits + image.count_bits + image.address_bits

-- The six rows for bit `bit`.
unfoldable pub add_bit : Operands → ℕ → CopyImage → Option CopyImage
add_bit x bit image = do
  let at = source_field image 3
  i1 ← emitted image 1 (at + 1) (x.left + bit)
  i2 ← emitted i1 1 (at + 2) (x.right + bit)
  i3 ← emitted i2 1 (at + 3) x.carry
  i4 ← emitted i3 2 x.temporary x.table
  i5 ← emitted i4 1 (x.destination + bit) x.temporary
  emitted i5 1 x.carry (x.temporary + 1)

-- `for (bit = 0; bit < 32; ++bit)`, at `bit` with `left` rounds to go.
unfoldable pub add_bits : Operands → ℕ → ℕ → CopyImage → Option CopyImage
add_bits x zero bit image = some image
add_bits x (suc left) bit image = do image' ← add_bit x bit image; add_bits x left (bit + 1) image'

unfoldable pub arithmetic32 : CopyImage → Bool → Operands → Answer
arithmetic32 image subtract x =
    if add_valid image x
    then (do
      image1 ← write_table subtract x.table 8 0 image
      m ← field image1.buffer x.carry 1 0
      image2 ← emitted (with_buffer image1 m) 1 x.carry x.table
      image3 ← add_bits x 32 0 image2
      some (true, image3))
    else refuse image

unfoldable pub cs_copy_add32 : CopyImage → Operands → Answer
cs_copy_add32 image x = arithmetic32 image false x

unfoldable pub cs_copy_sub32 : CopyImage → Operands → Answer
cs_copy_sub32 image x = arithmetic32 image true x

-- `enum cs_copy_bit_operation`.
pub data BitOperation : Type 0 where
  copy_and copy_or copy_xor : BitOperation

-- `truth[operation]`.
unfoldable pub truth : BitOperation → ℕ
truth copy_and = 8
truth copy_or = 14
truth copy_xor = 6

-- `bits_valid` answering 0, for an operation of the enumeration.
unfoldable pub bits_valid : CopyImage → ℕ → ℕ → ℕ → ℕ → Bool
bits_valid image destination left right table = not (
    ltb (255 - 96) image.slot
    || not (bit_and table 3 == 0)
    || not (fits table 4 (u32 (image.bytes * 8)))
    || any_refused image ((destination, 32) ∷ (left, 32) ∷ (right, 32) ∷ (table, 4) ∷ [])
    || overlaps destination 32 table 4
    || overlaps left 32 table 4
    || overlaps right 32 table 4
    || meets_partly destination left
    || meets_partly destination right)

-- The three rows for bit `bit`.
unfoldable pub logic_bit : ℕ → ℕ → ℕ → ℕ → ℕ → CopyImage → Option CopyImage
logic_bit destination left right table bit image = do
  let at = source_field image 2
  i1 ← emitted image 1 at (left + bit)
  i2 ← emitted i1 1 (at + 1) (right + bit)
  emitted i2 1 (destination + bit) table

unfoldable pub logic_bits : ℕ → ℕ → ℕ → ℕ → ℕ → ℕ → CopyImage → Option CopyImage
logic_bits destination left right table zero bit image = some image
logic_bits destination left right table (suc todo) bit image = do
  image' ← logic_bit destination left right table bit image
  logic_bits destination left right table todo (bit + 1) image'

unfoldable pub cs_copy_bits32 : CopyImage → BitOperation → ℕ → ℕ → ℕ → ℕ → Answer
cs_copy_bits32 image operation destination left right table =
    if bits_valid image destination left right table
    then (do
      m ← field image.buffer table 4 (truth operation)
      image' ← logic_bits destination left right table 32 0 (with_buffer image m)
      some (true, image'))
    else refuse image
