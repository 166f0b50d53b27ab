-- ===== src/CopyEmit.antt =====
-- runtime/gcc/copy_emit.c: rows of copy instructions written into an image, and the copy code of
-- 32-bit arithmetic. The first part of the file: `cs_copy_image` and single rows.
-- A call returns whether it answered 0, and the state after it; `none` is an access out of range.
-- Pointers are taken not to be null. A position computed from a slot below 256 and from addresses
-- that passed `fits` stays below 2 ^ 32 and is written as a plain sum.
mod Digits
pub mod Field
pub mod Code
pub mod Rows
pub mod Emission
pub mod Machine
pub mod Group
pub mod AddBit
pub mod Carries
pub mod Ripple
pub mod Sum
pub mod Layout
pub mod AddCode
pub mod Adds
pub mod Loaded
pub mod Execution
pub mod Sums
pub mod Program
mod Tests
use copy_space.Base.{
  ℕ, zero, suc, ◌+◌, ◌-◌, ◌*◌, ◌/◌, ◌%◌, ◌^◌, Option, none, some, List, [], ◌∷◌, ◌++◌, replicate,
}
use copy_space.Base.{
  Bool, true, false, not, ◌&&◌, ◌||◌, ◌>>=◌, ltb, leb, ◌==◌, if◌then◌else◌, bit_and, bit_or,
  get_elem?,
}
use copy_space.Memory.{Bytes, u8, not8, shl, shr, load, store, store_bytes}
use copy_space.Field.{u32}

pub fits : ℕ → ℕ → ℕ → Bool
fits address width limit = leb address limit && leb width (limit - address)

unfoldable pub reverse_byte : List ℕ
reverse_byte =
    0 ∷ 128 ∷ 64 ∷ 192 ∷ 32 ∷ 160 ∷ 96 ∷ 224 ∷ 16 ∷ 144 ∷ 80 ∷ 208 ∷ 48 ∷ 176 ∷ 112 ∷ 240 ∷ 8 ∷ 136
    ∷ 72 ∷ 200 ∷ 40 ∷ 168 ∷ 104 ∷ 232 ∷ 24 ∷ 152 ∷ 88 ∷ 216 ∷ 56 ∷ 184 ∷ 120 ∷ 248 ∷ 4 ∷ 132 ∷ 68
    ∷ 196 ∷ 36 ∷ 164 ∷ 100 ∷ 228 ∷ 20 ∷ 148 ∷ 84 ∷ 212 ∷ 52 ∷ 180 ∷ 116 ∷ 244 ∷ 12 ∷ 140 ∷ 76 ∷ 204
    ∷ 44 ∷ 172 ∷ 108 ∷ 236 ∷ 28 ∷ 156 ∷ 92 ∷ 220 ∷ 60 ∷ 188 ∷ 124 ∷ 252 ∷ 2 ∷ 130 ∷ 66 ∷ 194 ∷ 34
    ∷ 162 ∷ 98 ∷ 226 ∷ 18 ∷ 146 ∷ 82 ∷ 210 ∷ 50 ∷ 178 ∷ 114 ∷ 242 ∷ 10 ∷ 138 ∷ 74 ∷ 202 ∷ 42 ∷ 170
    ∷ 106 ∷ 234 ∷ 26 ∷ 154 ∷ 90 ∷ 218 ∷ 58 ∷ 186 ∷ 122 ∷ 250 ∷ 6 ∷ 134 ∷ 70 ∷ 198 ∷ 38 ∷ 166 ∷ 102
    ∷ 230 ∷ 22 ∷ 150 ∷ 86 ∷ 214 ∷ 54 ∷ 182 ∷ 118 ∷ 246 ∷ 14 ∷ 142 ∷ 78 ∷ 206 ∷ 46 ∷ 174 ∷ 110 ∷ 238
    ∷ 30 ∷ 158 ∷ 94 ∷ 222 ∷ 62 ∷ 190 ∷ 126 ∷ 254 ∷ 1 ∷ 129 ∷ 65 ∷ 193 ∷ 33 ∷ 161 ∷ 97 ∷ 225 ∷ 17
    ∷ 145 ∷ 81 ∷ 209 ∷ 49 ∷ 177 ∷ 113 ∷ 241 ∷ 9 ∷ 137 ∷ 73 ∷ 201 ∷ 41 ∷ 169 ∷ 105 ∷ 233 ∷ 25 ∷ 153
    ∷ 89 ∷ 217 ∷ 57 ∷ 185 ∷ 121 ∷ 249 ∷ 5 ∷ 133 ∷ 69 ∷ 197 ∷ 37 ∷ 165 ∷ 101 ∷ 229 ∷ 21 ∷ 149 ∷ 85
    ∷ 213 ∷ 53 ∷ 181 ∷ 117 ∷ 245 ∷ 13 ∷ 141 ∷ 77 ∷ 205 ∷ 45 ∷ 173 ∷ 109 ∷ 237 ∷ 29 ∷ 157 ∷ 93 ∷ 221
    ∷ 61 ∷ 189 ∷ 125 ∷ 253 ∷ 3 ∷ 131 ∷ 67 ∷ 195 ∷ 35 ∷ 163 ∷ 99 ∷ 227 ∷ 19 ∷ 147 ∷ 83 ∷ 211 ∷ 51
    ∷ 179 ∷ 115 ∷ 243 ∷ 11 ∷ 139 ∷ 75 ∷ 203 ∷ 43 ∷ 171 ∷ 107 ∷ 235 ∷ 27 ∷ 155 ∷ 91 ∷ 219 ∷ 59 ∷ 187
    ∷ 123 ∷ 251 ∷ 7 ∷ 135 ∷ 71 ∷ 199 ∷ 39 ∷ 167 ∷ 103 ∷ 231 ∷ 23 ∷ 151 ∷ 87 ∷ 215 ∷ 55 ∷ 183 ∷ 119
    ∷ 247 ∷ 15 ∷ 143 ∷ 79 ∷ 207 ∷ 47 ∷ 175 ∷ 111 ∷ 239 ∷ 31 ∷ 159 ∷ 95 ∷ 223 ∷ 63 ∷ 191 ∷ 127 ∷ 255
    ∷ []

-- `struct cs_copy_image`; the buffer that `data` points at is `buffer`.
pub record CopyImage : Type 0 where
  pub buffer : Bytes
  pub bytes : ℕ
  pub space_bits : ℕ
  pub layer : ℕ
  pub layer_bits : ℕ
  pub address_bits : ℕ
  pub count_bits : ℕ
  pub instruction_bits : ℕ
  pub slot : ℕ

abbrev pub with_buffer : CopyImage → Bytes → CopyImage
with_buffer image m = record image { buffer = m }

-- The bits of a byte that a round of `field` replaces.
abbrev pub chunk_mask : ℕ → ℕ → ℕ
chunk_mask offset count = bit_and (shr 255 offset) (shl 255 (8 - offset - count))

-- `count = 8 - offset; if (count > width) count = width;`.
abbrev pub chunk_bits : ℕ → ℕ → ℕ
chunk_bits offset width = let count = 8 - offset in if ltb width count then width else count

-- One round of the loop of `field`, without the steps of its variables.
pub field_chunk : Bytes → ℕ → ℕ → ℕ → Option Bytes
field_chunk m at count value = do
  let offset = at % 8
  let mask = chunk_mask offset count
  reversed ← get_elem? reverse_byte (bit_and value 255)
  byte ← load m (at / 8)
  store m (at / 8) (u8 (bit_or (bit_and byte (not8 mask)) (bit_and (shr reversed offset) mask)))

-- `while (width)`, with fuel for the rounds: each takes at least one bit.
pub field_chunks : ℕ → Bytes → ℕ → ℕ → ℕ → Option Bytes
field_chunks zero m at width value = if width == 0 then some m else none
field_chunks (suc fuel) m at width value = if width == 0 then some m else do
  let count = chunk_bits (at % 8) width
  m' ← field_chunk m at count value
  field_chunks fuel m' (at + count) (width - count) (shr value count)

-- The short way for a single bit.
pub field_bit : Bytes → ℕ → ℕ → Option Bytes
field_bit m at value = do
  let mask = u8 (shl 1 (7 - bit_and at 7))
  byte ← load m (at / 8)
  store m (at / 8)
      (u8 (bit_or (bit_and byte (not8 mask)) (if bit_and value 1 == 0 then 0 else mask)))

pub field : Bytes → ℕ → ℕ → ℕ → Option Bytes
field m at width value =
    if width == 1 then field_bit m at value else field_chunks width m at width value

-- `memset(data + i, 0, n)`.
pub clear_bytes : Bytes → ℕ → ℕ → Option Bytes
clear_bytes m i n = store_bytes m i (replicate n 0)

-- The structure that `cs_copy_image_init` fills in.
abbrev pub new_image : Bytes → ℕ → ℕ → ℕ → CopyImage
new_image m bytes address_bits layer = record {
  buffer = m;
  bytes = bytes;
  space_bits = 2 ^ address_bits;
  layer = layer;
  layer_bits = u32 (256 * (3 * address_bits - 1));
  address_bits = address_bits;
  count_bits = address_bits - 1;
  instruction_bits = 3 * address_bits - 1;
  slot = 3;
}

-- The arguments that `cs_copy_image_init` refuses.
pub image_refused : ℕ → ℕ → ℕ → Bool
image_refused bytes address_bits layer =
    ltb address_bits 2
    || ltb 31 address_bits
    || ltb ((2 ^ 32 - 1) / 8) bytes
    || not (layer % 8 == 0)
    || ltb (2 ^ address_bits) (bytes * 8)
    || not (fits layer (u32 (256 * (3 * address_bits - 1))) (u32 (bytes * 8)))

-- The image is `none` where the arguments are refused.
pub cs_copy_image_init : Bytes → ℕ → ℕ → ℕ → Option (Option CopyImage)
cs_copy_image_init m bytes address_bits layer =
    if image_refused bytes address_bits layer then some none else do
      m' ← clear_bytes m (layer / 8) (u32 (256 * (3 * address_bits - 1)) / 8)
      some (some (new_image m' bytes address_bits layer))

-- A call on an image: whether it answered 0, and the image after it.
abbrev pub Answer : Type 0
Answer = Option (Bool × CopyImage)

abbrev pub refuse : CopyImage → Answer
refuse image = some (false, image)

pub cs_copy_constant : CopyImage → ℕ → ℕ → ℕ → Answer
cs_copy_constant image at width value =
    if width == 0 || ltb 32 width || not (fits at width (u32 (image.bytes * 8)))
    then refuse image
    else (do m ← field image.buffer at width value; some (true, with_buffer image m))

pub row_valid : CopyImage → ℕ → ℕ → ℕ → ℕ → Bool
row_valid image slot count destination source = not (
    leb 256 slot
    || leb (2 ^ image.count_bits) count
    || not (fits destination count image.space_bits)
    || not (fits source count image.space_bits)
    || leb image.space_bits destination
    || leb image.space_bits source)

-- The three fields of a row at `at`.
pub write_row : CopyImage → ℕ → ℕ → ℕ → ℕ → Option Bytes
write_row image at count destination source = do
  m1 ← field image.buffer at image.count_bits count
  m2 ← field m1 (at + image.count_bits) image.address_bits destination
  field m2 (at + image.count_bits + image.address_bits) image.address_bits source

pub cs_copy_row : CopyImage → ℕ → ℕ → ℕ → ℕ → Answer
cs_copy_row image slot count destination source =
    if row_valid image slot count destination source
    then (do
      m ← write_row image (image.layer + slot * image.instruction_bits) count destination source
      some (true, with_buffer image m))
    else refuse image

-- `++image->slot` after a row that was written.
abbrev pub count_slot : Bool × CopyImage → Answer
count_slot (true, image) = some (true, record image { slot = image.slot + 1 })
count_slot (false, image) = some (false, image)

pub cs_copy_emit : CopyImage → ℕ → ℕ → ℕ → Answer
cs_copy_emit image count destination source =
    if leb 255 image.slot
    then refuse image
    else cs_copy_row image image.slot count destination source >>= count_slot
