-- ===== src/CopyEmit/Program.antt =====
-- runtime/gcc/copy_emit.c: a program of several layers, each of which loads the next.
use copy_space.Base.{ℕ, zero, suc, ◌+◌, ◌-◌, ◌*◌, ◌/◌, ◌%◌, ◌^◌, Option, none, some, List, [], ◌∷◌}
use copy_space.Base.{Bool, true, false, not, ◌&&◌, ◌||◌, ◌>>=◌, ltb, leb, ◌==◌, if◌then◌else◌}
use copy_space.Memory.{Bytes, load}
use copy_space.Field.{u32}
use copy_space.CopyEmit.{
  CopyImage, fits, with_buffer, row_valid, cs_copy_image_init, cs_copy_row, cs_copy_emit,
}
use copy_space.CopyEmit.Code.{
  Operands, Range, add_ranges, overlaps, add_valid, arithmetic32, BitOperation, bits_valid,
  cs_copy_bits32,
}

-- `struct cs_copy_program`.
pub record CopyProgram : Type 0 where
  pub image : CopyImage
  pub code_begin : ℕ
  pub code_end : ℕ
  pub code_limit : ℕ

-- Whether a call answered 0, and the program after it.
abbrev pub ProgramAnswer : Type 0
ProgramAnswer = Option (Bool × CopyProgram)

abbrev pub refuse_program : CopyProgram → ProgramAnswer
refuse_program p = some (false, p)

abbrev pub with_image : CopyProgram → CopyImage → CopyProgram
with_image p image = record p { image = image }

-- An answer about the image of a program.
abbrev pub lifted : CopyProgram → Bool × CopyImage → ProgramAnswer
lifted p (answer, image) = some (answer, with_image p image)

-- The arguments that `cs_copy_program_init` refuses before it looks at the image.
unfoldable pub program_refused : ℕ → ℕ → ℕ → ℕ → Bool
program_refused bytes address_bits code_begin code_limit =
    ltb address_bits 2
    || ltb 31 address_bits
    || ltb ((2 ^ 32 - 1) / 8) bytes
    || (let layer_bits = u32 (256 * (3 * address_bits - 1)) in
        ltb code_begin layer_bits
        || ltb (bytes * 8) code_limit
        || ltb code_limit code_begin
        || not (fits code_begin layer_bits code_limit)
        || leb (2 ^ (address_bits - 1)) layer_bits)

abbrev pub started : ℕ → ℕ → Option CopyImage → Option CopyProgram
started code_begin code_limit none = none
started code_begin code_limit (some image) = some (record {
  image = image;
  code_begin = code_begin;
  code_end = u32 (code_begin + image.layer_bits);
  code_limit = code_limit;
})

unfoldable pub cs_copy_program_init : Bytes → ℕ → ℕ → ℕ → ℕ → Option (Option CopyProgram)
cs_copy_program_init m bytes address_bits code_begin code_limit =
    if program_refused bytes address_bits code_begin code_limit then some none else do
      image ← cs_copy_image_init m bytes address_bits code_begin
      some (started code_begin code_limit image)

-- The end of `cs_copy_program_next`: the old layer gets the row that loads the new one, in the
-- buffer that both share.
unfoldable pub chain : CopyProgram → Option CopyImage → ProgramAnswer
chain p none = refuse_program p
chain p (some next) = do
  r ← cs_copy_row (with_buffer p.image next.buffer) 255 p.image.layer_bits 0 p.code_end
  some (
    true,
    record p { image = with_buffer next r.1.buffer; code_end = u32 (p.code_end + next.layer_bits) },
  )

unfoldable pub cs_copy_program_next : CopyProgram → ProgramAnswer
cs_copy_program_next p =
    if fits p.code_end p.image.layer_bits p.code_limit
      && row_valid p.image 255 p.image.layer_bits 0 p.code_end
    then cs_copy_image_init p.image.buffer p.image.bytes p.image.address_bits p.code_end >>= chain p
    else refuse_program p

unfoldable pub room : CopyProgram → ℕ → ProgramAnswer
room p count =
    if ltb 252 count
    then refuse_program p
    else if leb p.image.slot (255 - count)
    then some (true, p)
    else cs_copy_program_next p

-- What follows a test that may have moved the program to its next layer.
abbrev pub if_room : (CopyProgram → ProgramAnswer) → Bool × CopyProgram → ProgramAnswer
if_room next (true, p) = next p
if_room next (false, p) = refuse_program p

-- The answer of `cs_copy_row` on the layer at `layer`; the program's image keeps its own layer.
abbrev pub patched : CopyProgram → Bool × CopyImage → ProgramAnswer
patched p (answer, image) = some (answer, with_image p (with_buffer p.image image.buffer))

unfoldable pub cs_copy_program_patch_jump : CopyProgram → ℕ → ℕ → ProgramAnswer
cs_copy_program_patch_jump p layer target =
    if ltb layer p.code_begin
      || ltb target p.code_begin
      || leb p.code_end layer
      || leb p.code_end target
      || not ((layer - p.code_begin) % p.image.layer_bits == 0)
      || not ((target - p.code_begin) % p.image.layer_bits == 0)
    then refuse_program p
    else cs_copy_row (record p.image { layer = layer }) 255 p.image.layer_bits 0 target
      >>= patched p

unfoldable pub cs_copy_program_emit : CopyProgram → ℕ → ℕ → ℕ → ProgramAnswer
cs_copy_program_emit p count destination source =
    if row_valid p.image 3 count destination source
    then (room p 1 >>= if_room (λ p'. cs_copy_emit p'.image count destination source >>= lifted p'))
    else refuse_program p

-- Whether an operand meets the code area.
unfoldable pub meets_code : CopyProgram → List Range → Bool
meets_code p [] = false
meets_code p ((a, n) ∷ rs) =
    overlaps a n p.code_begin (p.code_limit - p.code_begin) || meets_code p rs

abbrev pub probe : CopyProgram → CopyImage
probe p = record p.image { slot = 3 }

unfoldable pub program_arithmetic32 : CopyProgram → Bool → Operands → ProgramAnswer
program_arithmetic32 p subtract x =
    if meets_code p (add_ranges x) || not (add_valid (probe p) x)
    then refuse_program p
    else room p 193 >>= if_room λ p'. arithmetic32 p'.image subtract x >>= lifted p'

unfoldable pub cs_copy_program_add32 : CopyProgram → Operands → ProgramAnswer
cs_copy_program_add32 p x = program_arithmetic32 p false x

unfoldable pub cs_copy_program_sub32 : CopyProgram → Operands → ProgramAnswer
cs_copy_program_sub32 p x = program_arithmetic32 p true x

unfoldable pub cs_copy_program_bits32 : CopyProgram → BitOperation → ℕ → ℕ → ℕ → ℕ → ProgramAnswer
cs_copy_program_bits32 p operation destination left right table =
    if meets_code p ((destination, 32) ∷ (left, 32) ∷ (right, 32) ∷ (table, 4) ∷ [])
      || not (bits_valid (probe p) destination left right table)
    then refuse_program p
    else room p 96
      >>= if_room λ p'. cs_copy_bits32 p'.image operation destination left right table >>= lifted p'

-- The loop that looks for a byte other than 0; the result is whether all of them are 0.
unfoldable pub all_zero : Bytes → ℕ → ℕ → Option Bool
all_zero m i zero = some true
all_zero m i (suc left) = do x ← load m i; if x == 0 then all_zero m (i + 1) left else some false

-- The boot row, in the layer at 0, after the last row of the program.
unfoldable pub boot_row : CopyProgram → ℕ → Option CopyImage → ProgramAnswer
boot_row p zero_layer none = refuse_program p
boot_row p zero_layer (some boot) = do
  r ← cs_copy_row (with_buffer p.image boot.buffer) 255 p.image.layer_bits 0 zero_layer
  b ← cs_copy_row (with_buffer boot r.1.buffer) 255 boot.layer_bits 0 p.code_begin
  some (b.0, with_image p (with_buffer p.image b.1.buffer))

unfoldable pub cs_copy_program_finish : CopyProgram → ℕ → ProgramAnswer
cs_copy_program_finish p zero_layer =
    if not (zero_layer % 8 == 0)
      || not (fits zero_layer p.image.layer_bits (u32 (p.image.bytes * 8)))
      || overlaps zero_layer p.image.layer_bits 0 p.image.layer_bits
      || overlaps zero_layer p.image.layer_bits p.code_begin (p.code_limit - p.code_begin)
    then refuse_program p
    else (do
      blank ← all_zero p.image.buffer (zero_layer / 8) (p.image.layer_bits / 8)
      if blank
          then cs_copy_image_init p.image.buffer p.image.bytes p.image.address_bits 0
            >>= boot_row p zero_layer
          else refuse_program p)
