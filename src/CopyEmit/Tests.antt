-- ===== src/CopyEmit/Tests.antt =====
-- An image of 8192 bytes with its template layer in the second kilobyte, and the theorems on copy
-- code at concrete inputs.
use copy_space.Base.{
  ℕ, ◌+◌, ◌/◌, ◌%◌, ◌^◌, ◌-◌, ◌≤◌, ◌≡◌, refl, arith, true, false, ltb, if◌then◌else◌, some,
  replicate, length-replicate, Bool-cases, inl, inr, [], ◌∷◌, testbit-le-one,
}
use copy_space.Memory.{Bytes, byte_at}
use copy_space.Memory.Bits.{bit_at}
use copy_space.BitCopy.Spec.{Returns}
use copy_space.Field.Encode.{FieldWritten}
use copy_space.Config.{Config, ceil_log2_u32}
use copy_space.Space.Model
use copy_space.Space.Model.{BitSpace, number}
use copy_space.CopyEmit.{CopyImage, field, fits, new_image, cs_copy_row}
use copy_space.CopyEmit.Code.{
  Operands, overlaps, range_refused, meets_any, any_refused, add_valid, arithmetic32, cs_copy_add32,
  cs_copy_sub32,
}
use copy_space.CopyEmit.Rows.{IsImage, RowAnswer, row, cs_copy_row-RowAnswer}
use copy_space.CopyEmit.Field.{field-FieldWritten}
use copy_space.CopyEmit.Machine.{Bits}
use copy_space.CopyEmit.Adds.{ArithmeticAnswer, arithmetic32-Answered}
use copy_space.CopyEmit.Loaded.{Loaded, SameSpace}
use copy_space.CopyEmit.Sums.{accepted_image, cs_copy_add32-Computed, cs_copy_sub32-Computed}
use copy_space.CopyEmit.Execution.{Computed}

abbrev config : Config
config = record { vm_space_bytes = 8192; processor_n = 256 }

abbrev image_bytes : Bytes
image_bytes = replicate 8192 0

abbrev image : CopyImage
image = new_image image_bytes 8192 16 16384

image-IsImage : IsImage image
image-IsImage = record {
  same_bytes = length-replicate {A = ℕ} 8192 0;
  address_low = omega arith;
  address_high = omega arith;
  space_is = refl;
  count_is = refl;
  instruction_is = refl;
  layer_is = refl;
  layer_aligned = refl;
  layer_fits = omega arith;
  bytes_fit = omega arith;
  slot_low = omega arith;
  slot_high = omega arith;
}

abbrev operands : Operands
operands = record {
  destination = 40000;
  left = 40032;
  right = 40064;
  table = 40096;
  temporary = 40112;
  carry = 40114;
}

operands_valid : add_valid image operands ≡ true
unfolding add_valid overlaps range_refused meets_any any_refused fits
operands_valid = refl

-- Space after the template layer was copied to its start.
abbrev loaded : Bytes → BitSpace
loaded m p = if ltb p 12032 then bit_at m (16384 + p) else bit_at m p

bit_at-le : (m : Bytes) (p : ℕ) → bit_at m p ≤ 1
bit_at-le m p = testbit-le-one (byte_at m (p / 8)) (7 - p % 8)

loaded-Bits : (m : Bytes) → Bits (loaded m)
loaded-Bits m p = elim (Bool-cases (ltb p 12032)) [
  | inl e ↦ rw e (bit_at-le m (16384 + p))
  | inr e ↦ rw e (bit_at-le m p)
]

loaded-Loaded : (m : Bytes) → Loaded m 16384 12032 (loaded m)
loaded-Loaded m p h = let low : ltb p 12032 ≡ true = ground arith in rw low refl

loaded_table : (m : Bytes) (i : ℕ) → loaded m (40096 + i) ≡ bit_at m (40096 + i)
loaded_table m i = let high : ltb (40096 + i) 12032 ≡ false = ground arith in rw high refl

same_space : SameSpace config image
unfolding ceil_log2_u32
same_space = record { address = refl; space = refl }

abbrev sum : (image' : CopyImage) × (arithmetic32 image false operands ≡ some (true, image'))
sum = accepted_image false image operands image-IsImage operands_valid

abbrev difference : (image' : CopyImage) × (arithmetic32 image true operands ≡ some (true, image'))
difference = accepted_image true image operands image-IsImage operands_valid

cs_copy_add32-Computed_example :
    Computed image operands
      ((number (loaded sum.0.buffer) 40032 32 + number (loaded sum.0.buffer) 40064 32) % 2 ^ 32)
      (loaded sum.0.buffer)
      (Model.run config 193 3 (loaded sum.0.buffer))
unfolding cs_copy_add32
cs_copy_add32-Computed_example =
    cs_copy_add32-Computed config image operands sum.0 (loaded sum.0.buffer) image-IsImage sum.1
      same_space (loaded-Bits sum.0.buffer) (loaded-Loaded sum.0.buffer)
      (λ i h. loaded_table sum.0.buffer i)

cs_copy_sub32-Computed_example :
    Computed image operands
      ((number (loaded difference.0.buffer) 40032 32
          + (2 ^ 32 - number (loaded difference.0.buffer) 40064 32))
        % 2 ^ 32)
      (loaded difference.0.buffer)
      (Model.run config 193 3 (loaded difference.0.buffer))
unfolding cs_copy_sub32
cs_copy_sub32-Computed_example =
    cs_copy_sub32-Computed config image operands difference.0 (loaded difference.0.buffer)
      image-IsImage difference.1 same_space (loaded-Bits difference.0.buffer)
      (loaded-Loaded difference.0.buffer) (λ i h. loaded_table difference.0.buffer i)

arithmetic32-Answered_example :
    Returns (arithmetic32 image false operands) (ArithmeticAnswer false image operands)
arithmetic32-Answered_example = arithmetic32-Answered false image operands image-IsImage

field-FieldWritten_example :
    Returns
      (field (0xff ∷ 0x00 ∷ 0xff ∷ []) 5 13 2730)
      (FieldWritten 5 2730 0 13 (0xff ∷ 0x00 ∷ 0xff ∷ []))
field-FieldWritten_example = field-FieldWritten (0xff ∷ 0x00 ∷ 0xff ∷ []) 5 13 2730 (omega arith)

cs_copy_row-RowAnswer_example :
    Returns (cs_copy_row image 7 12 40000 40032) (RowAnswer image 7 (row 12 40000 40032))
cs_copy_row-RowAnswer_example = cs_copy_row-RowAnswer image 7 (row 12 40000 40032) image-IsImage
