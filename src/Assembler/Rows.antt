-- ===== src/Assembler/Rows.antt =====
-- An emitted row is the instruction that the emulator fetches from its slot.
use copy_space.Base.{
  ℕ, ◌+◌, ◌*◌, ◌<◌, ◌≤◌, ◌≡◌, refl, ◌∙◌, arith, length, leb, Bool-cases, inl, inr,
}
use copy_space.Memory.{Bytes}
use copy_space.BitCopy.Spec.{Returns}
use copy_space.Config.{
  Config, IsConfig, space_size, address_size, n_size, instruction_size, n_offset, dst_offset,
  src_offset,
}
use copy_space.Field.Encode.{write_field_bits-FieldWritten, read_field-written}
use copy_space.Space.{Instruction}
use copy_space.Space.Valid.{size_parts, slot-le}
use copy_space.Core.Rows.{Spells, Kept, field_kept}
use copy_space.Assembler.Code.{write_code}
use copy_space.Assembler.{Assembly, Result, done, fail, too_many_instructions, emit_instruction}

module _ (c : Config) (v : IsConfig c) where
  write_code-Spells :
      (m : Bytes) (i : ℕ) (r : Instruction)
      → instruction_size c * i + instruction_size c ≤ 8 * length m
      → Returns (write_code c m i r) (λ m'.
        Spells c m' (instruction_size c * i) r
        × Kept (instruction_size c * i) (instruction_size c) m m')
  unfolding write_code
  write_code-Spells m i r h =
      let parts = size_parts c v in
      let at = instruction_size c * i in
      let (m1, e1, w1) =
        write_field_bits-FieldWritten m (at + n_offset c) r.n (n_size c) (omega (arith, parts)) in
      let (m2, e2, w2) =
        write_field_bits-FieldWritten m1 (at + dst_offset c) r.dst (address_size c)
          (omega (arith, parts, w1.same_length)) in
      let (m3, e3, w3) =
        write_field_bits-FieldWritten m2 (at + src_offset c) r.src (address_size c)
          (omega (arith, parts, w1.same_length, w2.same_length)) in
      (
        m3,
        rw (e1, e2) e3,
        (
          record {
            n =
                field_kept m1 m3 _ _ _
                  (λ q h k. w3.below q (omega (arith, parts)) ∙ w2.below q (omega (arith, parts)))
                  (read_field-written m m1 _ _ _ w1);
            dst =
                field_kept m2 m3 _ _ _ (λ q h k. w3.below q (omega (arith, parts)))
                  (read_field-written m1 m2 _ _ _ w2);
            src = read_field-written m2 m3 _ _ _ w3;
          },
          record {
            same_length = w3.same_length ∙ w2.same_length ∙ w1.same_length;
            below = λ q k.
                w3.below q (omega (arith, parts))
                ∙ w2.below q (omega (arith, parts))
                ∙ w1.below q (omega (arith, parts));
            above = λ q k.
                w3.above q (omega (arith, parts))
                ∙ w2.above q (omega (arith, parts))
                ∙ w1.above q (omega (arith, parts));
          },
        ),
      )

-- The two ways in which `emit_instruction` ends.
pub data Emitted (c : Config) (s : Assembly) (r : Instruction) : Result Assembly → Type 0 where
  no_slot : c.processor_n ≤ s.instruction_n → Emitted c s r (fail too_many_instructions)
  row_emitted :
      {s' : Assembly}
      → s.instruction_n < c.processor_n
      → s'.instruction_n ≡ s.instruction_n + 1
      → s'.symbols ≡ s.symbols
      → Spells c s'.space (instruction_size c * s.instruction_n) r
      → Kept (instruction_size c * s.instruction_n) (instruction_size c) s.space s'.space
      → Emitted c s r (done s')

-- With a valid configuration and a buffer of the size of space, `emit_instruction` never leaves the
-- buffer. It ends the program exactly when all PROCESSOR_N slots are taken. Otherwise the next slot
-- spells the instruction, its numbers cut to the widths of their fields, no bit outside that slot
-- changes, and the count is one higher.
pub emit_instruction-Emitted :
    (c : Config) (s : Assembly) (r : Instruction)
    → IsConfig c
    → 8 * length s.space ≡ space_size c
    → Emitted c s r (emit_instruction c s r)
unfolding emit_instruction
emit_instruction-Emitted c s r v whole = elim (Bool-cases (leb c.processor_n s.instruction_n)) [
  | inl full ↦ rw full (no_slot (ground arith))
  | inr room ↦
      let less : s.instruction_n < c.processor_n = ground arith in
      let turn = commuted (instruction_size c) s.instruction_n in
      let fits : instruction_size c * s.instruction_n + instruction_size c ≤ 8 * length s.space =
        omega (
          arith,
          slot-le s.instruction_n c.processor_n (instruction_size c) less,
          v.processor_fits,
        ) in
      let (m, e, p) = write_code-Spells c v s.space s.instruction_n r fits in
      rw (room, e) (row_emitted less refl refl p.0 p.1)
]
  where
    commuted : (x y : ℕ) → x * y ≡ y * x
    commuted x y = grind arith
