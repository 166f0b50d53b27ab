-- ===== src/Rv32/Decoded.antt =====
-- The fields that the executor decodes are those of RV32I, and so are the values that it computes.
use copy_space.Base.{
  ℕ, ◌+◌, ◌-◌, ◌*◌, ◌/◌, ◌^◌, ◌<◌, ◌≡◌, refl, ap, ◌∙◌, arith, bit_and, bit_or, bit_and-low_mask,
  bit_and-high_mask, bit_or-disjoint, bit_or-above,
}
use copy_space.Memory.{shl, shr}
use copy_space.Rv32.{int32_shr, sext_imm12, sext_imm13, sext_imm21}
use copy_space.Rv32.Decode.{funct3_of, funct7_of, rd_of, rs1_of, rs2_of, imm_i, imm_s, imm_b, imm_j}
use copy_space.Rv32.Guest.{Fields, field, fields_of, signed}

-- The fields as the executor has them.
abbrev pub decoded : ℕ → Fields
decoded insn = record {
  opcode = bit_and insn 0x7f;
  rd = rd_of insn;
  rs1 = rs1_of insn;
  rs2 = rs2_of insn;
  funct3 = funct3_of insn;
  funct7 = funct7_of insn;
  immediate_i = imm_i insn;
  immediate_s = imm_s insn;
  immediate_b = imm_b insn;
  immediate_u = bit_and insn 0xfffff000;
  immediate_j = imm_j insn;
}

sext_imm12-signed : (x : ℕ) → x < 2 ^ 12 → sext_imm12 x ≡ signed 12 x
unfolding sext_imm12 int32_shr
sext_imm12-signed x h = ground arith

sext_imm13-signed : (x : ℕ) → x < 2 ^ 13 → sext_imm13 x ≡ signed 13 x
unfolding sext_imm13 int32_shr
sext_imm13-signed x h = ground arith

sext_imm21-signed : (x : ℕ) → x < 2 ^ 21 → sext_imm21 x ≡ signed 21 x
unfolding sext_imm21 int32_shr
sext_imm21-signed x h = ground arith

module _ (insn : ℕ) (h : insn < 2 ^ 32) where
  i_is : imm_i insn ≡ signed 12 (field insn 20 12)
  i_is =
      ap sext_imm12 {x = shr insn 20} {y = field insn 20 12} (omega arith)
      ∙ sext_imm12-signed (field insn 20 12) (omega arith)

  s_is : imm_s insn ≡ signed 12 (field insn 7 5 + field insn 25 7 * 2 ^ 5)
  s_is =
      let joined : bit_or (rd_of insn) (shl (funct7_of insn) 5)
          ≡ field insn 7 5 + field insn 25 7 * 2 ^ 5 =
        rw (bit_and-low_mask 5 (shr insn 7), bit_and-low_mask 7 (shr insn 25))
          (bit_or-disjoint 5 (field insn 7 5) (field insn 25 7) (omega arith)) in
      ap sext_imm12 joined
      ∙ sext_imm12-signed (field insn 7 5 + field insn 25 7 * 2 ^ 5) (omega arith)

  u_is : bit_and insn 0xfffff000 ≡ field insn 12 20 * 2 ^ 12
  u_is =
      bit_and-high_mask 12 insn (2 ^ 20 - 1)
      ∙ ap (λ t. t * 2 ^ 12) (bit_and-low_mask 20 (insn / 2 ^ 12))

module _ (insn : ℕ) where
  b_joined :
      bit_or
        (bit_or
          (bit_or (shl (bit_and (shr insn 31) 0x1) 12) (shl (bit_and (shr insn 7) 0x1) 11))
          (shl (bit_and (shr insn 25) 0x3f) 5))
        (shl (bit_and (shr insn 8) 0xf) 1)
      ≡ field insn 8 4 * 2
        + field insn 25 6 * 2 ^ 5
        + field insn 7 1 * 2 ^ 11
        + field insn 31 1 * 2 ^ 12
  b_joined =
      let top = bit_or-above 12 (field insn 7 1 * 2 ^ 11) (field insn 31 1) (omega arith) in
      let next =
        bit_or-above 11 (field insn 25 6 * 2 ^ 5) (field insn 31 1 * 2 + field insn 7 1)
          (omega arith) in
      let last =
        bit_or-above 5 (field insn 8 4 * 2 ^ 1)
          (field insn 31 1 * 2 ^ 7 + field insn 7 1 * 2 ^ 6 + field insn 25 6) (omega arith) in
      rw
        (
          bit_and-low_mask 1 (shr insn 31),
          bit_and-low_mask 1 (shr insn 7),
          bit_and-low_mask 6 (shr insn 25),
          bit_and-low_mask 4 (shr insn 8),
        )
        (ap (λ t. bit_or (bit_or t (field insn 25 6 * 2 ^ 5)) (field insn 8 4 * 2 ^ 1)) top
          ∙ ap (λ t. bit_or (bit_or t (field insn 25 6 * 2 ^ 5)) (field insn 8 4 * 2 ^ 1))
              {x = field insn 31 1 * 2 ^ 12 + field insn 7 1 * 2 ^ 11}
              {y = (field insn 31 1 * 2 + field insn 7 1) * 2 ^ 11} (omega arith)
          ∙ ap (λ t. bit_or t (field insn 8 4 * 2 ^ 1)) next
          ∙ ap (λ t. bit_or t (field insn 8 4 * 2 ^ 1))
              {x = (field insn 31 1 * 2 + field insn 7 1) * 2 ^ 11 + field insn 25 6 * 2 ^ 5}
              {y = (field insn 31 1 * 2 ^ 7 + field insn 7 1 * 2 ^ 6 + field insn 25 6) * 2 ^ 5}
              (omega arith)
          ∙ last
          ∙ omega arith)

  b_is : imm_b insn ≡ (fields_of insn).immediate_b
  b_is = ap sext_imm13 b_joined ∙ sext_imm13-signed _ (omega arith)

  j_joined :
      bit_or
        (bit_or
          (bit_or (shl (bit_and (shr insn 31) 0x1) 20) (shl (bit_and (shr insn 12) 0xff) 12))
          (shl (bit_and (shr insn 20) 0x1) 11))
        (shl (bit_and (shr insn 21) 0x3ff) 1)
      ≡ field insn 21 10 * 2
        + field insn 20 1 * 2 ^ 11
        + field insn 12 8 * 2 ^ 12
        + field insn 31 1 * 2 ^ 20
  j_joined =
      let top = bit_or-above 20 (field insn 12 8 * 2 ^ 12) (field insn 31 1) (omega arith) in
      let next =
        bit_or-above 12 (field insn 20 1 * 2 ^ 11) (field insn 31 1 * 2 ^ 8 + field insn 12 8)
          (omega arith) in
      let last =
        bit_or-above 11 (field insn 21 10 * 2 ^ 1)
          (field insn 31 1 * 2 ^ 9 + field insn 12 8 * 2 + field insn 20 1) (omega arith) in
      rw
        (
          bit_and-low_mask 1 (shr insn 31),
          bit_and-low_mask 8 (shr insn 12),
          bit_and-low_mask 1 (shr insn 20),
          bit_and-low_mask 10 (shr insn 21),
        )
        (ap (λ t. bit_or (bit_or t (field insn 20 1 * 2 ^ 11)) (field insn 21 10 * 2 ^ 1)) top
          ∙ ap (λ t. bit_or (bit_or t (field insn 20 1 * 2 ^ 11)) (field insn 21 10 * 2 ^ 1))
              {x = field insn 31 1 * 2 ^ 20 + field insn 12 8 * 2 ^ 12}
              {y = (field insn 31 1 * 2 ^ 8 + field insn 12 8) * 2 ^ 12} (omega arith)
          ∙ ap (λ t. bit_or t (field insn 21 10 * 2 ^ 1)) next
          ∙ ap (λ t. bit_or t (field insn 21 10 * 2 ^ 1))
              {x = (field insn 31 1 * 2 ^ 8 + field insn 12 8) * 2 ^ 12 + field insn 20 1 * 2 ^ 11}
              {y = (field insn 31 1 * 2 ^ 9 + field insn 12 8 * 2 + field insn 20 1) * 2 ^ 11}
              (omega arith)
          ∙ last
          ∙ omega arith)

  j_is : imm_j insn ≡ (fields_of insn).immediate_j
  j_is = ap sext_imm21 j_joined ∙ sext_imm21-signed _ (omega arith)

  opcode_is : bit_and insn 0x7f ≡ field insn 0 7
  opcode_is = omega (arith, bit_and-low_mask 7 insn)

  pub decoded-fields_of : insn < 2 ^ 32 → decoded insn ≡ fields_of insn
  decoded-fields_of h =
      rw (i_is insn h, s_is insn h, b_is, u_is insn h, j_is)
        (rw
          (
            opcode_is,
            bit_and-low_mask 5 (shr insn 7),
            bit_and-low_mask 5 (shr insn 15),
            bit_and-low_mask 5 (shr insn 20),
            bit_and-low_mask 3 (shr insn 12),
            bit_and-low_mask 7 (shr insn 25),
          )
          refl)

  -- The immediates are numbers of 32 bits.
  pub imm_small :
      insn < 2 ^ 32
      → (imm_i insn < 2 ^ 32)
        × (imm_s insn < 2 ^ 32)
        × (imm_b insn < 2 ^ 32)
        × (imm_j insn < 2 ^ 32)
  imm_small h = (
    ground (arith, i_is insn h),
    ground (arith, s_is insn h),
    ground (arith, b_is),
    ground (arith, j_is),
  )
