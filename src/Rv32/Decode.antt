-- ===== src/Rv32/Decode.antt =====
-- The fields of an RV32I instruction and the values that its operations compute.
use copy_space.Base.{ℕ, ◌+◌, ◌-◌, ◌^◌, Option, none, some}
use copy_space.Base.{Bool, not, ◌&&◌, ◌>>=◌, ltb, ◌==◌, if◌then◌else◌, bit_and, bit_or, bit_xor}
use copy_space.Memory.{shl, shr}
use copy_space.Field.{u32}
use copy_space.Rv32.{int32_sum, int32_shr, int32_less, sext_imm12, sext_imm13, sext_imm21}

abbrev pub funct3_of : ℕ → ℕ
funct3_of insn = bit_and (shr insn 12) 0x7

abbrev pub funct7_of : ℕ → ℕ
funct7_of insn = bit_and (shr insn 25) 0x7f

abbrev pub rd_of : ℕ → ℕ
rd_of insn = bit_and (shr insn 7) 0x1f

abbrev pub rs1_of : ℕ → ℕ
rs1_of insn = bit_and (shr insn 15) 0x1f

abbrev pub rs2_of : ℕ → ℕ
rs2_of insn = bit_and (shr insn 20) 0x1f

abbrev pub imm_i : ℕ → ℕ
imm_i insn = sext_imm12 (shr insn 20)

abbrev pub imm_s : ℕ → ℕ
imm_s insn = sext_imm12 (bit_or (rd_of insn) (shl (funct7_of insn) 5))

abbrev pub imm_b : ℕ → ℕ
imm_b insn = sext_imm13 (
    bit_or
      (bit_or (bit_or (shl (bit_and (shr insn 31) 0x1) 12) (shl (bit_and (shr insn 7) 0x1) 11))
        (shl (bit_and (shr insn 25) 0x3f) 5))
      (shl (bit_and (shr insn 8) 0xf) 1))

abbrev pub imm_j : ℕ → ℕ
imm_j insn = sext_imm21 (
    bit_or
      (bit_or (bit_or (shl (bit_and (shr insn 31) 0x1) 20) (shl (bit_and (shr insn 12) 0xff) 12))
        (shl (bit_and (shr insn 20) 0x1) 11))
      (shl (bit_and (shr insn 21) 0x3ff) 1))

-- The value of an OP-IMM instruction other than ADDI, `none` where it is not supported.
unfoldable pub op_imm_other : ℕ → ℕ → ℕ → Option ℕ
op_imm_other insn rs1v imm =
    let funct3 = funct3_of insn in
    let funct7 = funct7_of insn in
    let shamt = bit_and (shr insn 20) 0x1f in
    if funct3 == 2
    then some (if int32_less rs1v imm then 1 else 0)
    else if funct3 == 3
    then some (if ltb rs1v imm then 1 else 0)
    else if funct3 == 4
    then some (bit_xor rs1v imm)
    else if funct3 == 6
    then some (bit_or rs1v imm)
    else if funct3 == 7
    then some (bit_and rs1v imm)
    else if funct3 == 1
    then if shr insn 25 == 0 then some (u32 (shl rs1v shamt)) else none
    else if funct3 == 5
    then if funct7 == 0x00
      then some (shr rs1v shamt)
      else if funct7 == 0x20
      then some (int32_shr rs1v shamt)
      else none
    else none

-- The value of an OP-IMM instruction: the outer `none` is an undefined sum.
unfoldable pub op_imm_value : ℕ → ℕ → ℕ → Option (Option ℕ)
op_imm_value insn rs1v imm =
    if funct3_of insn == 0
    then (do v ← int32_sum rs1v imm; some (some v))
    else some (op_imm_other insn rs1v imm)

-- The value of an OP instruction.
unfoldable pub op_value : ℕ → ℕ → ℕ → Option ℕ
op_value insn a b =
    let funct3 = funct3_of insn in
    let funct7 = funct7_of insn in
    let shamt = bit_and b 0x1f in
    if funct7 == 0x00 && funct3 == 0
    then some (u32 (a + b))
    else if funct7 == 0x20 && funct3 == 0
    then some (u32 (a + (2 ^ 32 - b)))
    else if funct7 == 0x00 && funct3 == 1
    then some (u32 (shl a shamt))
    else if funct7 == 0x00 && funct3 == 2
    then some (if int32_less a b then 1 else 0)
    else if funct7 == 0x00 && funct3 == 3
    then some (if ltb a b then 1 else 0)
    else if funct7 == 0x00 && funct3 == 4
    then some (bit_xor a b)
    else if funct7 == 0x00 && funct3 == 5
    then some (shr a shamt)
    else if funct7 == 0x20 && funct3 == 5
    then some (int32_shr a shamt)
    else if funct7 == 0x00 && funct3 == 6
    then some (bit_or a b)
    else if funct7 == 0x00 && funct3 == 7
    then some (bit_and a b)
    else none

-- Whether a BRANCH instruction is taken.
unfoldable pub branch_taken : ℕ → ℕ → ℕ → Option Bool
branch_taken funct3 a b =
    if funct3 == 0
    then some (a == b)
    else if funct3 == 1
    then some (not (a == b))
    else if funct3 == 4
    then some (int32_less a b)
    else if funct3 == 5
    then some (not (int32_less a b))
    else if funct3 == 6
    then some (ltb a b)
    else if funct3 == 7
    then some (not (ltb a b))
    else none
