-- ===== src/Rv32/Execute.antt =====
-- legacy/src/vm/rv32.c: `rv32_guest_step`, with a definition for each opcode. Each returns the machine
-- after the step; `rv32_guest_step` itself always answers 0.
use copy_space.Base.{ℕ, ◌+◌, ◌*◌, ◌%◌, ◌^◌, Option, none, some}
use copy_space.Base.{Bool, true, false, not, ◌||◌, ◌>>=◌, ltb, ◌==◌, if◌then◌else◌, bit_and}
use copy_space.Memory.{Bytes}
use copy_space.Field.{u32}
use copy_space.Rv32.{
  StopReason, rv_stop_halt, rv_stop_unsupported, rv_stop_bounds, reason_code, TraceRecord, Vm, g_pc,
  g_reg_base, g_mem_base, rd_u8, rd_u16_le, rd_u32_le, wr_u8, wr_u16_le, wr_u32_le, sext_imm8,
  sext_imm16, int32_sum, rv_trace_pack_meta, rv_trace_pack_flags, rv32_trace_append,
  rv32_guest_stop, rv32_guest_commit, AddrCheck, stopped, passed, rv32_addr_check,
}
use copy_space.Rv32.Decode.{
  funct3_of, funct7_of, rd_of, rs1_of, rs2_of, imm_i, imm_s, imm_b, imm_j, op_imm_value, op_value,
  branch_taken,
}

-- The address of a register.
abbrev pub register : ℕ → ℕ
register i = g_reg_base + i * 32

abbrev pub with_space : Vm → Bytes → Vm
with_space vm m = record vm { space = m }

-- An instruction that stops the guest: the trace first, then the machine.
unfoldable pub stop_traced : Vm → TraceRecord → StopReason → Option Vm
stop_traced vm tr reason = do
  vm' ←
      rv32_trace_append vm
        (record tr { flags = rv_trace_pack_flags false false true 0 (reason_code reason) })
  rv32_guest_stop vm' reason

-- `if (rd != 0u) wr_u32_le(vm, G_REG_BASE + (bitaddr_t)rd * 32u, rdv);`.
unfoldable pub write_register : Bytes → ℕ → ℕ → Option Bytes
write_register m rd v = if rd == 0 then some m else wr_u32_le m (register rd) v

-- How an instruction with a result ends.
unfoldable pub write_back : Vm → TraceRecord → ℕ → ℕ → ℕ → ℕ → Option Vm
write_back vm tr rd v width next_pc = do
  m ← write_register vm.space rd v
  let flags = rv_trace_pack_flags (not (rd == 0)) false false width 0
  vm' ← rv32_trace_append (with_space vm m) (record tr { rd_value = v; flags = flags })
  rv32_guest_commit vm' next_pc

unfoldable pub lui : Vm → TraceRecord → ℕ → ℕ → Option Vm
lui vm tr pc insn =
    let rd = rd_of insn in
    let imm = bit_and insn 0xfffff000 in
    write_back vm (record tr { imm = imm; meta = rv_trace_pack_meta 0x37 0 0 rd 0 0 }) rd imm 0
      (u32 (pc + 4))

unfoldable pub auipc : Vm → TraceRecord → ℕ → ℕ → Option Vm
auipc vm tr pc insn =
    let rd = rd_of insn in
    let imm = bit_and insn 0xfffff000 in
    write_back vm (record tr { imm = imm; meta = rv_trace_pack_meta 0x17 0 0 rd 0 0 }) rd
      (u32 (pc + imm)) 0 (u32 (pc + 4))

-- The end of OP-IMM and OP: the value, if the operation is supported.
abbrev pub computed : Vm → TraceRecord → ℕ → ℕ → Option ℕ → Option Vm
computed vm tr pc rd (some v) = write_back vm tr rd v 0 (u32 (pc + 4))
computed vm tr pc rd none = stop_traced vm tr rv_stop_unsupported

unfoldable pub op_imm : Vm → TraceRecord → ℕ → ℕ → Option Vm
op_imm vm tr pc insn = do
  let rd = rd_of insn
  let rs1 = rs1_of insn
  let imm = imm_i insn
  rs1v ← rd_u32_le vm.space (register rs1)
  let meta = rv_trace_pack_meta 0x13 (funct3_of insn) (funct7_of insn) rd rs1 0
  value ← op_imm_value insn rs1v imm
  computed vm (record tr { imm = imm; meta = meta }) pc rd value

unfoldable pub op : Vm → TraceRecord → ℕ → ℕ → Option Vm
op vm tr pc insn = do
  let rd = rd_of insn
  let rs1 = rs1_of insn
  let rs2 = rs2_of insn
  a ← rd_u32_le vm.space (register rs1)
  b ← rd_u32_le vm.space (register rs2)
  let meta = rv_trace_pack_meta 0x33 (funct3_of insn) (funct7_of insn) rd rs1 rs2
  computed vm (record tr { meta = meta }) pc rd (op_value insn a b)

-- A failed `rv32_addr_check` is traced after the machine stopped.
unfoldable pub check_failed : Vm → TraceRecord → ℕ → Option Vm
check_failed vm tr width = rv32_trace_append vm (record tr {
  flags = rv_trace_pack_flags false false true width (reason_code vm.rv_guest_stop_reason);
})

-- What a LOAD reads, by `funct3`: the width in bytes, and the value at an address.
unfoldable pub load_width : ℕ → Option ℕ
load_width funct3 =
    if funct3 == 0 || funct3 == 4
    then some 1
    else if funct3 == 1 || funct3 == 5
    then some 2
    else if funct3 == 2
    then some 4
    else none

unfoldable pub load_value : ℕ → Bytes → ℕ → Option ℕ
load_value funct3 m ga =
    if funct3 == 0
    then (do x ← rd_u8 m ga; some (sext_imm8 x))
    else if funct3 == 1
    then (do x ← rd_u16_le m ga; some (sext_imm16 x))
    else if funct3 == 2
    then rd_u32_le m ga
    else if funct3 == 4
    then rd_u8 m ga
    else rd_u16_le m ga

abbrev pub load_checked : Vm → TraceRecord → ℕ → ℕ → ℕ → AddrCheck → Option Vm
load_checked vm tr pc insn width (stopped vm') = check_failed vm' tr width
load_checked vm tr pc insn width (passed ga) = do
  v ← load_value (funct3_of insn) vm.space ga
  write_back vm tr (rd_of insn) v width (u32 (pc + 4))

abbrev pub load_from : Vm → TraceRecord → ℕ → ℕ → ℕ → Option ℕ → Option Vm
load_from vm tr pc insn addr none = stop_traced vm tr rv_stop_unsupported
load_from vm tr pc insn addr (some width) =
    rv32_addr_check vm addr width width >>= load_checked vm tr pc insn width

unfoldable pub load_op : Vm → TraceRecord → ℕ → ℕ → Option Vm
load_op vm tr pc insn = do
  let rs1 = rs1_of insn
  let imm = imm_i insn
  base ← rd_u32_le vm.space (register rs1)
  addr ← int32_sum base imm
  let meta = rv_trace_pack_meta 0x03 (funct3_of insn) 0 (rd_of insn) rs1 0
  load_from vm (record tr { imm = imm; meta = meta }) pc insn addr (load_width (funct3_of insn))

unfoldable pub store_width : ℕ → Option ℕ
store_width funct3 =
    if funct3 == 0
    then some 1
    else if funct3 == 1
    then some 2
    else if funct3 == 2
    then some 4
    else none

unfoldable pub store_value : ℕ → Bytes → ℕ → ℕ → Option Bytes
store_value funct3 m ga v =
    if funct3 == 0
    then wr_u8 m ga (bit_and v 255)
    else if funct3 == 1
    then wr_u16_le m ga (bit_and v 65535)
    else wr_u32_le m ga v

abbrev pub store_checked : Vm → TraceRecord → ℕ → ℕ → ℕ → ℕ → ℕ → AddrCheck → Option Vm
store_checked vm tr pc insn addr v width (stopped vm') = check_failed vm' tr width
store_checked vm tr pc insn addr v width (passed ga) = do
  m ← store_value (funct3_of insn) vm.space ga v
  let flags = rv_trace_pack_flags false true false width 0
  vm' ←
      rv32_trace_append (with_space vm m)
        (record tr { mem_addr = addr; mem_value = v; flags = flags })
  rv32_guest_commit vm' (u32 (pc + 4))

abbrev pub store_to : Vm → TraceRecord → ℕ → ℕ → ℕ → ℕ → Option ℕ → Option Vm
store_to vm tr pc insn addr v none = stop_traced vm tr rv_stop_unsupported
store_to vm tr pc insn addr v (some width) =
    rv32_addr_check vm addr width width >>= store_checked vm tr pc insn addr v width

unfoldable pub store_op : Vm → TraceRecord → ℕ → ℕ → Option Vm
store_op vm tr pc insn = do
  let rs1 = rs1_of insn
  let rs2 = rs2_of insn
  let imm = imm_s insn
  base ← rd_u32_le vm.space (register rs1)
  addr ← int32_sum base imm
  v ← rd_u32_le vm.space (register rs2)
  let meta = rv_trace_pack_meta 0x23 (funct3_of insn) 0 0 rs1 rs2
  store_to vm (record tr { imm = imm; meta = meta }) pc insn addr v (store_width (funct3_of insn))

-- An instruction that only moves the program counter.
unfoldable pub jump_traced : Vm → TraceRecord → ℕ → Option Vm
jump_traced vm tr next_pc = do
  vm' ← rv32_trace_append vm (record tr { flags = rv_trace_pack_flags false false false 0 0 })
  rv32_guest_commit vm' next_pc

abbrev pub branched : Vm → TraceRecord → ℕ → ℕ → Option Bool → Option Vm
branched vm tr pc imm none = stop_traced vm tr rv_stop_unsupported
branched vm tr pc imm (some true) = int32_sum pc imm >>= jump_traced vm tr
branched vm tr pc imm (some false) = jump_traced vm tr (u32 (pc + 4))

unfoldable pub branch : Vm → TraceRecord → ℕ → ℕ → Option Vm
branch vm tr pc insn = do
  let funct3 = funct3_of insn
  let rs1 = rs1_of insn
  let rs2 = rs2_of insn
  let imm = imm_b insn
  a ← rd_u32_le vm.space (register rs1)
  b ← rd_u32_le vm.space (register rs2)
  let meta = rv_trace_pack_meta 0x63 funct3 0 0 rs1 rs2
  branched vm (record tr { imm = imm; meta = meta }) pc imm (branch_taken funct3 a b)

unfoldable pub jal : Vm → TraceRecord → ℕ → ℕ → Option Vm
jal vm tr pc insn =
    let rd = rd_of insn in
    let imm = imm_j insn in
    int32_sum pc imm
    >>= write_back vm (record tr { imm = imm; meta = rv_trace_pack_meta 0x6f 0 0 rd 0 0 }) rd
        (u32 (pc + 4)) 0

unfoldable pub jalr : Vm → TraceRecord → ℕ → ℕ → Option Vm
jalr vm tr pc insn = do
  let rd = rd_of insn
  let rs1 = rs1_of insn
  let funct3 = funct3_of insn
  let imm = imm_i insn
  base ← rd_u32_le vm.space (register rs1)
  sum ← int32_sum base imm
  let target = bit_and sum 0xfffffffe
  let tr' = record tr { imm = imm; meta = rv_trace_pack_meta 0x67 funct3 0 rd rs1 0 }
  if funct3 == 0
      then write_back vm tr' rd (u32 (pc + 4)) 0 target
      else stop_traced vm tr' rv_stop_unsupported

unfoldable pub dispatch : Vm → TraceRecord → ℕ → ℕ → Option Vm
dispatch vm tr pc insn =
    let opcode = bit_and insn 0x7f in
    if opcode == 0x37
    then lui vm tr pc insn
    else if opcode == 0x17
    then auipc vm tr pc insn
    else if opcode == 0x13
    then op_imm vm tr pc insn
    else if opcode == 0x33
    then op vm tr pc insn
    else if opcode == 0x03
    then load_op vm tr pc insn
    else if opcode == 0x23
    then store_op vm tr pc insn
    else if opcode == 0x63
    then branch vm tr pc insn
    else if opcode == 0x6f
    then jal vm tr pc insn
    else if opcode == 0x67
    then jalr vm tr pc insn
    else stop_traced vm tr rv_stop_unsupported

-- The record after `memset`, with the program counter and the steps so far.
abbrev pub blank_record : ℕ → ℕ → TraceRecord
blank_record pc step = record {
  step = step;
  pc = pc;
  instr = 0;
  imm = 0;
  rd_value = 0;
  mem_addr = 0;
  mem_value = 0;
  meta = 0;
  flags = 0;
}

-- An instruction that was fetched.
unfoldable pub fetched : Vm → ℕ → ℕ → Option Vm
fetched vm pc insn =
    if insn == 0
    then stop_traced vm (blank_record pc (u32 vm.rv_guest_steps)) rv_stop_halt
    else let steps = (vm.rv_guest_steps + 1) % 2 ^ 64 in
      dispatch (record vm { rv_guest_steps = steps })
        (record (blank_record pc (u32 steps)) { instr = insn }) pc insn

unfoldable pub rv32_guest_step : Vm → Option Vm
rv32_guest_step vm = do
  pc ← rd_u32_le vm.space g_pc
  let insn_addr = g_mem_base + pc * 8
  if ltb vm.space_bits (insn_addr + 32)
      then stop_traced vm (blank_record pc (u32 vm.rv_guest_steps)) rv_stop_bounds
      else rd_u32_le vm.space insn_addr >>= fetched vm pc
