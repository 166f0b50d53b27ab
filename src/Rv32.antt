-- ===== src/Rv32.antt =====
-- legacy/src/vm/rv32.c: the resident RV32I executor. The registers and the program counter of the
-- guest lie in the bits of space, and its memory is space from bit 0x2000 on.
-- A call is `none` where C leaves the behaviour undefined: an access that leaves space or the trace,
-- and a sum of two `int32_t` that is none. A right shift of an `int32_t` repeats its sign, as gcc and
-- clang compile it.
pub mod Memory
pub mod Decode
pub mod Execute
pub mod Guest
pub mod Decoded
pub mod Values
pub mod State
pub mod Ends
pub mod Access
pub mod Load
pub mod Store
pub mod Step
pub mod Trace
mod Tests
use copy_space.Base.{
  ℕ, zero, suc, ◌+◌, ◌-◌, ◌*◌, ◌/◌, ◌%◌, ◌^◌, Option, none, some, List, [], ◌∷◌, set, length,
}
use copy_space.Base.{
  Bool, true, false, not, ◌&&◌, ◌||◌, ◌>>=◌, ltb, leb, ◌==◌, if◌then◌else◌, bit_and, bit_or,
  bit_xor,
}
use copy_space.Memory.{Bytes, u8, not8, shl, shr, load, store}
use copy_space.Field.{u32}

-- `rv_stop_reason_t`.
pub data StopReason : Type 0 where
  rv_stop_none rv_stop_halt rv_stop_unsupported rv_stop_align rv_stop_bounds : StopReason

abbrev pub reason_code : StopReason → ℕ
reason_code rv_stop_none = 0
reason_code rv_stop_halt = 1
reason_code rv_stop_unsupported = 2
reason_code rv_stop_align = 3
reason_code rv_stop_bounds = 4

-- `rv_trace_record_t`.
pub record TraceRecord : Type 0 where
  pub step : ℕ
  pub pc : ℕ
  pub instr : ℕ
  pub imm : ℕ
  pub rd_value : ℕ
  pub mem_addr : ℕ
  pub mem_value : ℕ
  pub meta : ℕ
  pub flags : ℕ

-- The members of `vm_t` that the executor uses; `halt` is `mmio.halt`.
pub record Vm : Type 0 where
  pub space : Bytes
  pub space_bits : ℕ
  pub halt : ℕ
  pub rv_guest_running : ℕ
  pub rv_guest_steps : ℕ
  pub rv_guest_stop_reason : StopReason
  pub rv_trace_records : List TraceRecord
  pub rv_trace_capacity : ℕ
  pub rv_trace_count : ℕ
  pub rv_trace_dropped : ℕ

abbrev pub g_pc : ℕ
g_pc = 0x1000

abbrev pub g_reg_base : ℕ
g_reg_base = 0x1200

abbrev pub g_mem_base : ℕ
g_mem_base = 0x2000

unfoldable pub rd_u32_le : Bytes → ℕ → Option ℕ
rd_u32_le m at = do
  x0 ← load m (shr at 3)
  x1 ← load m (shr at 3 + 1)
  x2 ← load m (shr at 3 + 2)
  x3 ← load m (shr at 3 + 3)
  some (bit_or (bit_or (bit_or x0 (shl x1 8)) (shl x2 16)) (shl x3 24))

unfoldable pub rd_u16_le : Bytes → ℕ → Option ℕ
rd_u16_le m at = do x0 ← load m (shr at 3); x1 ← load m (shr at 3 + 1); some (bit_or x0 (shl x1 8))

unfoldable pub rd_u8 : Bytes → ℕ → Option ℕ
rd_u8 m at = load m (shr at 3)

unfoldable pub wr_u32_le : Bytes → ℕ → ℕ → Option Bytes
wr_u32_le m at v = do
  m1 ← store m (shr at 3) (bit_and v 255)
  m2 ← store m1 (shr at 3 + 1) (bit_and (shr v 8) 255)
  m3 ← store m2 (shr at 3 + 2) (bit_and (shr v 16) 255)
  store m3 (shr at 3 + 3) (bit_and (shr v 24) 255)

unfoldable pub wr_u16_le : Bytes → ℕ → ℕ → Option Bytes
wr_u16_le m at v = do
  m1 ← store m (shr at 3) (bit_and v 255)
  store m1 (shr at 3 + 1) (bit_and (shr v 8) 255)

unfoldable pub wr_u8 : Bytes → ℕ → ℕ → Option Bytes
wr_u8 m at v = store m (shr at 3) v

-- `(uint32_t)((int32_t)x >> k)`.
unfoldable pub int32_shr : ℕ → ℕ → ℕ
int32_shr x k = if ltb x (2 ^ 31) then shr x k else 2 ^ 32 - 2 ^ (32 - k) + shr x k

-- `(int32_t)a < (int32_t)b`.
unfoldable pub int32_less : ℕ → ℕ → Bool
int32_less a b = if ltb a (2 ^ 31) then ltb b (2 ^ 31) && ltb a b else ltb b (2 ^ 31) || ltb a b

-- `(int32_t)a + (int32_t)b` is no `int32_t`.
unfoldable pub int32_overflows : ℕ → ℕ → Bool
int32_overflows a b =
    if ltb a (2 ^ 31)
    then ltb b (2 ^ 31) && leb (2 ^ 31) (a + b)
    else leb (2 ^ 31) b && ltb (a + b) (2 ^ 32 + 2 ^ 31)

-- `(uint32_t)((int32_t)a + (int32_t)b)`.
unfoldable pub int32_sum : ℕ → ℕ → Option ℕ
int32_sum a b = if int32_overflows a b then none else some (u32 (a + b))

-- The results of the sign extensions are given as `uint32_t`.
unfoldable pub sext_imm12 : ℕ → ℕ
sext_imm12 x = int32_shr (u32 (shl x 20)) 20

unfoldable pub sext_imm13 : ℕ → ℕ
sext_imm13 x = int32_shr (u32 (shl x 19)) 19

unfoldable pub sext_imm21 : ℕ → ℕ
sext_imm21 x = int32_shr (u32 (shl x 11)) 11

unfoldable pub sext_imm16 : ℕ → ℕ
sext_imm16 x = int32_shr (u32 (shl x 16)) 16

unfoldable pub sext_imm8 : ℕ → ℕ
sext_imm8 x = int32_shr (u32 (shl x 24)) 24

unfoldable pub rv_trace_pack_meta : ℕ → ℕ → ℕ → ℕ → ℕ → ℕ → ℕ
rv_trace_pack_meta opcode funct3 funct7 rd rs1 rs2 =
    bit_or
      (bit_or
        (bit_or
          (bit_or (bit_or (bit_and opcode 0x7f) (shl (bit_and funct3 0x7) 7))
            (shl (bit_and funct7 0x7f) 10))
          (shl (bit_and rd 0x1f) 17))
        (shl (bit_and rs1 0x1f) 22))
      (u32 (shl (bit_and rs2 0x1f) 27))

unfoldable pub rv_trace_pack_flags : Bool → Bool → Bool → ℕ → ℕ → ℕ
rv_trace_pack_flags has_rd has_mem_write has_stop_reason mem_width_bytes stop_reason =
    bit_or
      (bit_or
        (bit_or (bit_or (if has_rd then 1 else 0) (if has_mem_write then 2 else 0))
          (if has_stop_reason then 4 else 0))
        (shl (bit_and mem_width_bytes 255) 8))
      (shl (bit_and stop_reason 255) 16)

unfoldable pub rv32_trace_reset : Vm → Vm
rv32_trace_reset vm = record vm { rv_trace_count = 0; rv_trace_dropped = 0 }

unfoldable pub rv32_trace_append : Vm → TraceRecord → Option Vm
rv32_trace_append vm rec =
    if ltb vm.rv_trace_count vm.rv_trace_capacity
    then if ltb vm.rv_trace_count (length vm.rv_trace_records)
      then some (record vm {
        rv_trace_records = set vm.rv_trace_records vm.rv_trace_count rec;
        rv_trace_count = u32 (vm.rv_trace_count + 1);
      })
      else none
    else some (record vm { rv_trace_dropped = u32 (vm.rv_trace_dropped + 1) })

-- `vm_bit_set` of space.c.
unfoldable pub vm_bit_set : Bytes → ℕ → Bool → Option Bytes
vm_bit_set m pos v = do
  b ← load m (shr pos 3)
  let mask = u8 (shl 1 (7 - bit_and pos 7))
  store m (shr pos 3) (if v then bit_or b mask else bit_and b (not8 mask))

unfoldable pub rv32_guest_stop : Vm → StopReason → Option Vm
rv32_guest_stop vm reason = do
  m ← vm_bit_set vm.space vm.halt true
  some (record vm { space = m; rv_guest_stop_reason = reason; rv_guest_running = 0 })

unfoldable pub rv32_guest_commit : Vm → ℕ → Option Vm
rv32_guest_commit vm next_pc = do
  m1 ← wr_u32_le vm.space g_pc next_pc
  m2 ← wr_u32_le m1 (g_reg_base + 0) 0
  some (record vm { space = m2 })

-- What `rv32_addr_check` answers: the machine stopped, or the address in bits.
pub data AddrCheck : Type 0 where
  stopped : Vm → AddrCheck
  passed : ℕ → AddrCheck

unfoldable pub rv32_addr_check : Vm → ℕ → ℕ → ℕ → Option AddrCheck
rv32_addr_check vm addr width_bytes align_bytes =
    let guest_addr = g_mem_base + addr * 8 in
    if ltb 1 align_bytes && not (bit_and addr (align_bytes - 1) == 0)
    then (do vm' ← rv32_guest_stop vm rv_stop_align; some (stopped vm'))
    else if ltb vm.space_bits (guest_addr + width_bytes * 8)
    then (do vm' ← rv32_guest_stop vm rv_stop_bounds; some (stopped vm'))
    else some (passed guest_addr)
