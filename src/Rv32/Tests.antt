-- ===== src/Rv32/Tests.antt =====
-- A machine with eight bytes of guest memory, and the theorems on the executor at concrete inputs.
use copy_space.Base.{
  ℕ, ◌^◌, ◌<◌, ◌≡◌, refl, arith, length-append, length-replicate, replicate, some, [], ◌∷◌, ◌++◌,
}
use copy_space.Memory.{Bytes}
use copy_space.Rv32.{Vm, rv_stop_none, sext_imm8, sext_imm12, sext_imm13, sext_imm16, sext_imm21}
use copy_space.Rv32.Execute.{blank_record}
use copy_space.Rv32.Guest.{guest_of, effect, opcode_effect, signed_sum, write, signed}
use copy_space.Rv32.State.{IsVm, memory_size}
use copy_space.Rv32.Access.{sext_imm-signed}
use copy_space.Rv32.Trace.{guest_steps, TraceAfter, guest_steps-TraceAfter}

-- ADDI x1, x0, 5, and the word that halts the guest.
abbrev program : Bytes
program = 0x93 ∷ 0x00 ∷ 0x50 ∷ 0x00 ∷ 0x00 ∷ 0x00 ∷ 0x00 ∷ 0x00 ∷ []

abbrev registers : Bytes
registers = replicate 1024 0

abbrev vm : Vm
vm = record {
  space = registers ++ program;
  space_bits = 8256;
  halt = 5735;
  rv_guest_running = 1;
  rv_guest_steps = 0;
  rv_guest_stop_reason = rv_stop_none;
  rv_trace_records = blank_record 0 0 ∷ blank_record 0 0 ∷ [];
  rv_trace_capacity = 2;
  rv_trace_count = 0;
  rv_trace_dropped = 0;
}

vm-IsVm : IsVm vm
vm-IsVm = record {
  whole = omega (arith, length-append registers program, length-replicate {A = ℕ} 1024 0);
  registers_inside = omega arith;
  halt_high = omega arith;
  halt_inside = omega arith;
  trace_is = refl;
  trace_small = omega arith;
  counted = omega arith;
}

-- The instruction has an effect, and writes 5 into register 1.
adds_five : effect (memory_size vm) (guest_of vm.space) ≡ some (write 1 5 4)
unfolding effect opcode_effect signed_sum
adds_five = refl

guest_steps-TraceAfter_example : TraceAfter 2 vm (guest_steps 2 vm)
guest_steps-TraceAfter_example = guest_steps-TraceAfter 2 vm vm-IsVm

sext_imm-signed_example :
    (2040 < 2 ^ 8 → sext_imm8 2040 ≡ signed 8 2040)
    × (2040 < 2 ^ 12 → sext_imm12 2040 ≡ signed 12 2040)
    × (2040 < 2 ^ 13 → sext_imm13 2040 ≡ signed 13 2040)
    × (2040 < 2 ^ 16 → sext_imm16 2040 ≡ signed 16 2040)
    × (2040 < 2 ^ 21 → sext_imm21 2040 ≡ signed 21 2040)
sext_imm-signed_example = sext_imm-signed 2040
