-- ===== src/Rv32/Access.antt =====
-- Loads and stores: the guard on the address, and the bytes that are read or written.
use copy_space.Base.{
  ℕ, ◌+◌, ◌-◌, ◌*◌, ◌/◌, ◌%◌, ◌^◌, ◌<◌, ◌≤◌, ◌≡◌, refl, ap, ◌∙◌, arith, Option, some, ◌>>=◌, length,
  not, ◌&&◌, ltb, ◌==◌, Bool-cases, inl, inr, bit_and, bit_and-low_mask,
}
use copy_space.Memory.{byte_at, byte_same, shr}
use copy_space.BitCopy.Spec.{Returns}
use copy_space.Field.{u32}
use copy_space.Rv32.{
  StopReason, rv_stop_align, rv_stop_bounds, TraceRecord, Vm, g_mem_base, rd_u8, rd_u16_le,
  rd_u32_le, int32_shr, sext_imm8, sext_imm12, sext_imm13, sext_imm16, sext_imm21, AddrCheck,
  stopped, passed, rv32_addr_check,
}
use copy_space.Rv32.Decode.{funct3_of, rd_of}
use copy_space.Rv32.Memory.{half, word, rd_u8-eq, rd_u16_le-eq, rd_u32_le-eq}
use copy_space.Rv32.Execute.{load_width, load_value, load_checked, load_from}
use copy_space.Rv32.Guest.{Guest, guest_of, half_at, word_at, signed, access, Effect, write, stop}
use copy_space.Rv32.State.{IsVm, memory_size, halted, stop-eq}
use copy_space.Rv32.Ends.{Obeys, check_failed-Obeys, write_back-Obeys}

-- Each sign extension of the executor gives the number that the low bits stand for as a signed one.
pub sext_imm-signed :
    (x : ℕ)
    → (x < 2 ^ 8 → sext_imm8 x ≡ signed 8 x)
      × (x < 2 ^ 12 → sext_imm12 x ≡ signed 12 x)
      × (x < 2 ^ 13 → sext_imm13 x ≡ signed 13 x)
      × (x < 2 ^ 16 → sext_imm16 x ≡ signed 16 x)
      × (x < 2 ^ 21 → sext_imm21 x ≡ signed 21 x)
unfolding sext_imm8 sext_imm12 sext_imm13 sext_imm16 sext_imm21 int32_shr
sext_imm-signed x =
    (λ h. ground arith, λ h. ground arith, λ h. ground arith, λ h. ground arith, λ h. ground arith)

-- The width of an access is a power of two.
pub record IsWidth (width : ℕ) : Type 0 where
  pub some_bytes : 1 ≤ width
  pub masked :
      (addr : ℕ) → (ltb 1 width && not (bit_and addr (width - 1) == 0)) ≡ not (addr % width == 0)

pub one_byte : IsWidth 1
one_byte = record { some_bytes = omega arith; masked = λ addr. ground arith }

pub two_bytes : IsWidth 2
two_bytes = record {
  some_bytes = omega arith;
  masked = λ addr. let low : bit_and addr 1 ≡ addr % 2 = bit_and-low_mask 1 addr in rw low refl;
}

pub four_bytes : IsWidth 4
four_bytes = record {
  some_bytes = omega arith;
  masked = λ addr. let low : bit_and addr 3 ≡ addr % 4 = bit_and-low_mask 2 addr in rw low refl;
}

-- An access goes through, or stops the guest with the reason that the address gives.
pub access-Obeys :
    (vm : Vm) (addr width : ℕ) (e : Effect) (k : AddrCheck → Option Vm)
    → IsVm vm
    → IsWidth width
    → ((reason : StopReason) → Returns (k (stopped (halted vm reason))) (Obeys (stop reason) vm))
    → (addr + width ≤ memory_size vm → Returns (k (passed (g_mem_base + addr * 8))) (Obeys e vm))
    → Returns
        (rv32_addr_check vm addr width width >>= k)
        (Obeys (access (memory_size vm) addr width e) vm)
unfolding rv32_addr_check
access-Obeys vm addr width e k v w fail pass =
    let within : ltb vm.space_bits (g_mem_base + addr * 8 + width * 8)
        ≡ ltb (memory_size vm) (addr + width) =
      ground (arith, v.whole, v.registers_inside) in
    elim (Bool-cases (not (addr % width == 0))) [
      | inl askew ↦ rw (w.masked addr, askew, stop-eq vm rv_stop_align v) (fail rv_stop_align)
      | inr even ↦ elim (Bool-cases (ltb (memory_size vm) (addr + width))) [
        | inl out ↦
            rw (w.masked addr, even, within, out, stop-eq vm rv_stop_bounds v) (fail rv_stop_bounds)
        | inr inside ↦ rw (w.masked addr, even, within, inside) (pass (ground arith))
      ]
    ]

module _ (vm : Vm) (tr : TraceRecord) (pc insn addr : ℕ) (v : IsVm vm) where
  abbrev g : Guest
  g = guest_of vm.space

  rd_small : rd_of insn < 32
  rd_small = omega (arith, bit_and-low_mask 5 (shr insn 7))

  -- A LOAD whose width and value are known.
  pub load_from-Obeys :
      (width x : ℕ)
      → IsWidth width
      → load_width (funct3_of insn) ≡ some width
      → (addr + width ≤ memory_size vm
          → load_value (funct3_of insn) vm.space (g_mem_base + addr * 8) ≡ some x)
      → Returns
          (load_from vm tr pc insn addr (load_width (funct3_of insn)))
          (Obeys (access (memory_size vm) addr width (write (rd_of insn) x (u32 (pc + 4)))) vm)
  load_from-Obeys width x w e value = rw e (
      access-Obeys vm addr width (write (rd_of insn) x (u32 (pc + 4)))
        (load_checked vm tr pc insn width) v w (λ reason. check_failed-Obeys vm tr reason width v)
        λ inside.
          rw (value inside) (write_back-Obeys vm tr (rd_of insn) x width (u32 (pc + 4)) v rd_small))

  -- What the reads give inside memory.
  at_byte : (g_mem_base + addr * 8) / 8 ≡ 1024 + addr
  at_byte = omega arith

  room :
      (n : ℕ)
      → 1 ≤ n
      → addr + n ≤ memory_size vm
      → (g_mem_base + addr * 8) / 8 + n ≤ length vm.space
  room n h l = omega (arith, v.whole, v.registers_inside)

  pub read_byte :
      addr + 1 ≤ memory_size vm → rd_u8 vm.space (g_mem_base + addr * 8) ≡ some (g.mem addr)
  read_byte h =
      rd_u8-eq vm.space (g_mem_base + addr * 8) (omega (arith, room 1 (omega arith) h))
      ∙ ap (λ t. some (byte_at vm.space t)) at_byte

  pub read_half :
      addr + 2 ≤ memory_size vm → rd_u16_le vm.space (g_mem_base + addr * 8) ≡ some (half_at g addr)
  read_half h =
      rd_u16_le-eq vm.space (g_mem_base + addr * 8) (room 2 (omega arith) h)
      ∙ ap some (
          ap (λ t. half vm.space t) at_byte
          ∙ omega (
            arith,
            byte_same vm.space {i = 1024 + addr + 1} {j = 1024 + (addr + 1)} (omega arith),
          ))

  pub read_word :
      addr + 4 ≤ memory_size vm → rd_u32_le vm.space (g_mem_base + addr * 8) ≡ some (word_at g addr)
  read_word h =
      rd_u32_le-eq vm.space (g_mem_base + addr * 8) (room 4 (omega arith) h)
      ∙ ap some (
          ap (λ t. word vm.space t) at_byte
          ∙ omega (
            arith,
            byte_same vm.space {i = 1024 + addr + 1} {j = 1024 + (addr + 1)} (omega arith),
            byte_same vm.space {i = 1024 + addr + 2} {j = 1024 + (addr + 2)} (omega arith),
            byte_same vm.space {i = 1024 + addr + 3} {j = 1024 + (addr + 3)} (omega arith),
          ))
