-- ===== src/Rv32/Load.antt =====
-- The LOAD instructions do what the guest's memory says.
use copy_space.Base.{
  ℕ, ◌+◌, ◌*◌, ◌^◌, ◌<◌, ◌≤◌, ◌≡◌, refl, ap, ◌∙◌, arith, Option, some, none, ◌>>=◌, false, ◌==◌,
  Bool-cases, inl, inr, bit_and-low_mask,
}
use copy_space.Memory.{shr}
use copy_space.BitCopy.Spec.{Returns}
use copy_space.Rv32.{
  rv_stop_unsupported, TraceRecord, Vm, g_mem_base, sext_imm8, sext_imm16, rv_trace_pack_meta,
}
use copy_space.Rv32.Decode.{funct3_of, rd_of, rs1_of, imm_i}
use copy_space.Rv32.Execute.{load_width, load_value, load_from, load_op}
use copy_space.Rv32.Guest.{Guest, guest_of, half_at, word_at, signed, load_effect, signed_sum}
use copy_space.Rv32.Decoded.{decoded, imm_small}
use copy_space.Rv32.State.{IsVm, memory_size, read_register}
use copy_space.Rv32.Ends.{Obeys, stop_traced-Obeys, Stepped, Returns-Stepped, sum-Stepped}
use copy_space.Rv32.Access.{
  one_byte, two_bytes, four_bytes, sext_imm-signed, load_from-Obeys, read_byte, read_half,
  read_word,
}

widths :
    (load_width 0 ≡ some 1)
    × (load_width 1 ≡ some 2)
    × (load_width 2 ≡ some 4)
    × (load_width 4 ≡ some 1)
    × (load_width 5 ≡ some 2)
unfolding load_width
widths = (refl, refl, refl, refl, refl)

no_width :
    (f : ℕ)
    → (f == 0) ≡ false
    → (f == 1) ≡ false
    → (f == 2) ≡ false
    → (f == 4) ≡ false
    → (f == 5) ≡ false
    → load_width f ≡ none
unfolding load_width
no_width f a b c d e = rw (a, b, c, d, e) refl

-- The tests of `load_op` on `funct3`, each after those before it failed.
module _ (vm : Vm) (tr : TraceRecord) (insn addr : ℕ) (v : IsVm vm) where
  abbrev g : Guest
  g = guest_of vm.space

  abbrev f : ℕ
  f = funct3_of insn

  abbrev value_at : ℕ → Option ℕ
  value_at t = load_value t vm.space (g_mem_base + addr * 8)

  signed_byte : addr + 1 ≤ memory_size vm → value_at 0 ≡ some (signed 8 (g.mem addr))
  unfolding load_value
  signed_byte h =
      ap (λ t. t >>= λ x. some (sext_imm8 x)) (read_byte vm tr g.pc insn addr v h)
      ∙ ap some ((sext_imm-signed (g.mem addr)).0 (omega arith))

  signed_half : addr + 2 ≤ memory_size vm → value_at 1 ≡ some (signed 16 (half_at g addr))
  unfolding load_value
  signed_half h =
      ap (λ t. t >>= λ x. some (sext_imm16 x)) (read_half vm tr g.pc insn addr v h)
      ∙ ap some ((sext_imm-signed (half_at g addr)).3 (omega arith))

  whole_word : addr + 4 ≤ memory_size vm → value_at 2 ≡ some (word_at g addr)
  unfolding load_value
  whole_word h = read_word vm tr g.pc insn addr v h

  whole_byte : addr + 1 ≤ memory_size vm → value_at 4 ≡ some (g.mem addr)
  unfolding load_value
  whole_byte h = read_byte vm tr g.pc insn addr v h

  whole_half : addr + 2 ≤ memory_size vm → value_at 5 ≡ some (half_at g addr)
  unfolding load_value
  whole_half h = read_half vm tr g.pc insn addr v h

  loaded :
      Returns
        (load_from vm tr g.pc insn addr (load_width f))
        (Obeys (load_effect (memory_size vm) g (decoded insn) addr) vm)
  loaded = elim (Bool-cases (f == 0)) [
    | inl e0 ↦
        let t : f ≡ 0 = ground arith in
        rw e0 (
          load_from-Obeys vm tr g.pc insn addr v 1 (signed 8 (g.mem addr)) one_byte
            (ap load_width t ∙ widths.0) λ h. ap value_at t ∙ signed_byte h)
    | inr e0 ↦ elim (Bool-cases (f == 1)) [
      | inl e1 ↦
          let t : f ≡ 1 = ground arith in
          rw (e0, e1)
            (load_from-Obeys vm tr g.pc insn addr v 2 (signed 16 (half_at g addr)) two_bytes
              (ap load_width t ∙ widths.1) λ h. ap value_at t ∙ signed_half h)
      | inr e1 ↦ elim (Bool-cases (f == 2)) [
        | inl e2 ↦
            let t : f ≡ 2 = ground arith in
            rw (e0, e1, e2)
              (load_from-Obeys vm tr g.pc insn addr v 4 (word_at g addr) four_bytes
                (ap load_width t ∙ widths.2) λ h. ap value_at t ∙ whole_word h)
        | inr e2 ↦ elim (Bool-cases (f == 4)) [
          | inl e4 ↦
              let t : f ≡ 4 = ground arith in
              rw (e0, e1, e2, e4)
                (load_from-Obeys vm tr g.pc insn addr v 1 (g.mem addr) one_byte
                  (ap load_width t ∙ widths.3) λ h. ap value_at t ∙ whole_byte h)
          | inr e4 ↦ elim (Bool-cases (f == 5)) [
            | inl e5 ↦
                let t : f ≡ 5 = ground arith in
                rw (e0, e1, e2, e4, e5)
                  (load_from-Obeys vm tr g.pc insn addr v 2 (half_at g addr) two_bytes
                    (ap load_width t ∙ widths.4) λ h. ap value_at t ∙ whole_half h)
            | inr e5 ↦
                rw (no_width f e0 e1 e2 e4 e5, e0, e1, e2, e4, e5)
                  (stop_traced-Obeys vm tr rv_stop_unsupported v)
          ]
        ]
      ]
    ]
  ]

pub load_op-Stepped :
    (vm : Vm) (tr : TraceRecord) (insn : ℕ)
    → IsVm vm
    → insn < 2 ^ 32
    → let g = guest_of vm.space in
      Stepped vm
        (signed_sum (g.reg (rs1_of insn)) (imm_i insn) >>= λ addr.
          some (load_effect (memory_size vm) g (decoded insn) addr))
        (load_op vm tr g.pc insn)
unfolding load_op
load_op-Stepped vm tr insn v h =
    let g = guest_of vm.space in
    let rs1 = rs1_of insn in
    let small : rs1 < 32 = omega (arith, bit_and-low_mask 5 (shr insn 15)) in
    let meta = rv_trace_pack_meta 0x03 (funct3_of insn) 0 (rd_of insn) rs1 0 in
    rw (read_register vm rs1 v small) (
      sum-Stepped vm (g.reg rs1) (imm_i insn) _ _ (omega arith) (imm_small insn h).0 λ addr l.
        Returns-Stepped _ (loaded vm (record tr { imm = imm_i insn; meta = meta }) insn addr v))
