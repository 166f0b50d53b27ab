-- ===== src/Rv32/Step.antt =====
-- A step of the executor is a step of the guest.
use copy_space.Base.{
  ℕ, ◌+◌, ◌*◌, ◌%◌, ◌^◌, ◌<◌, ◌≡◌, refl, sym, arith, Option, some, none, ◌>>=◌, Bool, true, false,
  ltb, ◌==◌, if◌then◌else◌, Bool-cases, inl, inr, bit_and, bit_and-low_mask,
}
use mathlib.Core.Path.{subst}
use copy_space.Memory.{shr}
use copy_space.BitCopy.Spec.{Returns}
use copy_space.Field.{u32}
use copy_space.Rv32.{
  rv_stop_unsupported, rv_stop_bounds, rv_stop_halt, TraceRecord, Vm, g_pc, g_mem_base, rd_u32_le,
  int32_sum,
}
use copy_space.Rv32.Decode.{funct3_of, rd_of, rs1_of, rs2_of, imm_i, imm_b, imm_j, op_imm_value}
use copy_space.Rv32.Memory.{word, rd_u32_le-eq}
use copy_space.Rv32.Execute.{
  stop_traced, lui, auipc, computed, op_imm, op, branched, branch, jal, jalr, dispatch,
  blank_record, fetched, rv32_guest_step,
}
use copy_space.Rv32.Guest.{
  Guest, guest_of, Fields, fields_of, signed_sum, Effect, write, move, put, stop, value_effect,
  immediate_effect, immediate_value, register_value, branches, branch_effect, jalr_effect,
  opcode_effect, word_at, effect,
}
use copy_space.Rv32.Decoded.{decoded, decoded-fields_of, imm_small}
use copy_space.Rv32.Values.{op_value-eq, op_imm_other-eq, branch_taken-eq, even}
use copy_space.Rv32.State.{IsVm, memory_size, read_register}
use copy_space.Rv32.Ends.{
  Obeys, Status, Stepped, undefined, obeyed, Returns-Stepped, sum-Stepped, space_large,
  stop_traced-Obeys, write_back-Obeys, jump_traced-Obeys,
}
use copy_space.Rv32.Access.{read_word}
use copy_space.Rv32.Load.{load_op-Stepped}
use copy_space.Rv32.Store.{store_op-Stepped}

-- The value of ADDI is passed on as a supported one.
assoc_sum :
    (s : Option ℕ) (k : Option ℕ → Option Vm)
    → ((s >>= λ x. some (some x)) >>= k) ≡ (s >>= λ x. k (some x))
assoc_sum none k = refl
assoc_sum (some x) k = refl

module _ (vm : Vm) (tr : TraceRecord) (insn : ℕ) (v : IsVm vm) where
  abbrev g : Guest
  g = guest_of vm.space

  abbrev size : ℕ
  size = memory_size vm

  abbrev f : Fields
  f = decoded insn

  -- A call of the executor that does what an effect says.
  abbrev Does : Option Vm → Effect → Type 0
  Does r e = Returns r (Obeys e vm)

  rd_small : rd_of insn < 32
  rd_small = omega (arith, bit_and-low_mask 5 (shr insn 7))

  rs1_small : rs1_of insn < 32
  rs1_small = omega (arith, bit_and-low_mask 5 (shr insn 15))

  rs2_small : rs2_of insn < 32
  rs2_small = omega (arith, bit_and-low_mask 5 (shr insn 20))

  lui-Obeys :
      Does (lui vm tr g.pc insn) (write (rd_of insn) (bit_and insn 0xfffff000) (u32 (g.pc + 4)))
  unfolding lui
  lui-Obeys =
      write_back-Obeys vm _ (rd_of insn) (bit_and insn 0xfffff000) 0 (u32 (g.pc + 4)) v rd_small

  auipc-Obeys :
      Does
        (auipc vm tr g.pc insn)
        (write (rd_of insn) (u32 (g.pc + bit_and insn 0xfffff000)) (u32 (g.pc + 4)))
  unfolding auipc
  auipc-Obeys =
      write_back-Obeys vm _ (rd_of insn) (u32 (g.pc + bit_and insn 0xfffff000)) 0 (u32 (g.pc + 4)) v
        rd_small

  computed-Obeys :
      (tr' : TraceRecord) (r : Option ℕ)
      → Does (computed vm tr' g.pc (rd_of insn) r) (value_effect size g f r)
  computed-Obeys tr' none = stop_traced-Obeys vm tr' rv_stop_unsupported v
  computed-Obeys tr' (some x) = write_back-Obeys vm tr' (rd_of insn) x 0 (u32 (g.pc + 4)) v rd_small

  a_small : (i : ℕ) → g.reg i < 2 ^ 32
  a_small i = omega arith

  op-Obeys :
      Does
        (op vm tr g.pc insn)
        (value_effect size g f (register_value f (g.reg (rs1_of insn)) (g.reg (rs2_of insn))))
  unfolding op
  op-Obeys =
      let a = g.reg (rs1_of insn) in
      let b = g.reg (rs2_of insn) in
      rw
        (
          read_register vm (rs1_of insn) v rs1_small,
          read_register vm (rs2_of insn) v rs2_small,
          op_value-eq insn a b (a_small (rs1_of insn)) (a_small (rs2_of insn)),
        )
        (computed-Obeys _ (register_value f a b))

  module _ (h : insn < 2 ^ 32) where
    op_imm-Stepped : Stepped vm (immediate_effect size g f) (op_imm vm tr g.pc insn)
    unfolding op_imm op_imm_value
    op_imm-Stepped =
        let a = g.reg (rs1_of insn) in
        let imm = (imm_small insn h).0 in
        elim (Bool-cases (funct3_of insn == 0)) [
          | inl e ↦
              rw (read_register vm (rs1_of insn) v rs1_small, e)
                (subst
                  (λ t.
                    Stepped vm
                      (signed_sum a (imm_i insn) >>= λ x. some (value_effect size g f (some x))) t)
                  (sym (assoc_sum (int32_sum a (imm_i insn)) _))
                  (sum-Stepped vm a (imm_i insn) _ _ (a_small (rs1_of insn)) imm
                    λ x l. Returns-Stepped _ (computed-Obeys _ (some x))))
          | inr e ↦
              rw
                (
                  read_register vm (rs1_of insn) v rs1_small,
                  e,
                  op_imm_other-eq insn a (a_small (rs1_of insn)) h imm,
                )
                (Returns-Stepped _ (computed-Obeys _ (immediate_value f a)))
        ]

    branched-Stepped :
        (tr' : TraceRecord) (r : Option Bool)
        → Stepped vm (branch_effect size g f r) (branched vm tr' g.pc (imm_b insn) r)
    branched-Stepped tr' none = Returns-Stepped _ (stop_traced-Obeys vm tr' rv_stop_unsupported v)
    branched-Stepped tr' (some true) =
        sum-Stepped vm g.pc (imm_b insn) _ _ (omega arith) (imm_small insn h).2
          λ x l. Returns-Stepped _ (jump_traced-Obeys vm tr' x v)
    branched-Stepped tr' (some false) =
        Returns-Stepped _ (jump_traced-Obeys vm tr' (u32 (g.pc + 4)) v)

    branch-Stepped :
        Stepped vm
          (branch_effect size g f (branches f (g.reg (rs1_of insn)) (g.reg (rs2_of insn))))
          (branch vm tr g.pc insn)
    unfolding branch
    branch-Stepped =
        let a = g.reg (rs1_of insn) in
        let b = g.reg (rs2_of insn) in
        rw
          (
            read_register vm (rs1_of insn) v rs1_small,
            read_register vm (rs2_of insn) v rs2_small,
            branch_taken-eq insn a b (a_small (rs1_of insn)) (a_small (rs2_of insn)),
          )
          (branched-Stepped _ (branches f a b))

    jal-Stepped :
        Stepped vm
          (signed_sum g.pc (imm_j insn) >>= λ t. some (write (rd_of insn) (u32 (g.pc + 4)) t))
          (jal vm tr g.pc insn)
    unfolding jal
    jal-Stepped = sum-Stepped vm g.pc (imm_j insn) _ _ (omega arith) (imm_small insn h).3 λ x l.
        Returns-Stepped _ (write_back-Obeys vm _ (rd_of insn) (u32 (g.pc + 4)) 0 x v rd_small)

    jalr-Stepped :
        Stepped vm
          (signed_sum (g.reg (rs1_of insn)) (imm_i insn) >>= λ t. some (jalr_effect size g f t))
          (jalr vm tr g.pc insn)
    unfolding jalr
    jalr-Stepped = rw (read_register vm (rs1_of insn) v rs1_small) (
        sum-Stepped vm (g.reg (rs1_of insn)) (imm_i insn) _ _ (a_small (rs1_of insn))
          (imm_small insn h).0
          λ x l. elim (Bool-cases (funct3_of insn == 0)) [
            | inl e ↦
                rw (e, sym (even x l))
                  (Returns-Stepped _ (
                    write_back-Obeys vm _ (rd_of insn) (u32 (g.pc + 4)) 0 (bit_and x 0xfffffffe) v
                      rd_small))
            | inr e ↦ rw e (Returns-Stepped _ (stop_traced-Obeys vm _ rv_stop_unsupported v))
          ])

    abbrev jump_effect : Option Effect
    jump_effect =
        if bit_and insn 0x7f == 0x63
        then branch_effect size g f (branches f (g.reg (rs1_of insn)) (g.reg (rs2_of insn)))
        else if bit_and insn 0x7f == 0x6f
        then (signed_sum g.pc (imm_j insn) >>= λ t. some (write (rd_of insn) (u32 (g.pc + 4)) t))
        else if bit_and insn 0x7f == 0x67
        then (signed_sum (g.reg (rs1_of insn)) (imm_i insn) >>= λ t. some (jalr_effect size g f t))
        else some (stop rv_stop_unsupported)

    jumps-Stepped : Stepped vm jump_effect (
        if bit_and insn 0x7f == 0x63
        then branch vm tr g.pc insn
        else if bit_and insn 0x7f == 0x6f
        then jal vm tr g.pc insn
        else if bit_and insn 0x7f == 0x67
        then jalr vm tr g.pc insn
        else stop_traced vm tr rv_stop_unsupported)
    jumps-Stepped = elim (Bool-cases (bit_and insn 0x7f == 0x63)) [
      | inl e7 ↦ rw e7 branch-Stepped
      | inr e7 ↦ elim (Bool-cases (bit_and insn 0x7f == 0x6f)) [
        | inl e8 ↦ rw (e7, e8) jal-Stepped
        | inr e8 ↦ elim (Bool-cases (bit_and insn 0x7f == 0x67)) [
          | inl e9 ↦ rw (e7, e8, e9) jalr-Stepped
          | inr e9 ↦
              rw (e7, e8, e9) (Returns-Stepped _ (stop_traced-Obeys vm tr rv_stop_unsupported v))
        ]
      ]
    ]

    pub dispatch-Stepped : Stepped vm (opcode_effect size g f) (dispatch vm tr g.pc insn)
    unfolding dispatch opcode_effect
    dispatch-Stepped = elim (Bool-cases (bit_and insn 0x7f == 0x37)) [
      | inl e1 ↦ rw e1 (Returns-Stepped _ lui-Obeys)
      | inr e1 ↦ elim (Bool-cases (bit_and insn 0x7f == 0x17)) [
        | inl e2 ↦ rw (e1, e2) (Returns-Stepped _ auipc-Obeys)
        | inr e2 ↦ elim (Bool-cases (bit_and insn 0x7f == 0x13)) [
          | inl e3 ↦ rw (e1, e2, e3) op_imm-Stepped
          | inr e3 ↦ elim (Bool-cases (bit_and insn 0x7f == 0x33)) [
            | inl e4 ↦ rw (e1, e2, e3, e4) (Returns-Stepped _ op-Obeys)
            | inr e4 ↦ elim (Bool-cases (bit_and insn 0x7f == 0x03)) [
              | inl e5 ↦ rw (e1, e2, e3, e4, e5) (load_op-Stepped vm tr insn v h)
              | inr e5 ↦ elim (Bool-cases (bit_and insn 0x7f == 0x23)) [
                | inl e6 ↦ rw (e1, e2, e3, e4, e5, e6) (store_op-Stepped vm tr insn v h)
                | inr e6 ↦ rw (e1, e2, e3, e4, e5, e6) jumps-Stepped
              ]
            ]
          ]
        ]
      ]
    ]

-- The machine with another step count.
abbrev counted : Vm → ℕ → Vm
counted vm n = record vm { rv_guest_steps = n }

counted-IsVm : (vm : Vm) (n : ℕ) → IsVm vm → IsVm (counted vm n)
counted-IsVm vm n v = record {
  whole = v.whole;
  registers_inside = v.registers_inside;
  halt_high = v.halt_high;
  halt_inside = v.halt_inside;
  trace_is = v.trace_is;
  trace_small = v.trace_small;
  counted = v.counted;
}

Status-counted : (e : Effect) (vm vm' : Vm) (n : ℕ) → Status e (counted vm n) vm' → Status e vm vm'
Status-counted (write rd v next) vm vm' n s = s
Status-counted (move next) vm vm' n s = s
Status-counted (put width addr v next) vm vm' n s = s
Status-counted (stop reason) vm vm' n s = s

counted-Obeys : (e : Effect) (vm vm' : Vm) (n : ℕ) → Obeys e (counted vm n) vm' → Obeys e vm vm'
counted-Obeys e vm vm' n o = record {
  valid = o.valid;
  guest = o.guest;
  status = Status-counted e vm vm' n o.status;
  traced = record {
    count_is = o.traced.count_is;
    same_room = o.traced.same_room;
    earlier = o.traced.earlier;
  };
}

counted-Stepped :
    (vm : Vm) (n : ℕ) {e : Option Effect} {r : Option Vm}
    → Stepped (counted vm n) e r
    → Stepped vm e r
counted-Stepped vm n undefined = undefined
counted-Stepped vm n (obeyed {e} {vm'} o) = obeyed (counted-Obeys e vm vm' n o)

fetched-Stepped :
    (vm : Vm) (insn : ℕ)
    → IsVm vm
    → insn < 2 ^ 32
    → let g = guest_of vm.space in
      Stepped vm
        (if insn == 0
          then some (stop rv_stop_halt)
          else opcode_effect (memory_size vm) g (fields_of insn))
        (fetched vm g.pc insn)
unfolding fetched
fetched-Stepped vm insn v h = elim (Bool-cases (insn == 0)) [
  | inl e ↦ rw e (
      Returns-Stepped _ (
        stop_traced-Obeys vm (blank_record (word vm.space 512) (u32 vm.rv_guest_steps)) rv_stop_halt
          v))
  | inr e ↦
      let steps = (vm.rv_guest_steps + 1) % 2 ^ 64 in
      let g = guest_of vm.space in
      rw (e, sym (decoded-fields_of insn h))
        (counted-Stepped vm steps (
          dispatch-Stepped (counted vm steps)
            (record (blank_record g.pc (u32 steps)) { instr = insn }) insn (counted-IsVm vm steps v)
            h))
]

pub rv32_guest_step-Stepped :
    (vm : Vm)
    → IsVm vm
    → Stepped vm (effect (memory_size vm) (guest_of vm.space)) (rv32_guest_step vm)
unfolding rv32_guest_step effect
rv32_guest_step-Stepped vm v =
    let g = guest_of vm.space in
    let fetch : rd_u32_le vm.space g_pc ≡ some g.pc =
      rd_u32_le-eq vm.space g_pc (omega (arith, space_large vm v)) in
    let within : ltb vm.space_bits (g_mem_base + g.pc * 8 + 32) ≡ ltb (memory_size vm) (g.pc + 4) =
      ground (arith, v.whole, v.registers_inside) in
    elim (Bool-cases (ltb (memory_size vm) (g.pc + 4))) [
      | inl out ↦
          rw (fetch, within, out)
            (Returns-Stepped _
              (stop_traced-Obeys vm (blank_record g.pc (u32 vm.rv_guest_steps)) rv_stop_bounds v))
      | inr inside ↦
          let read = read_word vm (blank_record g.pc 0) g.pc 0 g.pc v (ground arith) in
          rw (fetch, within, inside, read) (fetched-Stepped vm (word_at g g.pc) v (omega arith))
    ]
