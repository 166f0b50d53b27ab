-- ===== src/Rv32/Store.antt =====
-- The STORE instructions put bytes into the guest's memory and change no register.
use copy_space.Base.{
  ℕ, zero, suc, ◌+◌, ◌-◌, ◌*◌, ◌/◌, ◌%◌, ◌^◌, ◌<◌, ◌≤◌, ◌≡◌, refl, ap, ◌∙◌, arith, some, none,
  ◌>>=◌, length, true, false, ◌&&◌, ltb, leb, ◌==◌, if◌then◌else◌, Bool-cases, inl, inr, bit_and,
  bit_and-low_mask,
}
use copy_space.Memory.{Bytes, byte_at, byte_same, shr}
use copy_space.BitCopy.Spec.{Returns}
use copy_space.Field.{u32}
use copy_space.Rv32.{
  rv_stop_unsupported, TraceRecord, Vm, g_mem_base, rv_trace_pack_meta, rv_trace_pack_flags,
}
use copy_space.Rv32.Decode.{funct3_of, rs1_of, rs2_of, imm_s}
use copy_space.Rv32.Memory.{
  half, word, Patched, wr_u8-ByteWritten, wr_u16_le-HalfWritten, wr_u32_le-WordWritten,
}
use copy_space.Rv32.Execute.{
  store_width, store_value, store_checked, store_to, store_op, with_space,
}
use copy_space.Rv32.Guest.{Guest, guest_of, put_mem, put, stop, store_effect, access, signed_sum}
use copy_space.Rv32.Decoded.{decoded, imm_small}
use copy_space.Rv32.State.{IsVm, memory_size, word_kept, Holds, appended, read_register}
use copy_space.Rv32.Ends.{
  Obeys, stop_traced-Obeys, check_failed-Obeys, finished, Stepped, Returns-Stepped, sum-Stepped,
}
use copy_space.Rv32.Access.{IsWidth, one_byte, two_bytes, four_bytes, access-Obeys}

-- Byte `j` of a number.
abbrev digit : ℕ → ℕ → ℕ
digit v j = v / 2 ^ (8 * j) % 2 ^ 8

half_digits :
    (m : Bytes) (b v j : ℕ) → half m b ≡ v % 2 ^ 16 → j < 2 → byte_at m (b + j) ≡ digit v j
half_digits m b v zero e h =
    byte_same m {i = b + 0} {j = b} (omega arith)
    ∙ omega (arith, ap (λ t. v / 2 ^ t) {x = 8 * 0} {y = 0} (omega arith))
half_digits m b v (suc zero) e h =
    omega (arith, ap (λ t. v / 2 ^ t) {x = 8 * suc zero} {y = 8} (omega arith))
half_digits m b v (suc (suc j)) e h = absurd (omega arith)

word_digits :
    (m : Bytes) (b v j : ℕ) → word m b ≡ v % 2 ^ 32 → j < 4 → byte_at m (b + j) ≡ digit v j
word_digits m b v zero e h = half_digits m b v 0 (omega arith) (omega arith)
word_digits m b v (suc zero) e h = half_digits m b v 1 (omega arith) (omega arith)
word_digits m b v (suc (suc zero)) e h =
    omega (arith, ap (λ t. v / 2 ^ t) {x = 8 * suc (suc zero)} {y = 16} (omega arith))
word_digits m b v (suc (suc (suc zero))) e h =
    omega (arith, ap (λ t. v / 2 ^ t) {x = 8 * suc (suc (suc zero))} {y = 24} (omega arith))
word_digits m b v (suc (suc (suc (suc j)))) e h = absurd (omega arith)

-- Bytes that were written into memory.
put_mem-Holds :
    (m m' : Bytes) (b n addr v : ℕ)
    → b ≡ 1024 + addr
    → Patched b n m m'
    → ((j : ℕ) → j < n → byte_at m' (b + j) ≡ digit v j)
    → Holds (put_mem n addr v (guest_of m)) m m'
put_mem-Holds m m' b n addr v at w digits = record {
  same_length = w.same_length;
  reg = λ i h ne. word_kept b n (576 + 4 * i) m m' w (inl (omega arith));
  mem = λ k h. elim (Bool-cases (leb addr k && ltb k (addr + n))) [
    | inl within ↦
        let low : addr ≤ k = ground arith in
        rw within (
          byte_same m' {i = 1024 + k} {j = b + (k - addr)} (omega arith)
          ∙ digits (k - addr) (ground arith))
    | inr out ↦ rw out (elim (Bool-cases (ltb k addr)) [
      | inl below ↦ w.outside (1024 + k) (inl (ground arith))
      | inr above ↦ w.outside (1024 + k) (inr (ground arith))
    ])
  ];
}

widths : (store_width 0 ≡ some 1) × (store_width 1 ≡ some 2) × (store_width 2 ≡ some 4)
unfolding store_width
widths = (refl, refl, refl)

no_width : (f : ℕ) → (f == 0) ≡ false → (f == 1) ≡ false → (f == 2) ≡ false → store_width f ≡ none
unfolding store_width
no_width f a b c = rw (a, b, c) refl

module _ (vm : Vm) (tr : TraceRecord) (insn addr x : ℕ) (v : IsVm vm) where
  abbrev g : Guest
  g = guest_of vm.space

  abbrev f : ℕ
  f = funct3_of insn

  abbrev place : ℕ
  place = g_mem_base + addr * 8

  abbrev Put : ℕ → ℕ → Type 0
  Put t n =
      addr + n ≤ memory_size vm
      → Returns (store_value t vm.space place x) (Holds (put_mem n addr x g) vm.space)

  at : place / 8 ≡ 1024 + addr
  at = omega arith

  room : (n : ℕ) → 1 ≤ n → addr + n ≤ memory_size vm → place / 8 + n ≤ length vm.space
  room n h l = omega (arith, v.whole, v.registers_inside)

  put_byte : Put 0 1
  unfolding store_value
  put_byte h =
      let (m, e, w) =
        wr_u8-ByteWritten vm.space place (bit_and x 255) (omega (arith, room 1 (omega arith) h)) in
      (
        m,
        e,
        put_mem-Holds vm.space m (place / 8) 1 addr x at w.patched λ j k.
            byte_same m {i = place / 8 + j} {j = place / 8} (omega arith)
            ∙ omega (
              arith,
              w.byte_is,
              bit_and-low_mask 8 x,
              ap (λ t. x / 2 ^ t) {x = 8 * j} {y = 0} (omega arith),
            ),
      )

  put_half : Put 1 2
  unfolding store_value
  put_half h =
      let (m, e, w) =
        wr_u16_le-HalfWritten vm.space place (bit_and x 65535) (room 2 (omega arith) h) in
      (
        m,
        e,
        put_mem-Holds vm.space m (place / 8) 2 addr x at w.patched λ j k.
            half_digits m (place / 8) x j (omega (arith, w.half_is, bit_and-low_mask 16 x)) k,
      )

  put_word : Put 2 4
  unfolding store_value
  put_word h =
      let (m, e, w) = wr_u32_le-WordWritten vm.space place x (room 4 (omega arith) h) in
      (
        m,
        e,
        put_mem-Holds vm.space m (place / 8) 4 addr x at w.patched
            λ j k. word_digits m (place / 8) x j w.word_is k,
      )

  -- A STORE whose width is known.
  stored_at :
      (t width : ℕ)
      → IsWidth width
      → f ≡ t
      → store_width t ≡ some width
      → Put t width
      → Returns
          (store_to vm tr g.pc insn addr x (store_width f))
          (Obeys (access (memory_size vm) addr width (put width addr x (u32 (g.pc + 4)))) vm)
  stored_at t width w e s written = rw (ap store_width e ∙ s) (
      access-Obeys vm addr width (put width addr x (u32 (g.pc + 4)))
        (store_checked vm tr g.pc insn addr x width) v w
        (λ reason. check_failed-Obeys vm tr reason width v)
        λ inside.
          let (m, d, held) = written inside in
          let tr' = record tr {
            mem_addr = addr;
            mem_value = x;
            flags = rv_trace_pack_flags false true false width 0;
          } in
          let (m', d', valid, became, traced) =
            finished vm tr' m (put_mem width addr x g) (u32 (g.pc + 4)) v held in
          (
            with_space (appended (with_space vm m) tr') m',
            rw (ap (λ q. store_value q vm.space place x) e ∙ d) d',
            record { valid = valid; guest = became; status = (refl, refl); traced = traced },
          ))

  -- The tests of `store_op` on `funct3`.
  pub stored : Returns (store_to vm tr g.pc insn addr x (store_width f)) (
      Obeys
        (if f == 0
          then access (memory_size vm) addr 1 (put 1 addr x (u32 (g.pc + 4)))
          else if f == 1
          then access (memory_size vm) addr 2 (put 2 addr x (u32 (g.pc + 4)))
          else if f == 2
          then access (memory_size vm) addr 4 (put 4 addr x (u32 (g.pc + 4)))
          else stop rv_stop_unsupported)
        vm)
  stored = elim (Bool-cases (f == 0)) [
    | inl e0 ↦ rw e0 (stored_at 0 1 one_byte (ground arith) widths.0 put_byte)
    | inr e0 ↦ elim (Bool-cases (f == 1)) [
      | inl e1 ↦ rw (e0, e1) (stored_at 1 2 two_bytes (ground arith) widths.1 put_half)
      | inr e1 ↦ elim (Bool-cases (f == 2)) [
        | inl e2 ↦ rw (e0, e1, e2) (stored_at 2 4 four_bytes (ground arith) widths.2 put_word)
        | inr e2 ↦
            rw (no_width f e0 e1 e2, e0, e1, e2) (stop_traced-Obeys vm tr rv_stop_unsupported v)
      ]
    ]
  ]

pub store_op-Stepped :
    (vm : Vm) (tr : TraceRecord) (insn : ℕ)
    → IsVm vm
    → insn < 2 ^ 32
    → let g = guest_of vm.space in
      Stepped vm
        (signed_sum (g.reg (rs1_of insn)) (imm_s insn) >>= λ addr.
          some (store_effect (memory_size vm) g (decoded insn) addr))
        (store_op vm tr g.pc insn)
unfolding store_op
store_op-Stepped vm tr insn v h =
    let g = guest_of vm.space in
    let rs1 = rs1_of insn in
    let rs2 = rs2_of insn in
    let one : rs1 < 32 = omega (arith, bit_and-low_mask 5 (shr insn 15)) in
    let two : rs2 < 32 = omega (arith, bit_and-low_mask 5 (shr insn 20)) in
    let meta = rv_trace_pack_meta 0x23 (funct3_of insn) 0 0 rs1 rs2 in
    rw (read_register vm rs1 v one, read_register vm rs2 v two)
      (sum-Stepped vm (g.reg rs1) (imm_s insn) _ _ (omega arith) (imm_small insn h).1 λ addr l.
        Returns-Stepped _
          (stored vm (record tr { imm = imm_s insn; meta = meta }) insn addr (g.reg rs2) v))
