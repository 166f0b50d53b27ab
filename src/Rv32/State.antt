-- ===== src/Rv32/State.antt =====
-- The executor's state, and what its small operations do to the guest in space.
use copy_space.Base.{
  ℕ, ◌+◌, ◌-◌, ◌*◌, ◌/◌, ◌^◌, ◌<◌, ◌≤◌, ◌≡◌, ◌≢◌, refl, ap, ◌∙◌, arith, ◌⊎◌, inl, inr, some, length,
  set, length-set, true, false, ltb, ◌==◌, if◌then◌else◌, Bool-cases, bit_and, bit_or,
  bit_and-low_mask, pow-le, sym, ◌%◌,
}
use copy_space.Memory.{
  Bytes, byte_at, u8, shl, load-eq, store-eq, put, length-put, byte_same, byte_at-put_self,
}
use copy_space.BitCopy.Spec.{Returns}
use copy_space.Field.{u32}
use copy_space.Rv32.{
  StopReason, TraceRecord, Vm, g_pc, g_reg_base, rd_u32_le, vm_bit_set, rv32_trace_append,
  rv32_guest_stop, rv32_guest_commit,
}
use copy_space.Rv32.Execute.{register, write_register, with_space}
use copy_space.Rv32.Memory.{word, Patched, put-Patched, rd_u32_le-eq, wr_u32_le-WordWritten}
use copy_space.Rv32.Guest.{Guest, guest_of, SameGuest, set_reg, go, set_halt}

-- Space holds the guest's registers, the bit that halts the machine lies behind them, where
-- `vm_compute_mmio_layout` puts it, and the trace counter is within the trace.
pub record IsVm (vm : Vm) : Type 0 where
  pub whole : 8 * length vm.space ≡ vm.space_bits
  pub registers_inside : 0x2000 ≤ vm.space_bits
  pub halt_high : 0x1600 ≤ vm.halt
  pub halt_inside : vm.halt < vm.space_bits
  pub trace_is : length vm.rv_trace_records ≡ vm.rv_trace_capacity
  pub trace_small : vm.rv_trace_capacity < 2 ^ 32
  pub counted : vm.rv_trace_count ≤ vm.rv_trace_capacity

-- The bytes of the guest's memory.
abbrev pub memory_size : Vm → ℕ
memory_size vm = vm.space_bits / 8 - 1024

-- The machine after a record was appended, or dropped where the trace is full.
abbrev pub appended : Vm → TraceRecord → Vm
appended vm tr = record vm {
  rv_trace_records =
      if ltb vm.rv_trace_count vm.rv_trace_capacity
      then set vm.rv_trace_records vm.rv_trace_count tr
      else vm.rv_trace_records;
  rv_trace_count =
      if ltb vm.rv_trace_count vm.rv_trace_capacity
      then u32 (vm.rv_trace_count + 1)
      else vm.rv_trace_count;
  rv_trace_dropped =
      if ltb vm.rv_trace_count vm.rv_trace_capacity
      then vm.rv_trace_dropped
      else u32 (vm.rv_trace_dropped + 1);
}

pub append-eq :
    (vm : Vm) (tr : TraceRecord) → IsVm vm → rv32_trace_append vm tr ≡ some (appended vm tr)
unfolding rv32_trace_append
append-eq vm tr v = elim (Bool-cases (ltb vm.rv_trace_count vm.rv_trace_capacity)) [
  | inl room ↦
      let fits : ltb vm.rv_trace_count (length vm.rv_trace_records) ≡ true =
        ground (arith, v.trace_is) in
      rw (room, fits) refl
  | inr full ↦ rw full refl
]

pub appended-IsVm : (vm : Vm) (tr : TraceRecord) → IsVm vm → IsVm (appended vm tr)
appended-IsVm vm tr v = elim (Bool-cases (ltb vm.rv_trace_count vm.rv_trace_capacity)) [
  | inl room ↦
      let less : vm.rv_trace_count < vm.rv_trace_capacity = ground arith in
      record {
        whole = v.whole;
        registers_inside = v.registers_inside;
        halt_high = v.halt_high;
        halt_inside = v.halt_inside;
        trace_is = rw room (length-set vm.rv_trace_records vm.rv_trace_count tr ∙ v.trace_is);
        trace_small = v.trace_small;
        counted = rw room (omega (arith, v.trace_small));
      }
  | inr full ↦ record {
    whole = v.whole;
    registers_inside = v.registers_inside;
    halt_high = v.halt_high;
    halt_inside = v.halt_inside;
    trace_is = rw full v.trace_is;
    trace_small = v.trace_small;
    counted = rw full v.counted;
  }
]

pub with_space-IsVm :
    (vm : Vm) (m : Bytes) → length m ≡ length vm.space → IsVm vm → IsVm (with_space vm m)
with_space-IsVm vm m e v = record {
  whole = ap (λ t. 8 * t) e ∙ v.whole;
  registers_inside = v.registers_inside;
  halt_high = v.halt_high;
  halt_inside = v.halt_inside;
  trace_is = v.trace_is;
  trace_small = v.trace_small;
  counted = v.counted;
}

-- A word that no write touched.
pub word_kept :
    (b n p : ℕ) (m m' : Bytes) → Patched b n m m' → (p + 4 ≤ b) ⊎ (b + n ≤ p) → word m' p ≡ word m p
word_kept b n p m m' w (inl h) = omega (
  arith,
  w.outside p (inl (omega arith)),
  w.outside (p + 1) (inl (omega arith)),
  w.outside (p + 2) (inl (omega arith)),
  w.outside (p + 3) (inl (omega arith)),
)
word_kept b n p m m' w (inr h) = omega (
  arith,
  w.outside p (inr (omega arith)),
  w.outside (p + 1) (inr (omega arith)),
  w.outside (p + 2) (inr (omega arith)),
  w.outside (p + 3) (inr (omega arith)),
)

-- A register is read as the guest has it.
pub read_register :
    (vm : Vm) (i : ℕ)
    → IsVm vm
    → i < 32
    → rd_u32_le vm.space (register i) ≡ some ((guest_of vm.space).reg i)
read_register vm i v h =
    rd_u32_le-eq vm.space (register i) (omega (arith, v.whole, v.registers_inside))
    ∙ ap (λ t. some (word vm.space t)) {x = register i / 8} {y = 576 + 4 * i} (omega arith)

-- Space holds a guest, up to its program counter and register 0, which `rv32_guest_commit` sets.
pub record Holds (g : Guest) (m m' : Bytes) : Type 0 where
  pub same_length : length m' ≡ length m
  pub reg : (i : ℕ) → i < 32 → i ≢ 0 → word m' (576 + 4 * i) ≡ g.reg i
  pub mem : (k : ℕ) → k < length m - 1024 → byte_at m' (1024 + k) ≡ g.mem k

pub Holds-refl : (m : Bytes) → Holds (guest_of m) m m
Holds-refl m = record { same_length = refl; reg = λ i h ne. refl; mem = λ k h. refl }

pub write_register-Holds :
    (m : Bytes) (rd v : ℕ)
    → 1024 ≤ length m
    → rd < 32
    → Returns (write_register m rd v) (Holds (set_reg rd v (guest_of m)) m)
unfolding write_register
write_register-Holds m rd v h l = elim (Bool-cases (rd == 0)) [
  | inl e ↦ rw e (
    m,
    refl,
    record {
      same_length = refl;
      reg = λ i k ne. let other : (i == rd) ≡ false = ground arith in rw other refl;
      mem = λ k q. refl;
    },
  )
  | inr e ↦
      let (m', d, w) = wr_u32_le-WordWritten m (register rd) v (omega arith) in
      let at : register rd / 8 ≡ 576 + 4 * rd = omega arith in
      rw e (
        m',
        d,
        record {
          same_length = w.patched.same_length;
          reg = λ i k ne. elim (Bool-cases (i == rd)) [
            | inl here ↦
                let same : i ≡ rd = ground arith in
                rw here (
                  ap (λ t. word m' t) {x = 576 + 4 * i} {y = register rd / 8} (omega arith)
                  ∙ w.word_is)
            | inr other ↦ rw other (
                word_kept (register rd / 8) 4 (576 + 4 * i) m m' w.patched
                  (beside i rd (ground arith)))
          ];
          mem = λ k q. w.patched.outside (1024 + k) (inr (omega arith));
        },
      )
]
  where
    beside :
        (i j : ℕ) → i ≢ j → (576 + 4 * i + 4 ≤ register j / 8) ⊎ (register j / 8 + 4 ≤ 576 + 4 * i)
    beside i j ne = elim (Bool-cases (ltb i j)) [
      | inl less ↦ inl (ground arith)
      | inr more ↦ inr (ground arith)
    ]

-- What became of the guest and of the length of space.
pub record Became (g : Guest) (m m' : Bytes) : Type 0 where
  pub same_length : length m' ≡ length m
  pub guest : SameGuest (length m - 1024) g (guest_of m')

pub rv32_guest_commit-Became :
    (vm : Vm) (g : Guest) (m : Bytes) (next : ℕ)
    → 1024 ≤ length m
    → Holds g m vm.space
    → (m' : Bytes) × (rv32_guest_commit vm next ≡ some (with_space vm m')) × Became (go next g) m m'
unfolding rv32_guest_commit
rv32_guest_commit-Became vm g m next h w =
    let (m1, d1, w1) = wr_u32_le-WordWritten vm.space g_pc next (omega (arith, w.same_length)) in
    let (m2, d2, w2) =
      wr_u32_le-WordWritten m1 (g_reg_base + 0) 0
        (omega (arith, w.same_length, w1.patched.same_length)) in
    (
      m2,
      rw (d1, d2) refl,
      record {
        same_length = w2.patched.same_length ∙ w1.patched.same_length ∙ w.same_length;
        guest = record {
          pc = word_kept 576 4 512 m1 m2 w2.patched (inl (omega arith)) ∙ w1.word_is;
          reg = λ i l. elim (Bool-cases (i == 0)) [
            | inl e ↦
                let first : i ≡ 0 = ground arith in
                rw e (ap (λ t. word m2 t) {x = 576 + 4 * i} {y = 576} (omega arith) ∙ w2.word_is)
            | inr e ↦
                let later : i ≢ 0 = ground arith in
                rw e (
                  word_kept 576 4 (576 + 4 * i) m1 m2 w2.patched (inr (omega arith))
                  ∙ word_kept 512 4 (576 + 4 * i) vm.space m1 w1.patched (inr (omega arith))
                  ∙ w.reg i l later)
          ];
          mem = λ k l.
              w2.patched.outside (1024 + k) (inr (omega arith))
              ∙ w1.patched.outside (1024 + k) (inr (omega arith))
              ∙ w.mem k l;
        };
      },
    )

-- The machine after the guest stopped.
abbrev pub halted : Vm → StopReason → Vm
halted vm reason = record vm {
  space =
      put vm.space (vm.halt / 8)
        (bit_or (byte_at vm.space (vm.halt / 8)) (u8 (shl 1 (7 - bit_and vm.halt 7))));
  rv_guest_stop_reason = reason;
  rv_guest_running = 0;
}

pub stop-eq :
    (vm : Vm) (reason : StopReason) → IsVm vm → rv32_guest_stop vm reason ≡ some (halted vm reason)
unfolding rv32_guest_stop vm_bit_set
stop-eq vm reason v =
    let inside : vm.halt / 8 < length vm.space = omega (arith, v.halt_inside, v.whole) in
    let b = bit_or (byte_at vm.space (vm.halt / 8)) (u8 (shl 1 (7 - bit_and vm.halt 7))) in
    rw (load-eq vm.space (vm.halt / 8) inside, store-eq vm.space (vm.halt / 8) b inside) refl

pub halted-IsVm : (vm : Vm) (reason : StopReason) → IsVm vm → IsVm (halted vm reason)
halted-IsVm vm reason v = record {
  whole = ap (λ t. 8 * t) (length-put vm.space (vm.halt / 8) _) ∙ v.whole;
  registers_inside = v.registers_inside;
  halt_high = v.halt_high;
  halt_inside = v.halt_inside;
  trace_is = v.trace_is;
  trace_small = v.trace_small;
  counted = v.counted;
}

-- The bit that `vm_bit_set` sets in its byte.
halt_mask : (halt : ℕ) → u8 (shl 1 (7 - bit_and halt 7)) ≡ 2 ^ (7 - halt % 8)
halt_mask halt =
    let low : bit_and halt 7 ≡ halt % 8 = bit_and-low_mask 3 halt in
    let most : 2 ^ (7 - halt % 8) ≤ 128 = omega (
      arith,
      pow-le (halt % 8) (7 - halt % 8),
      ap (λ t. 2 ^ t) {x = 7 - halt % 8 + halt % 8} {y = 7} (omega arith),
    ) in
    ap (λ t. u8 (1 * 2 ^ (7 - t))) low ∙ small (2 ^ (7 - halt % 8)) most
  where
    small : (x : ℕ) → x ≤ 128 → u8 (1 * x) ≡ x
    small x h = omega arith

-- The guest is left alone but for the bit that halts the machine.
pub halted-Became :
    (vm : Vm) (reason : StopReason)
    → IsVm vm
    → Became (set_halt vm.halt (guest_of vm.space)) vm.space (halted vm reason).space
halted-Became vm reason v =
    let high = v.halt_high in
    let b = bit_or (byte_at vm.space (vm.halt / 8)) (u8 (shl 1 (7 - bit_and vm.halt 7))) in
    let patched = put-Patched vm.space (vm.halt / 8) b in
    let inside : vm.halt / 8 < length vm.space = omega (arith, v.halt_inside, v.whole) in
    record {
      same_length = patched.same_length;
      guest = record {
        pc =
            word_kept (vm.halt / 8) 1 512 vm.space (halted vm reason).space patched
              (inl (omega arith));
        reg = λ i h.
            word_kept (vm.halt / 8) 1 (576 + 4 * i) vm.space (halted vm reason).space patched
              (inl (omega arith));
        mem = λ k h. elim (Bool-cases (1024 + k == vm.halt / 8)) [
          | inl here ↦
              let at : 1024 + k ≡ vm.halt / 8 = ground (arith, here) in
              rw here (
                byte_same (halted vm reason).space at
                ∙ byte_at-put_self vm.space (vm.halt / 8) b inside
                ∙ ap (λ t. u8 (bit_or t (u8 (shl 1 (7 - bit_and vm.halt 7)))))
                    (byte_same vm.space (sym at))
                ∙ ap (λ t. u8 (bit_or (byte_at vm.space (1024 + k)) t)) (halt_mask vm.halt))
          | inr other ↦ rw other (patched.outside (1024 + k) (beside k (ground (arith, other))))
        ];
      };
    }
  where
    beside :
        (k : ℕ) → 1024 + k ≢ vm.halt / 8 → (1024 + k < vm.halt / 8) ⊎ (vm.halt / 8 + 1 ≤ 1024 + k)
    beside k ne = elim (Bool-cases (ltb (1024 + k) (vm.halt / 8))) [
      | inl less ↦ inl (ground arith)
      | inr more ↦ inr (ground arith)
    ]
