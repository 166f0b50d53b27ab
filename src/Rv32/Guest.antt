-- ===== src/Rv32/Guest.antt =====
-- The guest as RV32I describes it: a program counter, registers as a function, and memory as a
-- function from addresses to bytes. What an instruction does is an effect on that.
use copy_space.Base.{ℕ, ◌+◌, ◌-◌, ◌*◌, ◌/◌, ◌%◌, ◌^◌, ◌<◌, ◌≡◌, Option, none, some, ◌>>=◌}
use copy_space.Base.{
  Bool, true, false, not, ◌&&◌, ltb, leb, ◌==◌, if◌then◌else◌, bit_and, bit_or, bit_xor,
}
use copy_space.Memory.{Bytes, byte_at}
use copy_space.Rv32.{StopReason, rv_stop_halt, rv_stop_unsupported, rv_stop_align, rv_stop_bounds}
use copy_space.Rv32.Memory.{word}

pub record Guest : Type 0 where
  pub pc : ℕ
  pub reg : ℕ → ℕ
  pub mem : ℕ → ℕ

-- The guest that lies in space.
abbrev pub guest_of : Bytes → Guest
guest_of m = record {
  pc = word m 512;
  reg = λ i. word m (576 + 4 * i);
  mem = λ k. byte_at m (1024 + k);
}

-- The same program counter, registers and `size` bytes of memory.
pub record SameGuest (size : ℕ) (g g' : Guest) : Type 0 where
  pub pc : g'.pc ≡ g.pc
  pub reg : (i : ℕ) → i < 32 → g'.reg i ≡ g.reg i
  pub mem : (k : ℕ) → k < size → g'.mem k ≡ g.mem k

pub data Effect : Type 0 where
  write : (rd v next : ℕ) → Effect
  move : (next : ℕ) → Effect
  put : (width addr v next : ℕ) → Effect
  stop : StopReason → Effect

abbrev pub set_reg : ℕ → ℕ → Guest → Guest
set_reg rd v g = record g { reg = λ i. if i == rd then v % 2 ^ 32 else g.reg i }

abbrev pub put_mem : ℕ → ℕ → ℕ → Guest → Guest
put_mem width addr v g = record g {
  mem =
      λ k. if leb addr k && ltb k (addr + width) then v / 2 ^ (8 * (k - addr)) % 2 ^ 8 else g.mem k;
}

-- The next program counter, and register 0 reads 0.
abbrev pub go : ℕ → Guest → Guest
go next g = record g { pc = next % 2 ^ 32; reg = λ i. if i == 0 then 0 else g.reg i }

-- The bit of space that halts the machine may lie in the guest's memory, which is space from byte
-- 1024 on; the highest bit of a byte is the first.
abbrev pub set_halt : ℕ → Guest → Guest
set_halt halt g = record g {
  mem =
      λ k. if 1024 + k == halt / 8 then bit_or (g.mem k) (2 ^ (7 - halt % 8)) % 2 ^ 8 else g.mem k;
}

-- The guest after an effect, on a machine that bit `halt` halts.
abbrev pub after : ℕ → Effect → Guest → Guest
after halt (write rd v next) g = go next (set_reg rd v g)
after halt (move next) g = go next g
after halt (put width addr v next) g = go next (put_mem width addr v g)
after halt (stop reason) g = set_halt halt g

abbrev pub half_at : Guest → ℕ → ℕ
half_at g k = g.mem k + g.mem (k + 1) * 2 ^ 8

abbrev pub word_at : Guest → ℕ → ℕ
word_at g k = half_at g k + g.mem (k + 2) * 2 ^ 16 + g.mem (k + 3) * 2 ^ 24

-- A number of `w` bits as a signed one, in 32 bits.
abbrev pub signed : ℕ → ℕ → ℕ
signed w x = if ltb x (2 ^ (w - 1)) then x else x + (2 ^ 32 - 2 ^ w)

-- An access must be aligned and lie in memory.
abbrev pub access : ℕ → ℕ → ℕ → Effect → Effect
access size addr width e =
    if not (addr % width == 0)
    then stop rv_stop_align
    else if ltb size (addr + width)
    then stop rv_stop_bounds
    else e

-- The fields of an instruction as RV32I lays them out, the immediates with their signs extended.
pub record Fields : Type 0 where
  pub opcode : ℕ
  pub rd : ℕ
  pub rs1 : ℕ
  pub rs2 : ℕ
  pub funct3 : ℕ
  pub funct7 : ℕ
  pub immediate_i : ℕ
  pub immediate_s : ℕ
  pub immediate_b : ℕ
  pub immediate_u : ℕ
  pub immediate_j : ℕ

-- The number that `n` bits of an instruction from bit `low` on stand for.
abbrev pub field : ℕ → ℕ → ℕ → ℕ
field insn low n = insn / 2 ^ low % 2 ^ n

abbrev pub fields_of : ℕ → Fields
fields_of insn = record {
  opcode = field insn 0 7;
  rd = field insn 7 5;
  rs1 = field insn 15 5;
  rs2 = field insn 20 5;
  funct3 = field insn 12 3;
  funct7 = field insn 25 7;
  immediate_i = signed 12 (field insn 20 12);
  immediate_s = signed 12 (field insn 7 5 + field insn 25 7 * 2 ^ 5);
  immediate_b = signed 13 (
      field insn 8 4 * 2
      + field insn 25 6 * 2 ^ 5
      + field insn 7 1 * 2 ^ 11
      + field insn 31 1 * 2 ^ 12);
  immediate_u = field insn 12 20 * 2 ^ 12;
  immediate_j = signed 21 (
      field insn 21 10 * 2
      + field insn 20 1 * 2 ^ 11
      + field insn 12 8 * 2 ^ 12
      + field insn 31 1 * 2 ^ 20);
}

-- A register as a signed number, moved up by 2 ^ 31 so that it is not negative.
abbrev pub biased : ℕ → ℕ
biased x = (x + 2 ^ 31) % 2 ^ 32

abbrev pub below : ℕ → ℕ → ℕ
below a b = if ltb a b then 1 else 0

-- A shift to the right of a number whose sign is extended to 64 bits.
abbrev pub shift_signed : ℕ → ℕ → ℕ
shift_signed x k = if ltb x (2 ^ 31) then x / 2 ^ k else (x + (2 ^ 64 - 2 ^ 32)) / 2 ^ k % 2 ^ 32

-- The sum of two signed registers, `none` where it is no signed number of 32 bits: the executor
-- adds there what C leaves undefined.
unfoldable pub signed_sum : ℕ → ℕ → Option ℕ
signed_sum a b =
    let sum = biased a + biased b in
    if leb (2 ^ 31) sum && ltb sum (2 ^ 32 + 2 ^ 31) then some ((a + b) % 2 ^ 32) else none

-- ADD, SLL, SLT, SLTU, XOR, SRL, OR, AND, SUB and SRA on two registers.
unfoldable pub register_value : Fields → ℕ → ℕ → Option ℕ
register_value f a b =
    if f.funct7 == 0
    then if f.funct3 == 0
      then some ((a + b) % 2 ^ 32)
      else if f.funct3 == 1
      then some (a * 2 ^ (b % 32) % 2 ^ 32)
      else if f.funct3 == 2
      then some (below (biased a) (biased b))
      else if f.funct3 == 3
      then some (below a b)
      else if f.funct3 == 4
      then some (bit_xor a b)
      else if f.funct3 == 5
      then some (a / 2 ^ (b % 32))
      else if f.funct3 == 6
      then some (bit_or a b)
      else if f.funct3 == 7
      then some (bit_and a b)
      else none
    else if f.funct7 == 32
    then if f.funct3 == 0
      then some ((a + (2 ^ 32 - b)) % 2 ^ 32)
      else if f.funct3 == 5
      then some (shift_signed a (b % 32))
      else none
    else none

-- SLTI, SLTIU, XORI, ORI, ANDI, SLLI, SRLI and SRAI; the shifts have their amount in the place of
-- the second register.
unfoldable pub immediate_value : Fields → ℕ → Option ℕ
immediate_value f a =
    if f.funct3 == 2
    then some (below (biased a) (biased f.immediate_i))
    else if f.funct3 == 3
    then some (below a f.immediate_i)
    else if f.funct3 == 4
    then some (bit_xor a f.immediate_i)
    else if f.funct3 == 6
    then some (bit_or a f.immediate_i)
    else if f.funct3 == 7
    then some (bit_and a f.immediate_i)
    else if f.funct3 == 1
    then if f.funct7 == 0 then some (a * 2 ^ f.rs2 % 2 ^ 32) else none
    else if f.funct3 == 5
    then if f.funct7 == 0
      then some (a / 2 ^ f.rs2)
      else if f.funct7 == 32
      then some (shift_signed a f.rs2)
      else none
    else none

-- BEQ, BNE, BLT, BGE, BLTU and BGEU.
unfoldable pub branches : Fields → ℕ → ℕ → Option Bool
branches f a b =
    if f.funct3 == 0
    then some (a == b)
    else if f.funct3 == 1
    then some (not (a == b))
    else if f.funct3 == 4
    then some (ltb (biased a) (biased b))
    else if f.funct3 == 5
    then some (leb (biased b) (biased a))
    else if f.funct3 == 6
    then some (ltb a b)
    else if f.funct3 == 7
    then some (leb b a)
    else none

-- The effect of an instruction, `none` where the executor forms an undefined sum.
module _ (size : ℕ) (g : Guest) (f : Fields) where
  abbrev following : ℕ
  following = (g.pc + 4) % 2 ^ 32

  abbrev pub value_effect : Option ℕ → Effect
  value_effect none = stop rv_stop_unsupported
  value_effect (some v) = write f.rd v following

  abbrev pub load_effect : ℕ → Effect
  load_effect addr =
      if f.funct3 == 0
      then access size addr 1 (write f.rd (signed 8 (g.mem addr)) following)
      else if f.funct3 == 1
      then access size addr 2 (write f.rd (signed 16 (half_at g addr)) following)
      else if f.funct3 == 2
      then access size addr 4 (write f.rd (word_at g addr) following)
      else if f.funct3 == 4
      then access size addr 1 (write f.rd (g.mem addr) following)
      else if f.funct3 == 5
      then access size addr 2 (write f.rd (half_at g addr) following)
      else stop rv_stop_unsupported

  abbrev pub store_effect : ℕ → Effect
  store_effect addr =
      let v = g.reg f.rs2 in
      if f.funct3 == 0
      then access size addr 1 (put 1 addr v following)
      else if f.funct3 == 1
      then access size addr 2 (put 2 addr v following)
      else if f.funct3 == 2
      then access size addr 4 (put 4 addr v following)
      else stop rv_stop_unsupported

  abbrev pub immediate_effect : Option Effect
  immediate_effect =
      if f.funct3 == 0
      then (do v ← signed_sum (g.reg f.rs1) f.immediate_i; some (write f.rd v following))
      else some (value_effect (immediate_value f (g.reg f.rs1)))

  abbrev pub branch_effect : Option Bool → Option Effect
  branch_effect none = some (stop rv_stop_unsupported)
  branch_effect (some true) = do target ← signed_sum g.pc f.immediate_b; some (move target)
  branch_effect (some false) = some (move following)

  abbrev pub jalr_effect : ℕ → Effect
  jalr_effect target =
      if f.funct3 == 0 then write f.rd following (target / 2 * 2) else stop rv_stop_unsupported

  unfoldable pub opcode_effect : Option Effect
  opcode_effect =
      if f.opcode == 0x37
      then some (write f.rd f.immediate_u following)
      else if f.opcode == 0x17
      then some (write f.rd ((g.pc + f.immediate_u) % 2 ^ 32) following)
      else if f.opcode == 0x13
      then immediate_effect
      else if f.opcode == 0x33
      then some (value_effect (register_value f (g.reg f.rs1) (g.reg f.rs2)))
      else if f.opcode == 0x03
      then (do addr ← signed_sum (g.reg f.rs1) f.immediate_i; some (load_effect addr))
      else if f.opcode == 0x23
      then (do addr ← signed_sum (g.reg f.rs1) f.immediate_s; some (store_effect addr))
      else if f.opcode == 0x63
      then branch_effect (branches f (g.reg f.rs1) (g.reg f.rs2))
      else if f.opcode == 0x6f
      then (do target ← signed_sum g.pc f.immediate_j; some (write f.rd following target))
      else if f.opcode == 0x67
      then (do target ← signed_sum (g.reg f.rs1) f.immediate_i; some (jalr_effect target))
      else some (stop rv_stop_unsupported)

-- What a step does, with `size` bytes of memory.
unfoldable pub effect : ℕ → Guest → Option Effect
effect size g =
    let insn = word_at g g.pc in
    if ltb size (g.pc + 4)
    then some (stop rv_stop_bounds)
    else if insn == 0
    then some (stop rv_stop_halt)
    else opcode_effect size g (fields_of insn)
