-- ===== src/Rv32/Values.antt =====
-- The values that the executor computes are those of RV32I.
use copy_space.Base.{
  ℕ, ◌+◌, ◌-◌, ◌*◌, ◌/◌, ◌%◌, ◌^◌, ◌<◌, ◌≤◌, ◌≡◌, refl, sym, ap, ◌∙◌, arith, some, false, not, ltb,
  leb, ◌==◌, Bool-cases, inl, inr, bit_and, bit_and-low_mask, bit_and-high_mask, pow-le, pow_sum,
}
use native.Mathlib.Nat.{add-mul-div_right, div-lt_iff_lt-mul, one-le-pow, mul_assoc}
use copy_space.Memory.{shr}
use copy_space.Rv32.{int32_sum, int32_overflows, int32_shr, int32_less}
use copy_space.Rv32.Decode.{funct3_of, funct7_of, imm_i, op_imm_other, op_value, branch_taken}
use copy_space.Rv32.Guest.{
  biased, shift_signed, signed_sum, register_value, immediate_value, branches,
}
use copy_space.Rv32.Decoded.{decoded}

pub int32_sum-eq : (a b : ℕ) → a < 2 ^ 32 → b < 2 ^ 32 → int32_sum a b ≡ signed_sum a b
unfolding int32_sum int32_overflows signed_sum
int32_sum-eq a b h k = ground arith

int32_less-eq : (a b : ℕ) → a < 2 ^ 32 → b < 2 ^ 32 → int32_less a b ≡ ltb (biased a) (biased b)
unfolding int32_less
int32_less-eq a b h k = ground arith

int32_shr-eq : (x k : ℕ) → x < 2 ^ 32 → k < 32 → int32_shr x k ≡ shift_signed x k
unfolding int32_shr
int32_shr-eq x k h l = elim (Bool-cases (ltb x (2 ^ 31))) [
  | inl e ↦ rw e refl
  | inr e ↦
      let p = 2 ^ (32 - k) in
      let whole : p * 2 ^ k ≡ 2 ^ 32 =
        sym (pow_sum (32 - k) k) ∙ ap (λ t. 2 ^ t) {x = 32 - k + k} {y = 32} (omega arith) in
      let positive = one-le-pow (32 - k) 2 (omega arith) in
      let step = one-le-pow k 2 (omega arith) in
      let most : p ≤ 2 ^ 32 =
        omega (arith, pow-le k (32 - k), ap (λ t. 2 ^ t) {x = 32 - k + k} {y = 32} (omega arith)) in
      let small : x / 2 ^ k < p =
        (div-lt_iff_lt-mul {k = 2 ^ k} {x = x} {y = p} (omega arith)).1 (omega (arith, whole)) in
      let signs : 4294967295 * p * 2 ^ k ≡ 18446744069414584320 =
        mul_assoc 4294967295 p (2 ^ k) ∙ ap (λ t. 4294967295 * t) whole in
      let shifted : (x + 18446744069414584320) / 2 ^ k ≡ x / 2 ^ k + 4294967295 * p =
        ap (λ t. (x + t) / 2 ^ k) (sym signs)
        ∙ add-mul-div_right x (4294967295 * p) (omega arith) in
      rw e (omega (arith, shifted))
]

low_bits : (b : ℕ) → bit_and b 0x1f ≡ b % 32
low_bits b = bit_and-low_mask 5 b

pub even : (x : ℕ) → x < 2 ^ 32 → bit_and x 0xfffffffe ≡ x / 2 * 2
even x h =
    bit_and-high_mask 1 x (2 ^ 31 - 1)
    ∙ ap (λ t. t * 2 ^ 1) (bit_and-low_mask 31 (x / 2 ^ 1))
    ∙ omega arith

module _ (insn a b : ℕ) (h : a < 2 ^ 32) (k : b < 2 ^ 32) where
  pub branch_taken-eq : branch_taken (funct3_of insn) a b ≡ branches (decoded insn) a b
  unfolding branch_taken branches
  branch_taken-eq =
      let ge : not (int32_less a b) ≡ leb (biased b) (biased a) =
        ap not (int32_less-eq a b h k) ∙ ground arith in
      let geu : not (ltb a b) ≡ leb b a = ground arith in rw (ge, geu, int32_less-eq a b h k) refl

  pub op_value-eq : op_value insn a b ≡ register_value (decoded insn) a b
  unfolding op_value register_value
  op_value-eq =
      rw (low_bits b, int32_less-eq a b h k, int32_shr-eq a (b % 32) h (omega arith))
        (elim (Bool-cases (funct7_of insn == 0)) [
          | inl e ↦
              let other : (funct7_of insn == 0x20) ≡ false = ground (arith, e) in rw (e, other) refl
          | inr e ↦ elim (Bool-cases (funct7_of insn == 0x20)) [
            | inl e' ↦ rw (e, e') refl
            | inr e' ↦ rw (e, e') refl
          ]
        ])

module _ (insn a : ℕ) (h : a < 2 ^ 32) (w : insn < 2 ^ 32) (k : imm_i insn < 2 ^ 32) where
  pub op_imm_other-eq : op_imm_other insn a (imm_i insn) ≡ immediate_value (decoded insn) a
  unfolding op_imm_other immediate_value
  op_imm_other-eq =
      let shamt = bit_and (shr insn 20) 0x1f in
      let small : shamt < 32 = omega (arith, low_bits (shr insn 20)) in
      let seven : shr insn 25 ≡ funct7_of insn = omega (arith, bit_and-low_mask 7 (shr insn 25)) in
      let tested : (shr insn 25 == 0) ≡ (funct7_of insn == 0) = ap (λ t. t == 0) seven in
      rw (int32_less-eq a (imm_i insn) h k, int32_shr-eq a shamt h small, tested) refl

pub signed_sum-lt : (a b x : ℕ) → signed_sum a b ≡ some x → x < 2 ^ 32
unfolding signed_sum
signed_sum-lt a b x h = ground (arith, h)
