-- ===== src/CopyEmit/Execution.antt =====
-- The rows of an addition or a subtraction, run after their layer was copied to the start of space.
use copy_space.Base.{
  ℕ, suc, ◌+◌, ◌-◌, ◌*◌, ◌/◌, ◌%◌, ◌^◌, ◌<◌, ◌≤◌, ◌≡◌, ◌≢◌, refl, sym, ap, ap₂, ◌∙◌, arith, Bool,
  true, false, inl, inr,
}
use mathlib.Core.Path.{subst}
use copy_space.Memory.Bits.{bit_at, bit_same}
use copy_space.Config.{Config, address_size, instruction_size}
use copy_space.Space.Model
use copy_space.Space.Model.{BitSpace, BitRound, number}
use copy_space.CopyEmit.{CopyImage}
use copy_space.CopyEmit.Code.{Operands, entry}
use copy_space.CopyEmit.Rows.{IsImage, row}
use copy_space.CopyEmit.Emission.{here, sum_bits}
use copy_space.CopyEmit.Machine.{Outside, Bits, moved-Bits, same_bit, number-same, RowIn, Steps-run}
use copy_space.CopyEmit.Group.{set_bit, set_bit-at, set_bit-ne, slot_at, IsInside, step_ahead}
use copy_space.CopyEmit.AddBit.{AddRows, Apart}
use copy_space.CopyEmit.Ripple.{ripple_runs}
use copy_space.CopyEmit.Carries.{place_at}
use copy_space.CopyEmit.Sum.{Entries, sum_lem, difference_lem}
use copy_space.CopyEmit.Layout.{AddSafe}
use copy_space.CopyEmit.Adds.{CodeWritten}
use copy_space.CopyEmit.AddCode.{lookup_field}
use copy_space.CopyEmit.Loaded.{
  Loaded, SameSpace, load_row, load_bit, rows_of_bit, BitRows-same, AddSafe-AddLayout,
}

-- `left + right` or `left - right` in 32 bits.
abbrev pub outcome : Bool → ℕ → ℕ → ℕ
outcome subtract l r = elim subtract [
  | true ↦ (l + (2 ^ 32 - r)) % 2 ^ 32
  | false ↦ (l + r) % 2 ^ 32
]

-- The round that ran the code: nothing failed, the destination holds the value, and apart from the
-- code, the destination, the carry and the temporary space is as it was.
pub record Computed (image : CopyImage) (x : Operands) (value : ℕ) (b : BitSpace) (r : BitRound)
    : Type 0 where
  pub succeeds : r.failed ≡ false
  pub value_is : number r.bits x.destination 32 ≡ value
  pub kept :
      (p : ℕ)
      → image.layer_bits ≤ p
      → Outside x.destination 32 p
      → p ≢ x.carry
      → Outside x.temporary 2 p
      → r.bits p ≡ b p

entry-zero : (s : Bool) → entry s 0 ≡ 0
unfolding entry
entry-zero false = refl
entry-zero true = refl

module _ (c : Config) (s : Bool) (image : CopyImage) (x : Operands) (image' : CopyImage)
    (b : BitSpace) (v : IsImage image) (safe : AddSafe image x)
    (done : CodeWritten s image x image') (g : SameSpace c image) (w : Bits b)
    (code_loaded : Loaded image'.buffer image.layer image.layer_bits b)
    (table_loaded : (i : ℕ) → i < 16 → b (x.table + i) ≡ bit_at image'.buffer (x.table + i)) where
  abbrev a : ℕ
  a = image.address_bits

  abbrev len : ℕ
  len = 3 * image.address_bits - 1

  low : 1 ≤ a
  low = omega (arith, safe.wide)

  carry_free : (image.layer_bits ≤ x.carry) × (x.carry + 1 ≤ image.space_bits)
  carry_free = let z = safe.free.1.1.1.1.1.0 in (z.after_code, z.inside)

  table_free : (image.layer_bits ≤ x.table) × (x.table + 16 ≤ image.space_bits)
  table_free = let e = safe.free.1.1.1.0 in (e.after_code, e.inside)

  abbrev b0 : BitSpace
  b0 = set_bit x.table x.carry b

  not_carry : {p n : ℕ} (i : ℕ) → i < n → Apart x.carry 1 p n → p + i ≢ x.carry
  not_carry i h (inl l) = omega arith
  not_carry i h (inr l) = omega arith

  loaded0 : Loaded image'.buffer image.layer image.layer_bits b0
  loaded0 p h = set_bit-ne x.table x.carry b p (omega (arith, carry_free)) ∙ code_loaded p h

  table0 : (i : ℕ) → i < 16 → b0 (x.table + i) ≡ b (x.table + i)
  table0 i h = set_bit-ne x.table x.carry b (x.table + i) (not_carry i h safe.carry_apart.0)

  entries : Entries s b0 x.table
  entries i h =
      ap₂ (λ y z. y + 2 * z) (table0 (2 * i) (omega arith) ∙ table_loaded (2 * i) (omega arith))
        (same_bit b0 {p = x.table + 2 * i + 1} {q = x.table + (2 * i + 1)} (omega arith)
          ∙ table0 (2 * i + 1) (omega arith)
          ∙ table_loaded (2 * i + 1) (omega arith)
          ∙ bit_same image'.buffer {p = x.table + (2 * i + 1)} {q = x.table + 2 * i + 1}
              (omega arith))
      ∙ done.entries i h

  no_carry : b0 x.carry ≡ 0
  no_carry = omega (
    arith,
    set_bit-at x.table x.carry b,
    same_bit b {p = x.table} {q = x.table + 0} (omega arith),
    same_bit b0 {p = x.table + 2 * 0} {q = x.table + 0} (omega arith),
    table0 0 (omega arith),
    entries 0 (omega arith),
    entry-zero s,
  )

  slot_is : (i : ℕ) → slot_at c i ≡ i * len
  slot_is i =
      let size : instruction_size c ≡ len = omega (arith, g.address, safe.wide) in
      omega (arith, ap (λ t. i * t) size)

  -- The position of a slot in the template layer and after it was copied.
  code_at : (k : ℕ) → here image + k * len ≡ image.layer + slot_at c (image.slot + k)
  code_at k = omega (
    arith,
    slot_is (image.slot + k),
    sum_bits image.slot k len,
    ap (λ t. image.slot * t) v.instruction_is,
  )

  slot_fits : (i : ℕ) → i < 256 → slot_at c i + len ≤ image.layer_bits
  slot_fits i h =
      let rest = sum_bits (i + 1) (255 - i) len in
      let one = sum_bits i 1 len in
      let all =
        ap₂ (λ n l. n * l) {x = i + 1 + (255 - i)} {y = 256} (omega arith) (sym v.instruction_is) in
      omega (arith, slot_is i, v.layer_is)

  six_fit : (i : ℕ) → i + 6 ≤ 256 → slot_at c i + 6 * len ≤ image.layer_bits
  six_fit i h =
      let five = sum_bits i 5 len in
      omega (arith, slot_fits (i + 5) (omega arith), slot_is i, slot_is (i + 5))

  reset : RowIn (address_size c) b (slot_at c image.slot) (row 1 x.carry x.table)
  reset =
      subst (λ t. RowIn t b (slot_at c image.slot) (row 1 x.carry x.table)) (sym g.address)
        (load_row image'.buffer image.layer image.layer_bits a b (slot_at c image.slot) (here image)
          _ low code_loaded (slot_fits image.slot (omega (arith, safe.room)))
          (omega (
            arith,
            code_at 0,
            slot_is image.slot,
            slot_is (image.slot + 0),
            sum_bits image.slot 0 len,
          ))
          done.rows.0)

  rows_of :
      (k : ℕ)
      → k < 32
      → AddRows
          (address_size c)
          b0
          (slot_at c (suc image.slot + 6 * k))
          (x.left + k)
          (x.right + k)
          x.carry
          x.temporary
          x.table
          (x.destination + k)
  rows_of k h =
      let i = suc image.slot + 6 * k in
      let first =
        rows_of_bit x a image'.buffer (here image + len) (image.slot + 1) 0 32 k h done.rows.1 in
      let next = code_at (1 + 6 * k) in
      let same = ap (slot_at c) {x = image.slot + (1 + 6 * k)} {y = i} (omega arith) in
      let spread = sum_bits 1 (6 * k) len in
      let f_place : lookup_field a (image.slot + 1 + 6 * k) ≡ slot_at c i + 3 * len + (a - 1) + a =
        omega (
          arith,
          slot_is i,
          sum_bits i 3 len,
          ap (λ t. t * len) {x = image.slot + 1 + 6 * k + 3} {y = i + 3} (omega arith),
        ) in
      subst
        (λ t.
          AddRows t b0 (slot_at c i) (x.left + k) (x.right + k) x.carry x.temporary x.table
            (x.destination + k))
        (sym g.address)
        (load_bit x image'.buffer image.layer image.layer_bits a b0 (slot_at c i)
          (here image + len + 6 * k * len) k (lookup_field a (image.slot + 1 + 6 * k)) low loaded0
          (six_fit i (omega (arith, safe.room))) (omega arith) f_place
          (BitRows-same x a image'.buffer _ (0 + k) _ (here image + len + 6 * k * len) k
            (image.slot + 1 + 6 * k) refl (omega arith) refl first))

  bit_in_space : {p n : ℕ} → 1 ≤ n → p + n ≤ image.space_bits → IsInside c p 1
  bit_in_space h l = (omega (arith, g.space), omega (arith, g.space))

  value_of :
      (s' : Bool) (b' : BitSpace)
      → s' ≡ s
      → Bits b'
      → ((i : ℕ)
          → i < 32
          → b' (x.destination + i) ≡ b0 (place_at b0 x.left x.right x.table x.carry i))
      → number b' x.destination 32 ≡ outcome s' (number b0 x.left 32) (number b0 x.right 32)
  value_of false b' e w' sums =
      sum_lem b0 b' x.destination x.left x.right x.table x.carry (moved-Bits 1 x.table x.carry b w)
        w' sums no_carry (subst (λ t. Entries t b0 x.table) (sym e) entries)
  value_of true b' e w' sums =
      difference_lem b0 b' x.destination x.left x.right x.table x.carry
        (moved-Bits 1 x.table x.carry b w) w' sums no_carry
        (subst (λ t. Entries t b0 x.table) (sym e) entries)

  -- Clearing the carry leaves an operand alone.
  operand_same : (p : ℕ) → Apart x.carry 1 p 32 → number b0 p 32 ≡ number b p 32
  operand_same p o = number-same b b0 p 32 λ q h l. set_bit-ne x.table x.carry b q (off o q h l)
    where
      off : Apart x.carry 1 p 32 → (q : ℕ) → p ≤ q → q < p + 32 → q ≢ x.carry
      off (inl r) q h l = omega arith
      off (inr r) q h l = omega arith

  pub code_computes :
      Computed image x
        (outcome s (number b x.left 32) (number b x.right 32))
        b
        (Model.run c 193 image.slot b)
  code_computes =
      let layout = AddSafe-AddLayout c image x v safe g in
      let w0 = moved-Bits 1 x.table x.carry b w in
      let (b', steps, summed) =
        ripple_runs c image.layer_bits (suc image.slot) x.destination x.left x.right x.table
          x.temporary x.carry (x.table / 16) b0 w0 layout rows_of in
      let whole =
        step_ahead c image.slot 0 192 image.slot (slot_at c image.slot) b b' 1 x.carry x.table
          (omega (arith, g.address, safe.wide)) (omega arith) (omega arith) reset (omega arith)
          (bit_in_space {n = 1} (omega arith) carry_free.1)
          (bit_in_space {n = 16} (omega arith) table_free.1) steps in
      let (bits, failed) = Steps-run c 193 image.slot b b' v.slot_low whole in
      let apart = safe.carry_apart.1.1 in
      record {
        succeeds = failed;
        value_is =
            ap (λ t. number t x.destination 32) bits
            ∙ value_of s b' refl summed.all_bits summed.sums
            ∙ ap₂ (outcome s) (operand_same x.left apart.1.0) (operand_same x.right apart.1.1.0);
        kept = λ p h o z t.
            ap (λ f. f p) bits ∙ summed.kept p h o z t ∙ set_bit-ne x.table x.carry b p z;
      }
