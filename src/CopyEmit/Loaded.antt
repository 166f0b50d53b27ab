-- ===== src/CopyEmit/Loaded.antt =====
-- Copy code after its layer was copied to the start of space, where the machine runs it.
use copy_space.Base.{
  ℕ, zero, suc, ◌+◌, ◌-◌, ◌*◌, ◌/◌, ◌<◌, ◌≤◌, ◌≡◌, refl, sym, ap, ap₂, ◌∙◌, arith, ◌⊎◌, inl, inr,
}
use mathlib.Core.Path.{subst}
use copy_space.Memory.{Bytes}
use copy_space.Memory.Bits.{bit_at}
use copy_space.Config.{Config, space_size, address_size, instruction_size}
use copy_space.Field.{read_field}
use copy_space.Space.{Instruction}
use copy_space.Space.Model.{BitSpace, number}
use copy_space.CopyEmit.{CopyImage}
use copy_space.CopyEmit.Code.{Operands, Range}
use copy_space.CopyEmit.Rows.{IsImage, RowAt, row}
use copy_space.CopyEmit.Emission.{Spelled, sum_bits}
use copy_space.CopyEmit.Machine.{RowIn}
use copy_space.CopyEmit.AddBit.{AddRows, Behind, Apart}
use copy_space.CopyEmit.Carries.{AddLayout}
use copy_space.CopyEmit.Layout.{RangeFree, AddSafe}
use copy_space.CopyEmit.AddCode.{add_rows, lookup_field, sum_rows}

-- The first `code` bits of space are those of the buffer from `layer` on.
abbrev pub Loaded : Bytes → ℕ → ℕ → BitSpace → Type 0
Loaded m layer code b = (p : ℕ) → p < code → b p ≡ bit_at m (layer + p)

copied_field :
    (m : Bytes) (layer code : ℕ) (b : BitSpace) (p n : ℕ)
    → Loaded m layer code b
    → p + n ≤ code
    → number b p n ≡ read_field m (layer + p) n
unfolding number read_field
copied_field m layer code b p zero same h = refl
copied_field m layer code b p (suc n) same h =
    ap₂ (λ x y. x + 2 * y) (same p (omega arith))
      (copied_field m layer code b (p + 1) n same (omega arith)
        ∙ ap (λ t. read_field m t n) {x = layer + (p + 1)} {y = layer + p + 1} (omega arith))

pub load_row :
    (m : Bytes) (layer code a : ℕ) (b : BitSpace) (at q : ℕ) (r : Instruction)
    → 1 ≤ a
    → Loaded m layer code b
    → at + (3 * a - 1) ≤ code
    → q ≡ layer + at
    → RowAt a m q r
    → RowIn a b at r
load_row m layer code a b at q r h same fits e w = record {
  n =
      copied_field m layer code b at (a - 1) same (omega arith)
      ∙ ap (λ t. read_field m t (a - 1)) (sym e)
      ∙ w.n;
  dst =
      copied_field m layer code b (at + (a - 1)) a same (omega arith)
      ∙ ap (λ t. read_field m t a) {x = layer + (at + (a - 1))} {y = q + (a - 1)} (omega arith)
      ∙ w.dst;
  src =
      copied_field m layer code b (at + (a - 1) + a) a same (omega arith)
      ∙ ap (λ t. read_field m t a) {x = layer + (at + (a - 1) + a)} {y = q + (a - 1) + a}
          (omega arith)
      ∙ w.src;
}

-- The six rows of bit `k` at `p`, whose first slot is `slot`.
abbrev pub BitRows : Operands → ℕ → Bytes → ℕ → ℕ → ℕ → Type 0
BitRows x a m p k slot = Spelled a m p (add_rows x k (lookup_field a slot))

pub BitRows-same :
    (x : Operands) (a : ℕ) (m : Bytes) (p k slot p' k' slot' : ℕ)
    → p ≡ p'
    → k ≡ k'
    → slot ≡ slot'
    → BitRows x a m p k slot
    → BitRows x a m p' k' slot'
BitRows-same x a m p k slot p' k' slot' e f g w =
    subst (λ t. BitRows x a m t k' slot') e
      (subst (λ t. BitRows x a m p t slot') f (subst (λ t. BitRows x a m p k t) g w))

pub rows_of_bit :
    (x : Operands) (a : ℕ) (m : Bytes) (at slot bit n k : ℕ)
    → k < n
    → Spelled a m at (sum_rows x a slot bit n)
    → BitRows x a m (at + 6 * k * (3 * a - 1)) (bit + k) (slot + 6 * k)
unfolding sum_rows
rows_of_bit x a m at slot bit zero k h w = absurd (omega arith)
rows_of_bit x a m at slot bit (suc n) zero h (w1, (w2, (w3, (w4, (w5, (w6, ws)))))) =
    BitRows-same x a m at bit slot (at + 6 * 0 * (3 * a - 1)) (bit + 0) (slot + 6 * 0) (omega arith)
      (omega arith) (omega arith) (w1, (w2, (w3, (w4, (w5, (w6, tt))))))
rows_of_bit x a m at slot bit (suc n) (suc k) h (w1, (w2, (w3, (w4, (w5, (w6, ws)))))) =
    let l = 3 * a - 1 in
    let at' = at + l + l + l + l + l + l in
    BitRows-same x a m (at' + 6 * k * l) (bit + 1 + k) (slot + 6 + 6 * k) (at + 6 * suc k * l)
      (bit + suc k) (slot + 6 * suc k) (omega (arith, spread k l)) (omega arith) (omega arith)
      (rows_of_bit x a m at' (slot + 6) (bit + 1) n k (omega arith) ws)
  where
    spread : (k l : ℕ) → 6 * suc k * l ≡ 6 * k * l + 6 * l
    spread k l = grind arith

pub load_bit :
    (x : Operands) (m : Bytes) (layer code a : ℕ) (b : BitSpace) (at q k f : ℕ)
    → 1 ≤ a
    → Loaded m layer code b
    → at + 6 * (3 * a - 1) ≤ code
    → q ≡ layer + at
    → f ≡ at + 3 * (3 * a - 1) + (a - 1) + a
    → Spelled a m q (add_rows x k f)
    → AddRows a b at (x.left + k) (x.right + k) x.carry x.temporary x.table (x.destination + k)
load_bit x m layer code a b at q k f h same fits e place
      (w1, (w2, (w3, (w4, (w5, (w6, nothing)))))) =
    let l = 3 * a - 1 in
    record {
      first =
          subst (λ t. RowIn a b at (row 1 (t + 1) (x.left + k))) place
            (load_row m layer code a b at q _ h same (omega arith) e w1);
      second =
          subst (λ t. RowIn a b (at + l) (row 1 (t + 2) (x.right + k))) place
            (load_row m layer code a b (at + l) (q + l) _ h same (omega arith) (omega arith) w2);
      third =
          subst (λ t. RowIn a b (at + 2 * l) (row 1 (t + 3) x.carry)) place
            (load_row m layer code a b (at + 2 * l) (q + l + l) _ h same (omega arith) (omega arith)
              w3);
      lookup =
          load_row m layer code a b (at + 3 * l) (q + l + l + l) _ h same (omega arith)
            (omega arith) w4;
      result =
          load_row m layer code a b (at + 4 * l) (q + l + l + l + l) _ h same (omega arith)
            (omega arith) w5;
      carry =
          load_row m layer code a b (at + 5 * l) (q + l + l + l + l + l) _ h same (omega arith)
            (omega arith) w6;
    }

swap : {p q : ℕ} (n k : ℕ) → Apart p n q k → Apart q k p n
swap n k (inl h) = inr h
swap n k (inr h) = inl h

same_or_swap : {p q : ℕ} → (p ≡ q) ⊎ Apart q 32 p 32 → (p ≡ q) ⊎ Apart p 32 q 32
same_or_swap (inl h) = inl h
same_or_swap (inr h) = inr (swap 32 32 h)

-- The machine has the image's space.
pub record SameSpace (c : Config) (image : CopyImage) : Type 0 where
  pub address : address_size c ≡ image.address_bits
  pub space : space_size c ≡ image.space_bits

free-Behind :
    (c : Config) (image : CopyImage) (r : Range)
    → SameSpace c image
    → RangeFree image r
    → Behind c image.layer_bits r.0 r.1
free-Behind c image r g f = record {
  after_code = f.after_code;
  inside = omega (arith, f.inside, g.space);
}

-- What `add_valid` makes sure of is what the machine needs.
pub AddSafe-AddLayout :
    (c : Config) (image : CopyImage) (x : Operands)
    → IsImage image
    → AddSafe image x
    → SameSpace c image
    → AddLayout c image.layer_bits
        (suc image.slot)
        x.destination
        x.left
        x.right
        x.table
        x.temporary
        x.carry
        (x.table / 16)
AddSafe-AddLayout c image x v s g =
    let (d, (l, (r, (e, (t, (z, nothing)))))) = s.free in
    let (e_d, (e_l, (e_r, no_more))) = s.table_apart in
    let (t_e, (t_d, (t_l, (t_r, none_left)))) = s.temporary_apart in
    let (z_e, (z_t, (z_d, (z_l, (z_r, at_end))))) = s.carry_apart in
    let size : instruction_size c ≡ image.instruction_bits =
      omega (arith, g.address, v.instruction_is, s.wide) in
    let total = sum_bits (suc image.slot + 192) (63 - image.slot) (instruction_size c) in
    let whole =
      ap₂ (λ n k. n * k) {x = suc image.slot + 192 + (63 - image.slot)} {y = 256}
        (omega (arith, s.room)) size in
    record {
      wide = omega (arith, s.wide, g.address);
      rows_inside = omega (arith, v.layer_is);
      code_inside = omega (arith, v.layer_fits, v.bytes_fit, v.space_is, g.space);
      left_place = free-Behind c image _ g l;
      right_place = free-Behind c image _ g r;
      z_place = free-Behind c image _ g z;
      t_place = free-Behind c image _ g t;
      e_place = free-Behind c image _ g e;
      d_place = free-Behind c image _ g d;
      aligned = omega (arith, s.aligned);
      table_temporary = swap 2 16 t_e;
      carry_temporary = z_t;
      dest_temporary = swap 2 32 t_d;
      left_temporary = swap 2 32 t_l;
      right_temporary = swap 2 32 t_r;
      dest_carry = swap 1 32 z_d;
      left_carry = swap 1 32 z_l;
      right_carry = swap 1 32 z_r;
      table_carry = swap 1 16 z_e;
      table_dest = e_d;
      left_dest = same_or_swap s.left_whole;
      right_dest = same_or_swap s.right_whole;
    }
