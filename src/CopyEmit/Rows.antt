-- ===== src/CopyEmit/Rows.antt =====
-- Rows that `cs_copy_row` and `cs_copy_emit` write into an image.
use copy_space.Base.{
  ℕ, ◌+◌, ◌-◌, ◌*◌, ◌%◌, ◌^◌, ◌<◌, ◌≤◌, ◌≡◌, ◌≢◌, refl, ap, ◌∙◌, arith, Bool, true, false, some,
  ◌>>=◌, length, Bool-cases, inl, inr,
}
use mathlib.Core.Path.{subst}
use native.Mathlib.Nat.{mod-eq_of_lt}
use copy_space.Memory.{Bytes}
use copy_space.Memory.Bits.{bit_at}
use copy_space.BitCopy.Spec.{Returns, Returns-bind}
use copy_space.Field.{read_field}
use copy_space.Field.Meaning.{read_field-same}
use copy_space.Field.Encode.{FieldWritten, read_field-written}
use copy_space.Space.{Instruction}
use copy_space.Space.Valid.{slot-le}
use copy_space.Core.Rows.{Kept}
use copy_space.CopyEmit.{CopyImage, with_buffer, fits, field, row_valid, write_row, cs_copy_row}
use copy_space.CopyEmit.Field.{field-FieldWritten}

-- What `cs_copy_image_init` sets up and every call keeps.
pub record IsImage (image : CopyImage) : Type 0 where
  pub same_bytes : length image.buffer ≡ image.bytes
  pub address_low : 2 ≤ image.address_bits
  pub address_high : image.address_bits ≤ 31
  pub space_is : image.space_bits ≡ 2 ^ image.address_bits
  pub count_is : image.count_bits ≡ image.address_bits - 1
  pub instruction_is : image.instruction_bits ≡ 3 * image.address_bits - 1
  pub layer_is : image.layer_bits ≡ 256 * image.instruction_bits
  pub layer_aligned : image.layer % 8 ≡ 0
  pub layer_fits : image.layer + image.layer_bits ≤ 8 * image.bytes
  pub bytes_fit : 8 * image.bytes ≤ 2 ^ image.address_bits
  pub slot_low : 3 ≤ image.slot
  pub slot_high : image.slot ≤ 255

-- A row that the machine can run: its count is less than half of space and its ranges lie in it.
pub record RowFits (image : CopyImage) (r : Instruction) : Type 0 where
  pub count_small : r.n < 2 ^ image.count_bits
  pub destination_inside : r.dst + r.n ≤ image.space_bits
  pub source_inside : r.src + r.n ≤ image.space_bits
  pub destination_small : r.dst < image.space_bits
  pub source_small : r.src < image.space_bits

-- The three numbers at `at` are those of the row.
pub record RowAt (address_bits : ℕ) (m : Bytes) (at : ℕ) (r : Instruction) : Type 0 where
  pub n : read_field m at (address_bits - 1) ≡ r.n
  pub dst : read_field m (at + (address_bits - 1)) address_bits ≡ r.dst
  pub src : read_field m (at + (address_bits - 1) + address_bits) address_bits ≡ r.src

abbrev pub row : ℕ → ℕ → ℕ → Instruction
row n dst src = record { n = n; dst = dst; src = src }

kept_field :
    (m m' : Bytes) (p n x : ℕ)
    → ((q : ℕ) → p ≤ q → q < p + n → bit_at m' q ≡ bit_at m q)
    → read_field m p n ≡ x
    → read_field m' p n ≡ x
kept_field m m' p n x same e =
    read_field-same m m' p n (λ k h. same (p + k) (omega arith) (omega arith)) ∙ e

pub RowAt-kept :
    (a : ℕ) (m m' : Bytes) (at : ℕ) (r : Instruction)
    → 1 ≤ a
    → ((q : ℕ) → at ≤ q → q < at + (3 * a - 1) → bit_at m' q ≡ bit_at m q)
    → RowAt a m at r
    → RowAt a m' at r
RowAt-kept a m m' at r h same w = record {
  n = kept_field m m' _ _ _ (λ q p k. same q (omega arith) (omega arith)) w.n;
  dst = kept_field m m' _ _ _ (λ q p k. same q (omega arith) (omega arith)) w.dst;
  src = kept_field m m' _ _ _ (λ q p k. same q (omega arith) (omega arith)) w.src;
}

three_fields-Kept :
    (a at x y z : ℕ) (m m1 m2 m3 : Bytes)
    → 1 ≤ a
    → FieldWritten at x 0 (a - 1) m m1
    → FieldWritten (at + (a - 1)) y 0 a m1 m2
    → FieldWritten (at + (a - 1) + a) z 0 a m2 m3
    → Kept at (3 * a - 1) m m3
three_fields-Kept a at x y z m m1 m2 m3 h w1 w2 w3 = record {
  same_length = w3.same_length ∙ w2.same_length ∙ w1.same_length;
  below = λ q k. w3.below q (omega arith) ∙ w2.below q (omega arith) ∙ w1.below q (omega arith);
  above = λ q k. w3.above q (omega arith) ∙ w2.above q (omega arith) ∙ w1.above q (omega arith);
}

three_fields-RowAt :
    (a at : ℕ) (r : Instruction) (m m1 m2 m3 : Bytes)
    → r.n < 2 ^ (a - 1)
    → r.dst < 2 ^ a
    → r.src < 2 ^ a
    → FieldWritten at r.n 0 (a - 1) m m1
    → FieldWritten (at + (a - 1)) r.dst 0 a m1 m2
    → FieldWritten (at + (a - 1) + a) r.src 0 a m2 m3
    → RowAt a m3 at r
three_fields-RowAt a at r m m1 m2 m3 hn hd hs w1 w2 w3 = record {
  n =
      kept_field m1 m3 at (a - 1) r.n (λ q p z. w3.below q (omega arith) ∙ w2.below q (omega arith))
        (read_field-written m m1 at r.n (a - 1) w1 ∙ mod-eq_of_lt hn);
  dst =
      kept_field m2 m3 (at + (a - 1)) a r.dst (λ q p z. w3.below q (omega arith))
        (read_field-written m1 m2 (at + (a - 1)) r.dst a w2 ∙ mod-eq_of_lt hd);
  src = read_field-written m2 m3 (at + (a - 1) + a) r.src a w3 ∙ mod-eq_of_lt hs;
}

abbrev pub RowWritten : ℕ → ℕ → Instruction → Bytes → Bytes → Type 0
RowWritten a at r m m' = RowAt a m' at r × Kept at (3 * a - 1) m m'

write_fields-RowWritten :
    (a at : ℕ) (r : Instruction) (m : Bytes)
    → 1 ≤ a
    → r.n < 2 ^ (a - 1)
    → r.dst < 2 ^ a
    → r.src < 2 ^ a
    → at + (3 * a - 1) ≤ 8 * length m
    → Returns
        (field m at (a - 1) r.n >>= λ m1.
          field m1 (at + (a - 1)) a r.dst >>= λ m2. field m2 (at + (a - 1) + a) a r.src)
        (RowWritten a at r m)
write_fields-RowWritten a at r m h hn hd hs fits =
    Returns-bind (FieldWritten at r.n 0 (a - 1) m) (RowWritten a at r m)
      (field-FieldWritten m at (a - 1) r.n (omega arith))
      λ m1 w1.
        Returns-bind (FieldWritten (at + (a - 1)) r.dst 0 a m1) (RowWritten a at r m)
          (field-FieldWritten m1 (at + (a - 1)) a r.dst (omega (arith, w1.same_length)))
          λ m2 w2.
            let (m3, e, w3) =
              field-FieldWritten m2 (at + (a - 1) + a) a r.src
                (omega (arith, w1.same_length, w2.same_length)) in
            (
              m3,
              e,
              (
                three_fields-RowAt a at r m m1 m2 m3 hn hd hs w1 w2 w3,
                three_fields-Kept a at r.n r.dst r.src m m1 m2 m3 h w1 w2 w3,
              ),
            )

abbrev pub at_slot : CopyImage → ℕ → ℕ
at_slot image slot = image.layer + slot * image.instruction_bits

slot_room :
    (image : CopyImage) (slot : ℕ)
    → IsImage image
    → slot < 256
    → at_slot image slot + (3 * image.address_bits - 1) ≤ 8 * length image.buffer
slot_room image slot v h = omega (
  arith,
  v.same_bytes,
  v.layer_fits,
  v.layer_is,
  v.instruction_is,
  slot-le slot 256 image.instruction_bits h,
)

write_row-RowWritten :
    (image : CopyImage) (slot : ℕ) (r : Instruction)
    → IsImage image
    → RowFits image r
    → slot < 256
    → Returns
        (write_row image (at_slot image slot) r.n r.dst r.src)
        (RowWritten image.address_bits (at_slot image slot) r image.buffer)
unfolding write_row
write_row-RowWritten image slot r v w h = rw v.count_is (
    write_fields-RowWritten image.address_bits (at_slot image slot) r image.buffer
      (omega (arith, v.address_low)) (subst (λ t. r.n < 2 ^ t) v.count_is w.count_small)
      (omega (arith, w.destination_small, v.space_is)) (omega (arith, w.source_small, v.space_is))
      (slot_room image slot v h))

valid_row :
    (image : CopyImage) (slot : ℕ) (r : Instruction)
    → slot < 256
    → RowFits image r
    → row_valid image slot r.n r.dst r.src ≡ true
unfolding row_valid fits
valid_row image slot r h w = ground (
  arith, w.count_small, w.destination_inside, w.source_inside, w.destination_small, w.source_small,
)

invalid_row :
    (image : CopyImage) (slot : ℕ) (r : Instruction)
    → row_valid image slot r.n r.dst r.src ≡ true
    → (slot < 256) × RowFits image r
unfolding row_valid fits
invalid_row image slot r h = (
  ground arith,
  record {
    count_small = ground arith;
    destination_inside = ground arith;
    source_inside = ground arith;
    destination_small = ground arith;
    source_small = ground arith;
  },
)

-- The two answers of `cs_copy_row`.
pub data RowAnswer (image : CopyImage) (slot : ℕ) (r : Instruction)
    : Bool × CopyImage → Type 0 where
  row_refused : ((slot < 256) × RowFits image r → ⊥) → RowAnswer image slot r (false, image)
  row_written :
      {m : Bytes}
      → slot < 256
      → RowFits image r
      → RowWritten image.address_bits (at_slot image slot) r image.buffer m
      → RowAnswer image slot r (true, with_buffer image m)

-- `cs_copy_row` returns on every image, with no access out of range. It refuses exactly the rows
-- whose slot, count or ranges the machine could not run, and leaves the image alone; it writes any
-- other row, which the three fields of its slot then spell, and no bit outside the slot changes.
pub cs_copy_row-RowAnswer :
    (image : CopyImage) (slot : ℕ) (r : Instruction)
    → IsImage image
    → Returns (cs_copy_row image slot r.n r.dst r.src) (RowAnswer image slot r)
unfolding cs_copy_row
cs_copy_row-RowAnswer image slot r v = elim (Bool-cases (row_valid image slot r.n r.dst r.src)) [
  | inl good ↦
      let (h, w) = invalid_row image slot r good in
      let (m, e, p) = write_row-RowWritten image slot r v w h in
      rw good (
        (true, with_buffer image m),
        ap (λ t. t >>= λ x. some (true, with_buffer image x)) e,
        row_written h w p,
      )
  | inr bad ↦ rw bad ((false, image), refl, row_refused λ p. absurd (no_row p bad))
]
  where
    no_row : (slot < 256) × RowFits image r → row_valid image slot r.n r.dst r.src ≢ false
    no_row p bad = let good = valid_row image slot r p.0 p.1 in cc
