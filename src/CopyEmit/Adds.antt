-- ===== src/CopyEmit/Adds.antt =====
-- What `cs_copy_add32` and `cs_copy_sub32` answer, and what they leave in the image.
use copy_space.Base.{
  ℕ, ◌+◌, ◌-◌, ◌*◌, ◌<◌, ◌≤◌, ◌≡◌, ◌≢◌, refl, sym, ap, ap₂, ◌∙◌, arith, Bool, true, false, ltb, inl,
  inr, Bool-cases, List, [], ◌∷◌, length, some, none, Option, ◌>>=◌,
}
use mathlib.Core.Path.{subst}
use copy_space.Memory.{Bytes}
use copy_space.Memory.Bits.{bit_at, bit_same}
use copy_space.BitCopy.Spec.{Returns, Returns-bind}
use copy_space.Field.Encode.{FieldWritten}
use copy_space.Space.{Instruction}
use copy_space.CopyEmit.{CopyImage, with_buffer, field}
use copy_space.CopyEmit.Code.{
  Operands, entry, write_table, emitted, add_bits, add_valid, arithmetic32,
}
use copy_space.CopyEmit.Field.{field-FieldWritten}
use copy_space.CopyEmit.Rows.{IsImage, row}
use copy_space.CopyEmit.Emission.{
  Emits, Emits-IsImage, Emits-append, advance, here, Spelled, emitted-Emits, sum_bits,
}
use copy_space.CopyEmit.Machine.{Outside}
use copy_space.CopyEmit.AddBit.{Apart}
use copy_space.CopyEmit.Layout.{AddSafe, add_valid-AddSafe}
use copy_space.CopyEmit.AddCode.{
  TableWritten, write_table-TableWritten, sum_rows, length-sum_rows, OperandsInside, row-Fits,
  add_bits-Emits,
}

-- The 193 rows: the carry is cleared, then 32 times six rows.
abbrev pub code_rows : CopyImage → Operands → List Instruction
code_rows image x = row 1 x.carry x.table ∷ sum_rows x image.address_bits (image.slot + 1) 0 32

pub record CodeWritten (s : Bool) (image : CopyImage) (x : Operands) (image' : CopyImage)
    : Type 0 where
  pub shape : image' ≡ advance image image'.buffer 193
  pub same_length : length image'.buffer ≡ length image.buffer
  pub entries :
      (k : ℕ)
      → k < 8
      → bit_at image'.buffer (x.table + 2 * k) + 2 * bit_at image'.buffer (x.table + 2 * k + 1)
        ≡ entry s k
  pub rows : Spelled image.address_bits image'.buffer (here image) (code_rows image x)
  pub kept :
      (q : ℕ)
      → Outside (here image) (193 * image.instruction_bits) q
      → Outside x.table 16 q
      → q ≢ x.carry
      → bit_at image'.buffer q ≡ bit_at image.buffer q

IsImage-buffer :
    (image : CopyImage) (m : Bytes)
    → IsImage image
    → length m ≡ length image.buffer
    → IsImage (with_buffer image m)
IsImage-buffer image m v e = record {
  same_bytes = e ∙ v.same_bytes;
  address_low = v.address_low;
  address_high = v.address_high;
  space_is = v.space_is;
  count_is = v.count_is;
  instruction_is = v.instruction_is;
  layer_is = v.layer_is;
  layer_aligned = v.layer_aligned;
  layer_fits = v.layer_fits;
  bytes_fit = v.bytes_fit;
  slot_low = v.slot_low;
  slot_high = v.slot_high;
}

pub AddSafe-Inside :
    (image : CopyImage) (x : Operands)
    → AddSafe image x
    → OperandsInside image.address_bits image.space_bits x
AddSafe-Inside image x s =
    let (d, (l, (r, (e, (t, (z, nothing)))))) = s.free in
    record {
      wide = s.wide;
      destination = d.inside;
      left = l.inside;
      right = r.inside;
      table = e.inside;
      temporary = t.inside;
      carry = z.inside;
    }

-- The rows lie in the template layer.
pub code_in_layer :
    (image : CopyImage)
    → IsImage image
    → image.slot + 193 ≤ 255
    → (image.layer ≤ here image)
      × (here image + 193 * image.instruction_bits ≤ image.layer + image.layer_bits)
code_in_layer image v h =
    let total = sum_bits image.slot 193 image.instruction_bits in
    let rest = sum_bits (image.slot + 193) (63 - image.slot) image.instruction_bits in
    let all =
      ap (λ t. t * image.instruction_bits) {x = image.slot + 193 + (63 - image.slot)} {y = 256}
        (omega arith) in
    (omega arith, omega (arith, v.layer_is))

-- The rows that follow the clearing of the carry, from a buffer in which the table is done.
code_emitted :
    (image : CopyImage) (x : Operands)
    → IsImage image
    → OperandsInside image.address_bits image.space_bits x
    → image.slot + 193 ≤ 255
    → Returns
        (emitted image 1 x.carry x.table >>= λ i. add_bits x 32 0 i)
        (Emits (code_rows image x) image)
code_emitted image x v o room =
    let first = row 1 x.carry x.table in
    let a = image.address_bits in
    Returns-bind (Emits (first ∷ []) image) (Emits (code_rows image x) image)
      (emitted-Emits image first v
        (row-Fits image 1 x.carry x.table v o.wide (omega arith) (omega arith) o.carry
          (omega (arith, o.table)))
        (omega arith))
      λ i e.
        let v' = Emits-IsImage (first ∷ []) image i e v (omega arith) in
        let o' = subst (λ t. OperandsInside t.address_bits t.space_bits x) (sym e.shape) o in
        let slots = ap (λ t. t.slot) e.shape in
        let (j, d, q) = add_bits-Emits x 32 0 i v' o' (omega arith) (omega (arith, slots)) in
        (
          j,
          d,
          Emits-append (first ∷ []) (sum_rows x a (image.slot + 1) 0 32) image i j v e
              (subst (λ t. Emits (sum_rows x t.address_bits t.slot 0 32) i j) e.shape q),
        )

module _ (s : Bool) (image : CopyImage) (x : Operands) (m1 m2 : Bytes) (image' : CopyImage)
    (v : IsImage image) (safe : AddSafe image x)
    (table : TableWritten s x.table 0 8 image.buffer m1) (carry : FieldWritten x.carry 0 0 1 m1 m2)
    (rows : Emits (code_rows image x) (with_buffer image m2) image') where
  rows_length : length (code_rows image x) ≡ 193
  rows_length = omega (arith, length-sum_rows x image.address_bits (image.slot + 1) 0 32)

  rows_bits :
      length (code_rows image x) * (3 * image.address_bits - 1) ≡ 193 * image.instruction_bits
  rows_bits = ap₂ (λ n l. n * l) rows_length (sym v.instruction_is)

  off_code :
      (q : ℕ)
      → Outside (here image) (193 * image.instruction_bits) q
      → bit_at image'.buffer q ≡ bit_at m2 q
  off_code q (inl h) = rows.kept.below q h
  off_code q (inr h) = rows.kept.above q (omega (arith, rows_bits))

  off_carry : (q : ℕ) → q ≢ x.carry → bit_at m2 q ≡ bit_at m1 q
  off_carry q h = elim (Bool-cases (ltb q x.carry)) [
    | inl low ↦ carry.below q (ground arith)
    | inr high ↦ carry.above q (ground arith)
  ]

  off_table : (q : ℕ) → Outside x.table 16 q → bit_at m1 q ≡ bit_at image.buffer q
  off_table q (inl h) = table.below q (omega arith)
  off_table q (inr h) = table.above q (omega arith)

  table_off_code :
      (i : ℕ) → i < 16 → Outside (here image) (193 * image.instruction_bits) (x.table + i)
  table_off_code i h =
      let layer = code_in_layer image v safe.room in
      outside layer.0 layer.1 safe.free.1.1.1.0.off_layer
    where
      outside :
          image.layer ≤ here image
          → here image + 193 * image.instruction_bits ≤ image.layer + image.layer_bits
          → Apart x.table 16 image.layer image.layer_bits
          → Outside (here image) (193 * image.instruction_bits) (x.table + i)
      outside low high (inl l) = inl (omega arith)
      outside low high (inr l) = inr (omega arith)

  table_off_carry : (i : ℕ) → i < 16 → x.table + i ≢ x.carry
  table_off_carry i h = off safe.carry_apart.0
    where
      off : Apart x.carry 1 x.table 16 → x.table + i ≢ x.carry
      off (inl l) = omega arith
      off (inr l) = omega arith

  table_kept : (i : ℕ) → i < 16 → bit_at image'.buffer (x.table + i) ≡ bit_at m1 (x.table + i)
  table_kept i h =
      off_code (x.table + i) (table_off_code i h) ∙ off_carry (x.table + i) (table_off_carry i h)

  code_done : CodeWritten s image x image'
  code_done = record {
    shape = rows.shape ∙ ap (λ n. advance image image'.buffer n) rows_length;
    same_length = rows.kept.same_length ∙ carry.same_length ∙ table.same_length;
    entries = λ k h.
        ap₂ (λ y z. y + 2 * z) (table_kept (2 * k) (omega arith))
          (bit_same image'.buffer {p = x.table + 2 * k + 1} {q = x.table + (2 * k + 1)}
              (omega arith)
            ∙ table_kept (2 * k + 1) (omega arith)
            ∙ bit_same m1 {p = x.table + (2 * k + 1)} {q = x.table + 2 * k + 1} (omega arith))
        ∙ subst (λ t. bit_at m1 (x.table + 2 * t) + 2 * bit_at m1 (x.table + 2 * t + 1) ≡ entry s t)
            {x = 0 + k} {y = k} (omega arith) (table.entries k h);
    rows = rows.spelled;
    kept = λ q o t z. off_code q o ∙ off_carry q z ∙ off_table q t;
  }

-- The two answers of `arithmetic32`.
pub data ArithmeticAnswer (s : Bool) (image : CopyImage) (x : Operands)
    : Bool × CopyImage → Type 0 where
  code_refused : add_valid image x ≡ false → ArithmeticAnswer s image x (false, image)
  code_written :
      {image' : CopyImage}
      → add_valid image x ≡ true
      → AddSafe image x
      → CodeWritten s image x image'
      → ArithmeticAnswer s image x (true, image')

nested {ℓ κ μ} :
    {A : Type ℓ} {B : Type κ} {C : Type μ} (r : Option A) (f : A → Option B) (g : B → Option C)
    → (r >>= λ a. f a >>= g) ≡ (r >>= f >>= g)
nested none f g = refl
nested (some a) f g = refl

accepted :
    (s : Bool) (image : CopyImage) (x : Operands)
    → IsImage image
    → add_valid image x ≡ true
    → Returns
        (do
          image1 ← write_table s x.table 8 0 image
          m ← field image1.buffer x.carry 1 0
          image2 ← emitted (with_buffer image1 m) 1 x.carry x.table
          image3 ← add_bits x 32 0 image2
          some (true, image3))
        (ArithmeticAnswer s image x)
accepted s image x v good =
    let safe = add_valid-AddSafe image x v good in
    Returns-bind
      (λ r. (r ≡ with_buffer image r.buffer) × TableWritten s x.table 0 8 image.buffer r.buffer)
      (ArithmeticAnswer s image x)
      (write_table-TableWritten s x.table 8 0 image (omega arith)
        (omega (arith, v.same_bytes, safe.table_held)))
      λ r p.
        let m1 = r.buffer in
        let table = p.1 in
        Returns-bind (FieldWritten x.carry 0 0 1 m1) (ArithmeticAnswer s image x)
          (field-FieldWritten m1 x.carry 1 0
            (omega (arith, table.same_length, v.same_bytes, safe.carry_held)))
          λ m2 carry.
            let i2 = with_buffer image m2 in
            let v2 = IsImage-buffer image m2 v (carry.same_length ∙ table.same_length) in
            let (image', e, q) = code_emitted i2 x v2 (AddSafe-Inside image x safe) safe.room in
            (
              (true, image'),
              ap
                    (λ t. emitted (with_buffer t m2) 1 x.carry x.table >>= λ i.
                      add_bits x 32 0 i >>= λ j. some (true, j))
                    p.0
                  ∙ nested (emitted i2 1 x.carry x.table) (λ i. add_bits x 32 0 i)
                      (λ j. some (true, j))
                  ∙ ap (λ t. t >>= λ j. some (true, j)) e,
              code_written good safe (code_done s image x m1 m2 image' v safe table carry q),
            )

-- `cs_copy_add32` and `cs_copy_sub32` return on every image, with no access out of range. They
-- refuse exactly what `add_valid` refuses, and leave the image alone. Otherwise the eight entries of
-- the table are the sums or differences of three bits, 193 slots of the template layer hold the
-- rows that clear the carry and work out the 32 bits, the slot counter is 193 further on, and no
-- other bit of the image but the carry changes.
pub arithmetic32-Answered :
    (s : Bool) (image : CopyImage) (x : Operands)
    → IsImage image
    → Returns (arithmetic32 image s x) (ArithmeticAnswer s image x)
unfolding arithmetic32
arithmetic32-Answered s image x v = elim (Bool-cases (add_valid image x)) [
  | inl good ↦ rw good (accepted s image x v good)
  | inr bad ↦ rw bad ((false, image), refl, code_refused bad)
]
