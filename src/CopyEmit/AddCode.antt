-- ===== src/CopyEmit/AddCode.antt =====
-- The table and the rows that an addition or a subtraction leaves in the image.
use copy_space.Base.{
  pow-le, ℕ, zero, suc, ◌+◌, ◌-◌, ◌*◌, ◌^◌, ◌<◌, ◌≤◌, ◌≡◌, refl, sym, ap, ap₂, ◌∙◌, arith, Bool,
  true, false, ◌==◌, inl, inr, Bool-cases, List, [], ◌∷◌, ◌++◌, length, ◌>>=◌, testbit, testbit_at,
  every_entry, table_sound,
}
use mathlib.Core.Path.{subst}
use copy_space.Memory.{Bytes}
use copy_space.Memory.Bits.{bit_at, bit_same}
use copy_space.BitCopy.Spec.{Returns, Returns-bind}
use copy_space.Field.Encode.{FieldWritten}
use copy_space.Space.{Instruction}
use copy_space.Space.Valid.{slot-le}
use copy_space.CopyEmit.{CopyImage, with_buffer}
use copy_space.CopyEmit.Code.{Operands, entry, write_table, source_field, add_bit, add_bits}
use copy_space.CopyEmit.Field.{field-FieldWritten}
use copy_space.CopyEmit.Rows.{IsImage, RowFits, row}
use copy_space.CopyEmit.Emission.{
  Emits, Emits-IsImage, Emits-append, emit_all, emit_all-Emits, AllFit,
}

entry_table :
    (s : Bool)
    → every_entry 8
        (λ i. every_entry 1 (λ k. testbit (entry s i) 0 + 2 * testbit (entry s i) 1 == entry s i))
      ≡ true
unfolding every_entry entry
entry_table false = refl
entry_table true = refl

-- An entry is a number of two bits.
entry_digits :
    (s : Bool) (i : ℕ) → i < 8 → testbit (entry s i) 0 + 2 * testbit (entry s i) 1 ≡ entry s i
entry_digits s i h =
    table_sound 8 1 (λ j k. testbit (entry s j) 0 + 2 * testbit (entry s j) 1) (λ j k. entry s j)
      (entry_table s) i 0 h (omega arith)

-- The entries from `i` on, `n` of them.
pub record TableWritten (s : Bool) (table i n : ℕ) (m m' : Bytes) : Type 0 where
  pub same_length : length m' ≡ length m
  pub entries :
      (k : ℕ)
      → k < n
      → bit_at m' (table + 2 * (i + k)) + 2 * bit_at m' (table + 2 * (i + k) + 1) ≡ entry s (i + k)
  pub below : (q : ℕ) → q < table + 2 * i → bit_at m' q ≡ bit_at m q
  pub above : (q : ℕ) → table + 2 * (i + n) ≤ q → bit_at m' q ≡ bit_at m q

one_entry :
    (s : Bool) (table i : ℕ) (m m' : Bytes)
    → i < 8
    → FieldWritten (table + 2 * i) (entry s i) 0 2 m m'
    → bit_at m' (table + 2 * i) + 2 * bit_at m' (table + 2 * i + 1) ≡ entry s i
one_entry s table i m m' h w = omega (
  arith,
  bit_same m' {p = table + 2 * i} {q = table + 2 * i + (0 + 0)} (omega arith),
  bit_same m' {p = table + 2 * i + 1} {q = table + 2 * i + (0 + 1)} (omega arith),
  w.digits 0 (omega arith),
  w.digits 1 (omega arith),
  testbit_at (entry s i) (0 + 0) 0 (omega arith),
  testbit_at (entry s i) (0 + 1) 1 (omega arith),
  entry_digits s i h,
)

TableWritten-more :
    (s : Bool) (table i n : ℕ) (m m' m'' : Bytes)
    → i < 8
    → FieldWritten (table + 2 * i) (entry s i) 0 2 m m'
    → TableWritten s table (i + 1) n m' m''
    → TableWritten s table i (suc n) m m''
TableWritten-more s table i n m m' m'' h w ws = record {
  same_length = ws.same_length ∙ w.same_length;
  entries = λ k l. elim (Bool-cases (k == 0)) [
    | inl e ↦
        let here : i ≡ i + k = ground arith in
        subst (λ t. bit_at m'' (table + 2 * t) + 2 * bit_at m'' (table + 2 * t + 1) ≡ entry s t)
          here
          (ap₂ (λ x y. x + 2 * y) (ws.below (table + 2 * i) (omega arith))
              (ws.below (table + 2 * i + 1) (omega arith))
            ∙ one_entry s table i m m' h w)
    | inr e ↦
        let later : i + 1 + (k - 1) ≡ i + k = ground arith in
        subst (λ t. bit_at m'' (table + 2 * t) + 2 * bit_at m'' (table + 2 * t + 1) ≡ entry s t)
          later (ws.entries (k - 1) (ground arith))
  ];
  below = λ q l. ws.below q (omega arith) ∙ w.below q (omega arith);
  above = λ q l. ws.above q (omega arith) ∙ w.above q (omega arith);
}

pub write_table-TableWritten :
    (s : Bool) (table n i : ℕ) (image : CopyImage)
    → i + n ≤ 8
    → table + 16 ≤ 8 * length image.buffer
    → Returns
        (write_table s table n i image)
        (λ r. (r ≡ with_buffer image r.buffer) × TableWritten s table i n image.buffer r.buffer)
unfolding write_table
write_table-TableWritten s table zero i image h fits = (
  image,
  refl,
  (
    refl,
    record {
      same_length = refl;
      entries = λ k l. absurd (omega arith);
      below = λ q l. refl;
      above = λ q l. refl;
    },
  ),
)
write_table-TableWritten s table (suc n) i image h fits =
    let (m, e, w) = field-FieldWritten image.buffer (table + 2 * i) 2 (entry s i) (omega arith) in
    let (r, d, p) =
      write_table-TableWritten s table n (i + 1) (with_buffer image m) (omega arith)
        (omega (arith, w.same_length)) in
    (
      r,
      ap (λ t. t >>= λ x. write_table s table n (i + 1) (with_buffer image x)) e ∙ d,
      (p.0, TableWritten-more s table i n image.buffer m r.buffer (omega arith) w p.1),
    )

-- The six rows of a bit, with the source field of the fourth at `f`.
abbrev pub add_rows : Operands → ℕ → ℕ → List Instruction
add_rows x bit f =
    row 1 (f + 1) (x.left + bit)
    ∷ row 1 (f + 2) (x.right + bit)
    ∷ row 1 (f + 3) x.carry
    ∷ row 2 x.temporary x.table
    ∷ row 1 (x.destination + bit) x.temporary
    ∷ row 1 x.carry (x.temporary + 1)
    ∷ []

-- The source field of the row three slots after `slot`.
abbrev pub lookup_field : ℕ → ℕ → ℕ
lookup_field a slot = (slot + 3) * (3 * a - 1) + (a - 1) + a

-- The rows of `n` bits.
unfoldable pub sum_rows : Operands → ℕ → ℕ → ℕ → ℕ → List Instruction
sum_rows x a slot bit zero = []
sum_rows x a slot bit (suc n) =
    add_rows x bit (lookup_field a slot) ++ sum_rows x a (slot + 6) (bit + 1) n

pub length-sum_rows : (x : Operands) (a slot bit n : ℕ) → length (sum_rows x a slot bit n) ≡ 6 * n
unfolding sum_rows
length-sum_rows x a slot bit zero = omega arith
length-sum_rows x a slot bit (suc n) = omega (arith, length-sum_rows x a (slot + 6) (bit + 1) n)

-- The operands lie in a space of `space` bits with addresses of `a` bits.
pub record OperandsInside (a space : ℕ) (x : Operands) : Type 0 where
  pub wide : 5 ≤ a
  pub destination : x.destination + 32 ≤ space
  pub left : x.left + 32 ≤ space
  pub right : x.right + 32 ≤ space
  pub table : x.table + 16 ≤ space
  pub temporary : x.temporary + 2 ≤ space
  pub carry : x.carry + 1 ≤ space

pub row-Fits :
    (image : CopyImage) (n d s : ℕ)
    → IsImage image
    → 5 ≤ image.address_bits
    → 1 ≤ n
    → n ≤ 2
    → d + n ≤ image.space_bits
    → s + n ≤ image.space_bits
    → RowFits image (row n d s)
row-Fits image n d s v wide some_bits few hd hs =
    let k = image.address_bits - 5 in
    let top = ap (λ t. 2 ^ t) {x = 4 + k} {y = image.count_bits} (omega (arith, v.count_is)) in
    record {
      count_small = omega (arith, pow-le k 4, top);
      destination_inside = hd;
      source_inside = hs;
      destination_small = omega arith;
      source_small = omega arith;
    }

add_rows-AllFit :
    (image : CopyImage) (x : Operands) (bit f : ℕ)
    → IsImage image
    → OperandsInside image.address_bits image.space_bits x
    → bit < 32
    → f + 4 ≤ image.space_bits
    → AllFit image (add_rows x bit f)
add_rows-AllFit image x bit f v o h fits = (
  row-Fits image 1 _ _ v o.wide (omega arith) (omega arith) (omega arith) (omega (arith, o.left)),
  (
    row-Fits image 1 _ _ v o.wide (omega arith) (omega arith) (omega arith)
        (omega (arith, o.right)),
    (
      row-Fits image 1 _ _ v o.wide (omega arith) (omega arith) (omega arith) o.carry,
      (
        row-Fits image 2 _ _ v o.wide (omega arith) (omega arith) o.temporary
            (omega (arith, o.table)),
        (
          row-Fits image 1 _ _ v o.wide (omega arith) (omega arith) (omega (arith, o.destination))
              (omega (arith, o.temporary)),
          (
            row-Fits image 1 _ _ v o.wide (omega arith) (omega arith) o.carry
                (omega (arith, o.temporary)),
            tt,
          ),
        ),
      ),
    ),
  ),
)

lookup_field-fits :
    (image : CopyImage)
    → IsImage image
    → 5 ≤ image.address_bits
    → image.slot + 4 ≤ 256
    → lookup_field image.address_bits image.slot + 4 ≤ image.space_bits
lookup_field-fits image v wide h = omega (
  arith,
  slot-le (image.slot + 3) 256 (3 * image.address_bits - 1) (omega arith),
  ap (λ t. 256 * t) v.instruction_is,
  v.layer_is,
  v.layer_fits,
  v.bytes_fit,
  v.space_is,
  v.address_low,
)

add_bit-Emits :
    (x : Operands) (bit : ℕ) (image : CopyImage)
    → IsImage image
    → OperandsInside image.address_bits image.space_bits x
    → bit < 32
    → image.slot + 6 ≤ 255
    → Returns
        (add_bit x bit image)
        (Emits (add_rows x bit (lookup_field image.address_bits image.slot)) image)
unfolding add_bit emit_all
add_bit-Emits x bit image v o h room =
    let same : source_field image 3 ≡ lookup_field image.address_bits image.slot =
      omega (arith, ap (λ t. (image.slot + 3) * t) v.instruction_is, v.count_is) in
    let f = lookup_field image.address_bits image.slot in
    let (image', e, p) =
      emit_all-Emits (add_rows x bit f) image v
        (add_rows-AllFit image x bit f v o h (lookup_field-fits image v o.wide (omega arith)))
        (omega arith) in
    (image', ap (λ t. emit_all (add_rows x bit t) image) same ∙ e, p)

pub add_bits-Emits :
    (x : Operands) (n bit : ℕ) (image : CopyImage)
    → IsImage image
    → OperandsInside image.address_bits image.space_bits x
    → bit + n ≤ 32
    → image.slot + 6 * n ≤ 255
    → Returns
        (add_bits x n bit image)
        (Emits (sum_rows x image.address_bits image.slot bit n) image)
unfolding add_bits sum_rows emit_all
add_bits-Emits x zero bit image v o h room = emit_all-Emits [] image v tt (omega arith)
add_bits-Emits x (suc n) bit image v o h room =
    let a = image.address_bits in
    let now = add_rows x bit (lookup_field a image.slot) in
    Returns-bind (Emits now image) (Emits (now ++ sum_rows x a (image.slot + 6) (bit + 1) n) image)
      (add_bit-Emits x bit image v o (omega arith) (omega arith))
      λ image' e.
        let v' = Emits-IsImage now image image' e v (omega arith) in
        let slots = ap (λ t. t.slot) e.shape in
        let o' = subst (λ t. OperandsInside t.address_bits t.space_bits x) (sym e.shape) o in
        let (image'', d, q) =
          add_bits-Emits x n (bit + 1) image' v' o' (omega arith) (omega (arith, slots)) in
        (
          image'',
          d,
          Emits-append now (sum_rows x a (image.slot + 6) (bit + 1) n) image image' image'' v e (
              subst (λ t. Emits (sum_rows x t.address_bits t.slot (bit + 1) n) image' image'')
                e.shape q),
        )
