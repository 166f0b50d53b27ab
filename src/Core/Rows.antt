-- ===== src/Core/Rows.antt =====
-- What `encode` leaves is read back as the rows.
use copy_space.Base.{
  ℕ, zero, suc, ◌+◌, ◌-◌, ◌*◌, ◌%◌, ◌^◌, ◌<◌, ◌≤◌, ◌≡◌, ◌≢◌, refl, ap, ◌∙◌, arith, some, List, [],
  ◌∷◌, length, ◌>>=◌, get_elem?,
}
use mathlib.Core.Path.{subst}
use copy_space.Memory.{Bytes}
use copy_space.Memory.Bits.{bit_at, bit_same}
use copy_space.BitCopy.Spec.{Returns}
use copy_space.Config.{
  Config, IsConfig, n_size, address_size, instruction_size, n_offset, dst_offset, src_offset,
}
use copy_space.Field.{read_field}
use copy_space.Field.Meaning.{read_field-same}
use copy_space.Field.Encode.{read_field-written}
use copy_space.Space.{Instruction}
use copy_space.Space.Valid.{size_parts}
use copy_space.Core.{encode_slot, encode_from, encode}
use copy_space.Core.Fields.{Blank, encode_bits-FieldWritten}

-- The slot at `at` spells a row, its fields cut to their widths.
pub record Spells (c : Config) (m : Bytes) (at : ℕ) (r : Instruction) : Type 0 where
  pub n : read_field m (at + n_offset c) (n_size c) ≡ r.n % 2 ^ n_size c
  pub dst : read_field m (at + dst_offset c) (address_size c) ≡ r.dst % 2 ^ address_size c
  pub src : read_field m (at + src_offset c) (address_size c) ≡ r.src % 2 ^ address_size c

-- `m'` is `m` outside `n` bits from `p` on.
pub record Kept (p n : ℕ) (m m' : Bytes) : Type 0 where
  pub same_length : length m' ≡ length m
  pub below : (q : ℕ) → q < p → bit_at m' q ≡ bit_at m q
  pub above : (q : ℕ) → p + n ≤ q → bit_at m' q ≡ bit_at m q

Blank-later :
    (p n p' n' : ℕ) (m m' : Bytes)
    → ((q : ℕ) → p' ≤ q → q < p' + n' → bit_at m' q ≡ bit_at m q)
    → Blank m p n
    → p ≤ p'
    → p' + n' ≤ p + n
    → Blank m' p' n'
Blank-later p n p' n' m m' same blank h h' k below =
    same (p' + k) (omega arith) (omega arith)
    ∙ bit_same m {p = p' + k} {q = p + (p' - p + k)} (omega arith)
    ∙ blank (p' - p + k) (omega arith)

pub field_kept :
    (m m' : Bytes) (p n x : ℕ)
    → ((q : ℕ) → p ≤ q → q < p + n → bit_at m' q ≡ bit_at m q)
    → read_field m p n ≡ x
    → read_field m' p n ≡ x
field_kept m m' p n x same e =
    read_field-same m m' p n (λ k h. same (p + k) (omega arith) (omega arith)) ∙ e

Spells-kept :
    (c : Config) (v : IsConfig c) (m m' : Bytes) (at : ℕ) (r : Instruction)
    → ((q : ℕ) → at ≤ q → q < at + instruction_size c → bit_at m' q ≡ bit_at m q)
    → Spells c m at r
    → Spells c m' at r
Spells-kept c v m m' at r same s =
    let parts = size_parts c v in
    record {
      n = field_kept m m' _ _ _ (λ q h k. same q (omega arith) (omega (arith, parts))) s.n;
      dst = field_kept m m' _ _ _ (λ q h k. same q (omega arith) (omega (arith, parts))) s.dst;
      src = field_kept m m' _ _ _ (λ q h k. same q (omega arith) (omega (arith, parts))) s.src;
    }

module _ (c : Config) (v : IsConfig c) where
  encode_slot-Spells :
      (m : Bytes) (at : ℕ) (r : Instruction)
      → at + instruction_size c ≤ 8 * length m
      → Blank m at (instruction_size c)
      → Returns (encode_slot c m at r) (λ m'. Spells c m' at r × Kept at (instruction_size c) m m')
  unfolding encode_slot
  encode_slot-Spells m at r h blank =
      let parts = size_parts c v in
      let (m1, e1, w1) =
        encode_bits-FieldWritten m (at + n_offset c) r.n (n_size c) 0 (omega (arith, parts)) (
          Blank-later at (instruction_size c) _ _ m m (λ q _ _. refl) blank (omega arith)
            (omega (arith, parts))) in
      let (m2, e2, w2) =
        encode_bits-FieldWritten m1 (at + dst_offset c) r.dst (address_size c) 0
          (omega (arith, parts, w1.same_length))
          (Blank-later at (instruction_size c) _ _ m m1 (λ q h k. w1.above q (omega (arith, parts)))
            blank (omega arith) (omega (arith, parts))) in
      let (m3, e3, w3) =
        encode_bits-FieldWritten m2 (at + src_offset c) r.src (address_size c) 0
          (omega (arith, parts, w1.same_length, w2.same_length))
          (Blank-later at (instruction_size c) _ _ m m2
            (λ q h k. w2.above q (omega (arith, parts)) ∙ w1.above q (omega (arith, parts))) blank
            (omega arith) (omega (arith, parts))) in
      (
        m3,
        rw (e1, e2) e3,
        (
          record {
            n =
                field_kept m1 m3 _ _ _
                  (λ q h k. w3.below q (omega (arith, parts)) ∙ w2.below q (omega (arith, parts)))
                  (read_field-written m m1 _ _ _ w1);
            dst =
                field_kept m2 m3 _ _ _ (λ q h k. w3.below q (omega (arith, parts)))
                  (read_field-written m1 m2 _ _ _ w2);
            src = read_field-written m2 m3 _ _ _ w3;
          },
          record {
            same_length = w3.same_length ∙ w2.same_length ∙ w1.same_length;
            below = λ q k.
                w3.below q (omega (arith, parts))
                ∙ w2.below q (omega (arith, parts))
                ∙ w1.below q (omega (arith, parts));
            above = λ q k.
                w3.above q (omega (arith, parts))
                ∙ w2.above q (omega (arith, parts))
                ∙ w1.above q (omega (arith, parts));
          },
        ),
      )

  -- What a run of slots leaves: every row in its slot, and the image around them as it was.
  pub record Encoded (base slot : ℕ) (rows : List Instruction) (m m' : Bytes) : Type 0 where
    pub spelled :
        (j : ℕ) (r : Instruction)
        → get_elem? rows j ≡ some r
        → Spells c m' (base + (slot + j) * instruction_size c) r
    pub kept : Kept (base + slot * instruction_size c) (length rows * instruction_size c) m m'

  next_slot : (s k : ℕ) → (s + 1) * k ≡ s * k + k
  next_slot s k = grind arith

  later_slot : (s j k : ℕ) → (s + 1 + j) * k ≡ (s + suc j) * k
  later_slot s j k = ap (λ t. t * k) {x = s + 1 + j} {y = s + suc j} (omega arith)

  one_more : (s k : ℕ) → suc s * k ≡ s * k + k
  one_more s k = grind arith

  -- The first row is in its slot, and the other rows leave it there.
  Encoded-step :
      (base slot : ℕ) (row : Instruction) (rows : List Instruction) (m m' m'' : Bytes)
      → Spells c m' (base + slot * instruction_size c) row
      → Kept (base + slot * instruction_size c) (instruction_size c) m m'
      → Encoded base (slot + 1) rows m' m''
      → Encoded base slot (row ∷ rows) m m''
  Encoded-step base slot row rows m m' m'' s k w =
      let size = instruction_size c in
      let next = next_slot slot size in
      let total = one_more (length rows) size in
      record {
        spelled = elim [
          | zero ↦ λ r e.
              let first : row ≡ r = first_row r e in
              let here : base + slot * size ≡ base + (slot + 0) * size =
                ap (λ t. base + t * size) {x = slot} {y = slot + 0} (omega arith) in
              subst (λ t. Spells c m'' t r) here
                (subst (λ t. Spells c m'' (base + slot * size) t) first
                  (Spells-kept c v m' m'' (base + slot * size) row
                    (λ q h b. w.kept.below q (omega (arith, next))) s))
          | suc j ↦ λ r e.
              subst (λ t. Spells c m'' (base + t) r) (later_slot slot j size) (w.spelled j r e)
        ];
        kept = record {
          same_length = w.kept.same_length ∙ k.same_length;
          below = λ q h. w.kept.below q (omega (arith, next)) ∙ k.below q (omega arith);
          above =
              λ q h. w.kept.above q (omega (arith, next, total)) ∙ k.above q (omega (arith, total));
        };
      }
    where
      first_row : (r : Instruction) → get_elem? (row ∷ rows) 0 ≡ some r → row ≡ r
      first_row r e = cc

  encode_from-Encoded :
      (base slot : ℕ) (rows : List Instruction) (m : Bytes)
      → base + slot * instruction_size c + length rows * instruction_size c ≤ 8 * length m
      → Blank m (base + slot * instruction_size c) (length rows * instruction_size c)
      → Returns (encode_from c m base slot rows) (Encoded base slot rows m)
  unfolding encode_from
  encode_from-Encoded base slot [] m h blank = (
    m,
    refl,
    record {
      spelled = λ j r e. absurd (no_row j r e);
      kept = record { same_length = refl; below = λ q k. refl; above = λ q k. refl };
    },
  )
    where
      no_row : (j : ℕ) (r : Instruction) → get_elem? {A = Instruction} [] j ≢ some r
      no_row j r e = cc
  encode_from-Encoded base slot (row ∷ rows) m h blank =
      let size = instruction_size c in
      let at = base + slot * size in
      let next = next_slot slot size in
      let total = one_more (length rows) size in
      let (m', e, (s, k)) = encode_slot-Spells m at row (omega (arith, total)) (
        Blank-later at (suc (length rows) * size) at size m m (λ q _ _. refl) blank (omega arith)
          (omega (arith, total))) in
      let (m'', d, w) =
        encode_from-Encoded base (slot + 1) rows m' (omega (arith, next, total, k.same_length)) (
          Blank-later at (suc (length rows) * size) (base + (slot + 1) * size) (length rows * size)
            m m' (λ q h b. k.above q (omega (arith, next))) blank (omega (arith, next))
            (omega (arith, next, total))) in
      (
        m'',
        ap (λ t. t >>= λ x. encode_from c x base (slot + 1) rows) e ∙ d,
        Encoded-step base slot row rows m m' m'' s k w,
      )

  -- Encoding rows into a range of zero bits that lies in the image returns, with no access out of
  -- range: the fields of every row, each cut to its width, are then read at its slot from `base` on,
  -- and the image around the range is as it was.
  pub encode-Encoded :
      (base : ℕ) (rows : List Instruction) (m : Bytes)
      → base + length rows * instruction_size c ≤ 8 * length m
      → Blank m base (length rows * instruction_size c)
      → Returns (encode c m base rows) (Encoded base 0 rows m)
  unfolding encode
  encode-Encoded base rows m h blank = encode_from-Encoded base 0 rows m (omega arith) λ k below.
      bit_same m {p = base + 0 * instruction_size c + k} {q = base + k} (omega arith)
      ∙ blank k below
