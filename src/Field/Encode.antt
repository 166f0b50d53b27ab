-- ===== src/Field/Encode.antt =====
-- `write_field_bits` writes a field that `get_argument` reads back, and nothing else.
use copy_space.Base.{ℕ, zero, suc, ◌+◌, ◌*◌, ◌%◌, ◌^◌, ◌<◌, ◌≤◌, ◌≡◌, refl, sym, ap, ◌∙◌, arith}
use copy_space.Base.{testbit, testbit-le-one, testbit-mod, bit_and_one-shr, length, some}
use native.Mathlib.Nat.{mod-lt, one-le-pow}
use copy_space.Memory.{Bytes}
use copy_space.Memory.Bits.{bit_at, bit_same}
use copy_space.BitCopy.Spec.{Returns, Returns-bind}
use copy_space.BitCopy.Fallback.{BitSet, bit_set_ptr-BitSet}
use copy_space.Field.{bit_set_local, write_bits_from, write_field_bits, get_argument, read_field}
use copy_space.Field.Meaning.{eq-read_field}
use copy_space.Field.Argument.{get_argument-eq-read_field}

-- `m'` is `m` with the digits of `v` from the `i`-th on in the `n` bits from `p + i`.
pub record FieldWritten (p v i n : ℕ) (m m' : Bytes) : Type 0 where
  pub same_length : length m' ≡ length m
  pub digits : (k : ℕ) → k < n → bit_at m' (p + (i + k)) ≡ testbit v (i + k)
  pub below : (q : ℕ) → q < p + i → bit_at m' q ≡ bit_at m q
  pub above : (q : ℕ) → p + (i + n) ≤ q → bit_at m' q ≡ bit_at m q

pub written_step :
    (p v i n : ℕ) (m m' m'' : Bytes)
    → BitSet (p + i) (testbit v i) m m'
    → FieldWritten p v (i + 1) n m' m''
    → FieldWritten p v i (suc n) m m''
written_step p v i n m m' m'' b w = record {
  same_length = w.same_length ∙ b.same_length;
  digits = elim [
    | zero ↦ λ h.
        bit_same m'' {p = p + (i + 0)} {q = p + i} (omega arith)
        ∙ w.below (p + i) (omega arith)
        ∙ b.at
        ∙ same_digit v i (i + 0) (omega arith)
    | suc k ↦ λ h.
        bit_same m'' {p = p + (i + suc k)} {q = p + (i + 1 + k)} (omega arith)
        ∙ w.digits k (omega arith)
        ∙ same_digit v (i + 1 + k) (i + suc k) (omega arith)
  ];
  below = λ q h. w.below q (omega arith) ∙ b.elsewhere q (omega arith);
  above = λ q h. w.above q (omega arith) ∙ b.elsewhere q (omega arith);
}
  where
    same_digit : (v i j : ℕ) → i ≡ j → testbit v i ≡ testbit v j
    same_digit v i j e = ap (λ t. testbit v t) e

write_bits_from-FieldWritten :
    (m : Bytes) (p v n i : ℕ)
    → p + (i + n) ≤ 8 * length m
    → Returns (write_bits_from m p v n i) (FieldWritten p v i n m)
unfolding write_bits_from bit_set_local
write_bits_from-FieldWritten m p v zero i h = (
  m,
  refl,
  record {
    same_length = refl;
    digits = λ k q. elim q [ ];
    below = λ q r. refl;
    above = λ q r. refl;
  },
)
write_bits_from-FieldWritten m p v (suc n) i h = rw (bit_and_one-shr v i) (
    Returns-bind (BitSet (p + i) (testbit v i) m) (FieldWritten p v i (suc n) m)
      (bit_set_ptr-BitSet m (p + i) (testbit v i) (testbit-le-one v i) (omega arith))
      λ m' b.
        let fits : p + (i + 1 + n) ≤ 8 * length m' = omega (arith, b.same_length) in
        let (m'', e, w) = write_bits_from-FieldWritten m' p v n (i + 1) fits in
        (m'', e, written_step p v i n m m' m'' b w))

pub write_field_bits-FieldWritten :
    (m : Bytes) (p v n : ℕ)
    → p + n ≤ 8 * length m
    → Returns (write_field_bits m p v n) (FieldWritten p v 0 n m)
unfolding write_field_bits
write_field_bits-FieldWritten m p v n h = write_bits_from-FieldWritten m p v n 0 (omega arith)

-- The field written is the value, cut to its width.
pub read_field-written :
    (m m' : Bytes) (p v n : ℕ) → FieldWritten p v 0 n m m' → read_field m' p n ≡ v % 2 ^ n
read_field-written m m' p v n w = sym (
    eq-read_field m' p n (v % 2 ^ n) (mod-lt v (one-le-pow n 2 (omega arith)))
      λ k h. testbit-mod v n k h ∙ sym (digit k h))
  where
    digit : (k : ℕ) → k < n → bit_at m' (p + k) ≡ testbit v k
    digit k h =
        bit_same m' {p = p + k} {q = p + (0 + k)} (omega arith)
        ∙ w.digits k h
        ∙ ap (λ t. testbit v t) {x = 0 + k} {y = k} (omega arith)

-- Writing a field of at most 31 bits inside space returns, and `get_argument` then reads the value
-- back, cut to the width of the field; every bit outside the field is as it was.
pub get_argument-write_field_bits :
    (m : Bytes) (p v n : ℕ)
    → n ≤ 31
    → p + n ≤ 8 * length m
    → (m' : Bytes) × (write_field_bits m p v n ≡ some m')
      × (get_argument m' p n ≡ some (v % 2 ^ n))
      × ((q : ℕ) → q < p → bit_at m' q ≡ bit_at m q)
      × ((q : ℕ) → p + n ≤ q → bit_at m' q ≡ bit_at m q)
get_argument-write_field_bits m p v n small fits =
    let (m', e, w) = write_field_bits-FieldWritten m p v n fits in
    (
      m',
      e,
      get_argument-eq-read_field m' p n small (omega (arith, w.same_length))
          ∙ ap some (read_field-written m m' p v n w),
      λ q h. w.below q (omega arith),
      λ q h. w.above q (omega arith),
    )
