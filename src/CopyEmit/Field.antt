-- ===== src/CopyEmit/Field.antt =====
-- `field` writes the digits of a number, a byte at a time, as the bit loop of src/space.c does.
use copy_space.Base.{
  ℕ, zero, suc, ◌+◌, ◌-◌, ◌*◌, ◌/◌, ◌%◌, ◌<◌, ◌≤◌, ◌≡◌, refl, sym, ap, ◌∙◌, arith, true, false,
  ◌&&◌, ltb, leb, ◌==◌, if◌then◌else◌, ◌>>=◌, get_or, length, testbit, testbit_at, testbit-mod,
  testbit-shr, bit_and, bit_or, bit_and-low_mask, bit_and_one, bit_or-zero, Bool-cases, inl, inr,
}
use mathlib.Core.Path.{subst}
use copy_space.Memory.{Bytes, byte_at, put, u8, not8, shr, load-eq, store-eq, length-put}
use copy_space.Memory.Bits.{bit_at, bit_at-put_self, bit_at-put_ne, bit_same}
use copy_space.BitCopy.Masks.{bit_mask, set_digit, clear_digit}
use copy_space.BitCopy.Spec.{Returns}
use copy_space.Field.Encode.{FieldWritten}
use copy_space.CopyEmit.{reverse_byte, chunk_bits, field_chunk, field_chunks, field_bit, field}
use copy_space.CopyEmit.Digits.{reverse_byte-entry, merged_byte, testbit-merged_byte}

-- A write to one byte that sets the places of a field.
put-FieldWritten :
    (m : Bytes) (p v n w : ℕ)
    → p / 8 < length m
    → p % 8 + n ≤ 8
    → ((i : ℕ)
        → i < 8
        → testbit w (7 - i) ≡ (
            if leb (p % 8) i && ltb i (p % 8 + n)
            then testbit v (i - p % 8)
            else testbit (byte_at m (p / 8)) (7 - i)))
    → FieldWritten p v 0 n m (put m (p / 8) w)
put-FieldWritten m p v n w fits small digit = record {
  same_length = length-put m (p / 8) w;
  digits = λ k h.
      let inside : (leb (p % 8) (p % 8 + k) && ltb (p % 8 + k) (p % 8 + n)) ≡ true = ground arith in
      bit_at-put_self m (p / 8) w (p + (0 + k)) fits (omega arith)
      ∙ testbit_at w (7 - (p + (0 + k)) % 8) (7 - (p % 8 + k)) (omega arith)
      ∙ digit (p % 8 + k) (omega arith)
      ∙ rw inside (testbit_at v (p % 8 + k - p % 8) (0 + k) (omega arith));
  below = λ q h. elsewhere q λ e. ground arith;
  above = λ q h. elsewhere q λ e. ground arith;
}
  where
    elsewhere :
        (q : ℕ)
        → (q / 8 ≡ p / 8 → (leb (p % 8) (q % 8) && ltb (q % 8) (p % 8 + n)) ≡ false)
        → bit_at (put m (p / 8) w) q ≡ bit_at m q
    elsewhere q out = elim (Bool-cases (q / 8 == p / 8)) [
      | inl e ↦
          let e' : q / 8 ≡ p / 8 = ground arith in
          bit_at-put_self m (p / 8) w q fits e'
          ∙ digit (q % 8) (omega arith)
          ∙ rw (out e') (ap (λ t. testbit (byte_at m t) (7 - q % 8)) (sym e'))
      | inr e ↦ bit_at-put_ne m (p / 8) w q (ground arith)
    ]

field_chunk-FieldWritten :
    (m : Bytes) (p n v : ℕ)
    → p / 8 < length m
    → p % 8 + n ≤ 8
    → Returns (field_chunk m p n v) (FieldWritten p v 0 n m)
unfolding field_chunk merged_byte
field_chunk-FieldWritten m p n v fits small =
    let low = v % 256 in
    let masked : bit_and v 255 ≡ low = bit_and-low_mask 8 v in
    let w = merged_byte (byte_at m (p / 8)) (get_or reverse_byte low 0) (p % 8) n in
    (
      put m (p / 8) w,
      rw (masked, reverse_byte-entry low (omega arith), load-eq m (p / 8) fits)
          (store-eq m (p / 8) w fits),
      put-FieldWritten m p v n w fits small λ i h.
          testbit-merged_byte (byte_at m (p / 8)) low (p % 8) n i small (omega arith) (omega arith)
            h
          ∙ ap
              (λ t.
                if leb (p % 8) i && ltb i (p % 8 + n)
                then t
                else testbit (byte_at m (p / 8)) (7 - i))
              (testbit-mod v 8 (i - p % 8) (omega arith)),
    )

-- A field in two parts.
FieldWritten-append :
    (p v a b : ℕ) (m m' m'' : Bytes)
    → FieldWritten p v 0 a m m'
    → FieldWritten (p + a) (shr v a) 0 b m' m''
    → FieldWritten p v 0 (a + b) m m''
FieldWritten-append p v a b m m' m'' first rest = record {
  same_length = rest.same_length ∙ first.same_length;
  digits = λ k h. elim (Bool-cases (ltb k a)) [
    | inl low ↦
        let below : k < a = ground arith in
        rest.below (p + (0 + k)) (omega arith) ∙ first.digits k below
    | inr high ↦
        let j = k - a in
        let at : k ≡ a + j = ground arith in
        bit_same m'' {p = p + (0 + k)} {q = p + a + (0 + j)} (omega arith)
        ∙ rest.digits j (omega arith)
        ∙ testbit_at (shr v a) (0 + j) j (omega arith)
        ∙ testbit-shr v a j
        ∙ testbit_at v (a + j) (0 + k) (omega arith)
  ];
  below = λ q h. rest.below q (omega arith) ∙ first.below q (omega arith);
  above = λ q h. rest.above q (omega arith) ∙ first.above q (omega arith);
}

no_digits : (m : Bytes) (p v : ℕ) → FieldWritten p v 0 0 m m
no_digits m p v = record {
  same_length = refl;
  digits = λ k q. absurd (omega arith);
  below = λ q r. refl;
  above = λ q r. refl;
}

field_chunks-suc :
    (fuel : ℕ) (m : Bytes) (p n v : ℕ)
    → let count = chunk_bits (p % 8) (suc n) in
      field_chunks (suc fuel) m p (suc n) v ≡ (
        field_chunk m p count v >>= λ x.
        field_chunks fuel x (p + count) (suc n - count) (shr v count))
unfolding field_chunks
field_chunks-suc fuel m p n v = let more : (suc n == 0) ≡ false = ground arith in rw more refl

field_chunks-FieldWritten :
    (fuel : ℕ) (m : Bytes) (p n v : ℕ)
    → n ≤ fuel
    → p + n ≤ 8 * length m
    → Returns (field_chunks fuel m p n v) (FieldWritten p v 0 n m)
unfolding field_chunks
field_chunks-FieldWritten zero m p zero v h fits = (m, refl, no_digits m p v)
field_chunks-FieldWritten (suc fuel) m p zero v h fits = (m, refl, no_digits m p v)
field_chunks-FieldWritten zero m p (suc n) v h fits = absurd (omega arith)
field_chunks-FieldWritten (suc fuel) m p (suc n) v h fits =
    let count = chunk_bits (p % 8) (suc n) in
    let some_bits : (1 ≤ count) × (count ≤ suc n) × (p % 8 + count ≤ 8) = ground arith in
    let (m', e, w) = field_chunk-FieldWritten m p count v (omega arith) some_bits.2 in
    let (m'', d, r) =
      field_chunks-FieldWritten fuel m' (p + count) (suc n - count) (shr v count) (omega arith)
        (omega (arith, w.same_length)) in
    let whole : count + (suc n - count) ≡ suc n = omega arith in
    (
      m'',
      field_chunks-suc fuel m p n v
          ∙ ap (λ t. t >>= λ x. field_chunks fuel x (p + count) (suc n - count) (shr v count)) e
          ∙ d,
      subst (λ t. FieldWritten p v 0 t m m'') whole
          (FieldWritten-append p v count (suc n - count) m m' m'' w r),
    )

-- The short way gives the same.
field_bit-FieldWritten :
    (m : Bytes) (p v : ℕ) → p < 8 * length m → Returns (field_bit m p v) (FieldWritten p v 0 1 m)
unfolding field_bit
field_bit-FieldWritten m p v fits =
    let b = byte_at m (p / 8) in
    let mask = bit_mask (7 - p % 8) in
    let at : bit_and p 7 ≡ p % 8 = bit_and-low_mask 3 p in
    let inside : p / 8 < length m = omega arith in
    let w = u8 (bit_or (bit_and b (not8 mask)) (if bit_and v 1 == 0 then 0 else mask)) in
    (
      put m (p / 8) w,
      rw (at, load-eq m (p / 8) inside) (store-eq m (p / 8) w inside),
      put-FieldWritten m p v 1 w inside (omega arith) λ i h.
          testbit-mod (bit_or (bit_and b (not8 mask)) (if bit_and v 1 == 0 then 0 else mask)) 8
            (7 - i) (omega arith)
          ∙ one_digit b (7 - p % 8) (7 - i) (omega arith) (omega arith)
          ∙ place i h,
    )
  where
    one_digit :
        (b s k : ℕ)
        → s < 8
        → k < 8
        → testbit
            (bit_or (bit_and b (not8 (bit_mask s))) (if bit_and v 1 == 0 then 0 else bit_mask s))
            k
          ≡ (if s == k then v % 2 else testbit b k)
    one_digit b s k h q = elim (Bool-cases (bit_and v 1 == 0)) [
      | inl even ↦ rw (even, bit_or-zero) (clear_digit b s k h q ∙ ground (arith, bit_and_one v))
      | inr odd ↦ rw odd (
          set_digit (bit_and b (not8 (bit_mask s))) s k h q
          ∙ ground (arith, clear_digit b s k h q, bit_and_one v))
    ]

    place :
        (i : ℕ)
        → i < 8
        → (if 7 - p % 8 == 7 - i then v % 2 else testbit (byte_at m (p / 8)) (7 - i)) ≡ (
            if leb (p % 8) i && ltb i (p % 8 + 1)
            then testbit v (i - p % 8)
            else testbit (byte_at m (p / 8)) (7 - i))
    place i h = elim (Bool-cases (p % 8 == i)) [
      | inl e ↦
          let one : (7 - p % 8 == 7 - i) ≡ true = ground arith in
          let two : (leb (p % 8) i && ltb i (p % 8 + 1)) ≡ true = ground arith in
          rw (one, two) (testbit_at v 0 (i - p % 8) (ground arith))
      | inr e ↦
          let one : (7 - p % 8 == 7 - i) ≡ false = ground arith in
          let two : (leb (p % 8) i && ltb i (p % 8 + 1)) ≡ false = ground arith in
          rw (one, two) refl
    ]

-- `field` returns for every range of bits inside the buffer, with no access out of range. The range
-- then holds the digits of the value, the lowest first, and every other bit is as it was.
pub field-FieldWritten :
    (m : Bytes) (p n v : ℕ)
    → p + n ≤ 8 * length m
    → Returns (field m p n v) (FieldWritten p v 0 n m)
unfolding field
field-FieldWritten m p n v fits = elim (Bool-cases (n == 1)) [
  | inl single ↦
      let one : n ≡ 1 = ground arith in
      rw single (
        subst (λ t. Returns (field_bit m p v) (FieldWritten p v 0 t m)) (sym one)
          (field_bit-FieldWritten m p v (omega arith)))
  | inr several ↦ rw several (field_chunks-FieldWritten n m p n v (omega arith) fits)
]
