-- ===== src/Field/Decode.antt =====
-- `get_argument` reads the field that stands at its position, on both of its paths.
use copy_space.Base.{ℕ, ◌+◌, ◌-◌, ◌*◌, ◌/◌, ◌%◌, ◌<◌, ◌≤◌, ◌≡◌, refl, ◌∙◌, arith}
use copy_space.Base.{testbit, bit_or, if◌then◌else◌, ltb, leb, ◌&&◌, Bool-cases, inl, inr, ◌⊎◌}
use copy_space.Base.{
  testbit-bit_or, testbit-mod, testbit-shl, testbit-shl_low, testbit-shr, testbit-of_lt,
}
use copy_space.Base.{ltb→lt, ltb→le, true, false, some, length}
use copy_space.Memory.{Bytes, byte_at, load-eq, shl, shr}
use copy_space.Memory.Bits.{bit_at, bit_same}
use copy_space.Field.{u32, reverse_bits_in_bytes, load_packed, add_fifth}
use copy_space.Field.Reverse.{testbit-reverse, testbit-reverse_high}

-- A byte moved up by `k` has its digits from `k` to `k + 7`.
byte_part :
    (p k i : ℕ)
    → p < 256
    → testbit (shl p k) i ≡ (if leb k i && ltb i (k + 8) then testbit p (i - k) else 0)
byte_part p k i h = elim (Bool-cases (ltb i k)) [
  | inl low ↦
      let out : (leb k i && ltb i (k + 8)) ≡ false = ground arith in
      rw out (testbit-shl_low p k i (ltb→lt i k low))
  | inr high ↦ elim (Bool-cases (ltb i (k + 8))) [
    | inl inside ↦
        let here : (leb k i && ltb i (k + 8)) ≡ true = ground arith in
        rw here (testbit-shl p k i (ltb→le i k high))
    | inr past ↦
        let out : (leb k i && ltb i (k + 8)) ≡ false = ground arith in
        rw out (
          testbit-shl p k i (ltb→le i k high)
          ∙ testbit-of_lt p 8 (i - k) h (omega (arith, ltb→le i (k + 8) past, ltb→le i k high)))
  ]
]

abbrev pub packed_bytes : Bytes → ℕ → ℕ
packed_bytes m b =
    bit_or (bit_or (bit_or (byte_at m b) (shl (byte_at m (b + 1)) 8)) (shl (byte_at m (b + 2)) 16))
      (shl (byte_at m (b + 3)) 24)

pub load_packed-eq :
    (m : Bytes) (b : ℕ) → b + 4 ≤ length m → load_packed m b ≡ some (packed_bytes m b)
unfolding load_packed
load_packed-eq m b h = rw (
  load-eq m b (omega arith),
  load-eq m (b + 1) (omega arith),
  load-eq m (b + 2) (omega arith),
  load-eq m (b + 3) (omega arith),
)

four_parts :
    (p0 p1 p2 p3 i : ℕ)
    → p0 < 256
    → p1 < 256
    → p2 < 256
    → p3 < 256
    → i < 32
    → testbit (bit_or (bit_or (bit_or p0 (shl p1 8)) (shl p2 16)) (shl p3 24)) i ≡ (
        if ltb i 8
        then testbit p0 i
        else if ltb i 16
        then testbit p1 (i - 8)
        else if ltb i 24
        then testbit p2 (i - 16)
        else testbit p3 (i - 24))
four_parts p0 p1 p2 p3 i a b c d h = ground (
  arith,
  testbit-bit_or (bit_or (bit_or p0 (shl p1 8)) (shl p2 16)) (shl p3 24) i,
  testbit-bit_or (bit_or p0 (shl p1 8)) (shl p2 16) i,
  testbit-bit_or p0 (shl p1 8) i,
  λ (e : 8 ≤ i). testbit-of_lt p0 8 i a e,
  byte_part p1 8 i b,
  byte_part p2 16 i c,
  byte_part p3 24 i d,
)

byte_digit :
    (m : Bytes) (b c i j : ℕ) → b ≡ c → i ≡ j → testbit (byte_at m b) i ≡ testbit (byte_at m c) j
byte_digit m b c i j e f = rw (e, f)

packed_digit :
    (m : Bytes) (b i : ℕ)
    → i < 32
    → testbit (packed_bytes m b) i ≡ testbit (byte_at m (b + i / 8)) (i % 8)
packed_digit m b i h =
    four_parts (byte_at m b) (byte_at m (b + 1)) (byte_at m (b + 2)) (byte_at m (b + 3)) i
      (omega arith) (omega arith) (omega arith) (omega arith) h
    ∙ chosen (Bool-cases (ltb i 8)) (Bool-cases (ltb i 16)) (Bool-cases (ltb i 24))
  where
    chosen :
        (ltb i 8 ≡ true) ⊎ (ltb i 8 ≡ false)
        → (ltb i 16 ≡ true) ⊎ (ltb i 16 ≡ false)
        → (ltb i 24 ≡ true) ⊎ (ltb i 24 ≡ false)
        → (if ltb i 8
            then testbit (byte_at m b) i
            else if ltb i 16
            then testbit (byte_at m (b + 1)) (i - 8)
            else if ltb i 24
            then testbit (byte_at m (b + 2)) (i - 16)
            else testbit (byte_at m (b + 3)) (i - 24))
          ≡ testbit (byte_at m (b + i / 8)) (i % 8)
    chosen (inl p) _ _ =
        let p' = ltb→lt i 8 p in
        rw p (byte_digit m b (b + i / 8) i (i % 8) (omega arith) (omega arith))
    chosen (inr p) (inl q) _ =
        let p' = ltb→le i 8 p in
        let q' = ltb→lt i 16 q in
        rw (p, q) (byte_digit m (b + 1) (b + i / 8) (i - 8) (i % 8) (omega arith) (omega arith))
    chosen (inr p) (inr q) (inl r) =
        let q' = ltb→le i 16 q in
        let r' = ltb→lt i 24 r in
        rw (p, q, r) (byte_digit m (b + 2) (b + i / 8) (i - 16) (i % 8) (omega arith) (omega arith))
    chosen (inr p) (inr q) (inr r) =
        let r' = ltb→le i 24 r in
        rw (p, q, r) (byte_digit m (b + 3) (b + i / 8) (i - 24) (i % 8) (omega arith) (omega arith))

-- After the reversal the digits of the four bytes are their bits in order.
reversed_digit :
    (m : Bytes) (b i : ℕ)
    → i < 32
    → testbit (reverse_bits_in_bytes (packed_bytes m b)) i ≡ bit_at m (8 * b + i)
reversed_digit m b i h =
    let j = 8 * (i / 8) + (7 - i % 8) in
    testbit-reverse (packed_bytes m b) i h
    ∙ packed_digit m b j (omega arith)
    ∙ byte_digit m (b + j / 8) ((8 * b + i) / 8) (j % 8) (7 - (8 * b + i) % 8) (omega arith)
        (omega arith)

fifth_digit :
    (m : Bytes) (b i : ℕ)
    → i < 8
    → testbit (reverse_bits_in_bytes (byte_at m b)) i ≡ bit_at m (8 * b + i)
fifth_digit m b i h =
    testbit-reverse (byte_at m b) i (omega arith)
    ∙ byte_digit m b ((8 * b + i) / 8) (8 * (i / 8) + (7 - i % 8)) (7 - (8 * b + i) % 8)
        (omega arith) (omega arith)

-- The four bytes shifted to the field's first bit.
shifted_digit :
    (m : Bytes) (p k : ℕ)
    → p % 8 + k < 32
    → testbit (shr (reverse_bits_in_bytes (packed_bytes m (p / 8))) (p % 8)) k ≡ bit_at m (p + k)
shifted_digit m p k h =
    testbit-shr (reverse_bits_in_bytes (packed_bytes m (p / 8))) (p % 8) k
    ∙ reversed_digit m (p / 8) (p % 8 + k) h
    ∙ bit_same m {p = 8 * (p / 8) + (p % 8 + k)} {q = p + k} (omega arith)

shifted_digit_high :
    (m : Bytes) (p k : ℕ)
    → 32 ≤ p % 8 + k
    → testbit (shr (reverse_bits_in_bytes (packed_bytes m (p / 8))) (p % 8)) k ≡ 0
shifted_digit_high m p k h =
    testbit-shr (reverse_bits_in_bytes (packed_bytes m (p / 8))) (p % 8) k
    ∙ testbit-reverse_high (packed_bytes m (p / 8)) (p % 8 + k) h

abbrev fifth_part : Bytes → ℕ → ℕ
fifth_part m p = u32 (shl (reverse_bits_in_bytes (byte_at m (p / 8 + 4))) (32 - p % 8))

fifth_part_low : (m : Bytes) (p k : ℕ) → p % 8 + k < 32 → k < 32 → testbit (fifth_part m p) k ≡ 0
fifth_part_low m p k h below =
    testbit-mod (shl (reverse_bits_in_bytes (byte_at m (p / 8 + 4))) (32 - p % 8)) 32 k below
    ∙ testbit-shl_low (reverse_bits_in_bytes (byte_at m (p / 8 + 4))) (32 - p % 8) k (omega arith)

fifth_part_high :
    (m : Bytes) (p k : ℕ) → 32 ≤ p % 8 + k → k < 32 → testbit (fifth_part m p) k ≡ bit_at m (p + k)
fifth_part_high m p k h below =
    testbit-mod (shl (reverse_bits_in_bytes (byte_at m (p / 8 + 4))) (32 - p % 8)) 32 k below
    ∙ testbit-shl (reverse_bits_in_bytes (byte_at m (p / 8 + 4))) (32 - p % 8) k (omega arith)
    ∙ fifth_digit m (p / 8 + 4) (k - (32 - p % 8)) (omega arith)
    ∙ bit_same m {p = 8 * (p / 8 + 4) + (k - (32 - p % 8))} {q = p + k} (omega arith)

-- With the fifth byte the digits reach as far as the field.
pub add_fifth-digits :
    (m : Bytes) (p n : ℕ)
    → n ≤ 31
    → p + n ≤ 8 * length m
    → (v : ℕ) × (add_fifth m
          (p / 8)
          (p % 8)
          n
          (shr (reverse_bits_in_bytes (packed_bytes m (p / 8))) (p % 8))
        ≡ some v)
      × ((k : ℕ) → k < n → testbit v k ≡ bit_at m (p + k))
unfolding add_fifth
add_fifth-digits m p n small fits =
    let x = shr (reverse_bits_in_bytes (packed_bytes m (p / 8))) (p % 8) in
    elim (Bool-cases (ltb 32 (n + p % 8))) [
      | inl past ↦
          let past' = ltb→lt 32 (n + p % 8) past in
          rw (past, load-eq m (p / 8 + 4) (omega arith))
            (
              bit_or x (fifth_part m p),
              refl,
              λ k h. elim (Bool-cases (ltb (p % 8 + k) 32)) [
                | inl low ↦
                    let low' = ltb→lt (p % 8 + k) 32 low in
                    omega (
                      arith,
                      testbit-bit_or x (fifth_part m p) k,
                      shifted_digit m p k low',
                      fifth_part_low m p k low' (omega arith),
                    )
                | inr high ↦
                    let high' = ltb→le (p % 8 + k) 32 high in
                    omega (
                      arith,
                      testbit-bit_or x (fifth_part m p) k,
                      shifted_digit_high m p k high',
                      fifth_part_high m p k high' (omega arith),
                    )
              ],
            )
      | inr short ↦
          let short' = ltb→le 32 (n + p % 8) short in
          rw short (x, refl, λ k h. shifted_digit m p k (omega arith))
    ]
