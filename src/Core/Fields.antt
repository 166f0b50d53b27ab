-- ===== src/Core/Fields.antt =====
-- A field that `encode` writes into zero bits.
use copy_space.Base.{
  ℕ, zero, suc, ◌+◌, ◌-◌, ◌*◌, ◌/◌, ◌%◌, ◌^◌, ◌<◌, ◌≤◌, ◌≡◌, refl, ap, ◌∙◌, arith, length, bit_or,
  bit_or-zero, bit_and_one-shr, testbit, testbit-le-one,
}
use copy_space.Memory.{Bytes, byte_at, put, u8, store, load-eq, store-eq}
use copy_space.Memory.Bits.{bit_at, bit_same}
use copy_space.BitCopy.{bit_set_ptr}
use copy_space.BitCopy.Spec.{Returns, Returns-bind}
use copy_space.BitCopy.Fallback.{BitSet, bit_set_ptr-BitSet, put-BitSet}
use copy_space.Field.Encode.{FieldWritten, written_step}
use copy_space.Core.{or_bit, encode_bits}

or_bit-BitSet :
    (m : Bytes) (p v : ℕ)
    → v ≤ 1
    → p < 8 * length m
    → bit_at m p ≡ 0
    → Returns (or_bit m p v) (BitSet p v m)
unfolding or_bit bit_set_ptr
or_bit-BitSet m p zero one h blank =
    let x = byte_at m (p / 8) in
    let fits : p / 8 < length m = omega arith in
    (
      put m (p / 8) x,
      rw (load-eq m (p / 8) fits) (
          ap (λ t. store m (p / 8) t) (ap (bit_or x) (nothing (2 ^ (7 - p % 8))) ∙ bit_or-zero x)
          ∙ store-eq m (p / 8) x fits),
      put-BitSet m p 0 x fits blank λ k below ne. refl,
    )
  where
    nothing : (w : ℕ) → u8 (0 * w) ≡ 0
    nothing w = omega arith
or_bit-BitSet m p (suc zero) one h blank = bit_set_ptr-BitSet m p 1 one h
or_bit-BitSet m p (suc (suc v)) one h blank = absurd (omega arith)

-- All bits of a range are zero.
abbrev pub Blank : Bytes → ℕ → ℕ → Type 0
Blank m p n = (k : ℕ) → k < n → bit_at m (p + k) ≡ 0

pub encode_bits-FieldWritten :
    (m : Bytes) (p v n i : ℕ)
    → p + (i + n) ≤ 8 * length m
    → Blank m (p + i) n
    → Returns (encode_bits m p v n i) (FieldWritten p v i n m)
unfolding encode_bits
encode_bits-FieldWritten m p v zero i h blank = (
  m,
  refl,
  record {
    same_length = refl;
    digits = λ k q. absurd (omega arith);
    below = λ q r. refl;
    above = λ q r. refl;
  },
)
encode_bits-FieldWritten m p v (suc n) i h blank = rw (bit_and_one-shr v i) (
    Returns-bind (BitSet (p + i) (testbit v i) m) (FieldWritten p v i (suc n) m)
      (or_bit-BitSet m (p + i) (testbit v i) (testbit-le-one v i) (omega arith)
        (bit_same m {p = p + i} {q = p + i + 0} (omega arith) ∙ blank 0 (omega arith)))
      λ m' b.
        let (m'', e, w) =
          encode_bits-FieldWritten m' p v n (i + 1) (omega (arith, b.same_length)) λ k q.
            b.elsewhere (p + (i + 1) + k) (omega arith)
            ∙ bit_same m {p = p + (i + 1) + k} {q = p + i + suc k} (omega arith)
            ∙ blank (suc k) (omega arith) in
        (m'', e, written_step p v i n m m' m'' b w))
