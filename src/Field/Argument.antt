-- ===== src/Field/Argument.antt =====
-- `get_argument` reads the field at its position, on its fast path and near the end of space.
use copy_space.Base.{
  ℕ, zero, suc, ◌+◌, ◌-◌, ◌*◌, ◌/◌, ◌%◌, ◌^◌, ◌<◌, ◌≤◌, ◌≡◌, refl, ap, ◌∙◌, arith,
}
use copy_space.Base.{testbit, testbit_at, bit_and, bit_or, ltb, Bool-cases, inl, inr}
use copy_space.Base.{testbit-bit_or, testbit-mod, testbit-shl, testbit-shl_low, testbit-of_lt}
use copy_space.Base.{bit_and_one-shr, bit_or-lt, bit_and-low_mask, ltb→lt, ltb→le, some, length}
use native.Mathlib.Nat.{pow-suc, mod-lt, one-le-pow, mod-le}
use copy_space.Memory.{Bytes, byte_at, load-eq, shl}
use copy_space.Memory.Bits.{bit_at}
use copy_space.Field.{u32, gather_bits, get_argument, read_field}
use copy_space.Field.Meaning.{bit-le-one, eq-read_field}
use copy_space.Field.Decode.{load_packed-eq, add_fifth-digits}

-- What the bit loop has gathered after `i` rounds.
record Gathered (m : Bytes) (p i v : ℕ) : Type 0 where
  small : v < 2 ^ i
  digits : (k : ℕ) → k < i → testbit v k ≡ bit_at m (p + k)

bit_shl-lt : (b i : ℕ) → b ≤ 1 → shl b i < 2 ^ suc i
bit_shl-lt zero i h = omega (arith, pow-suc 2 i, one-le-pow i 2 (omega arith))
bit_shl-lt (suc b) i h =
    let only_one : suc b ≡ 1 = omega arith in
    rw only_one (omega (arith, pow-suc 2 i, one-le-pow i 2 (omega arith)))

newest :
    (m : Bytes) (p i v : ℕ)
    → i < 32
    → Gathered m p i v
    → testbit (bit_or v (u32 (shl (bit_at m (p + i)) i))) i ≡ bit_at m (p + i)
newest m p i v h g =
    let b = bit_at m (p + i) in
    let lowest : testbit b (i - i) ≡ testbit b 0 = testbit_at b (i - i) 0 (omega arith) in
    omega (
      arith,
      testbit-bit_or v (u32 (shl b i)) i,
      testbit-of_lt v i i g.small (omega arith),
      testbit-mod (shl b i) 32 i h,
      testbit-shl b i i (omega arith),
      lowest,
      bit-le-one m (p + i),
    )

gather_step :
    (m : Bytes) (p i v : ℕ)
    → i < 32
    → Gathered m p i v
    → Gathered m p (i + 1) (bit_or v (u32 (shl (bit_at m (p + i)) i)))
gather_step m p i v h g =
    let b = bit_at m (p + i) in
    let next : i + 1 ≡ suc i = omega arith in
    let part_lt : u32 (shl b i) < 2 ^ suc i =
      omega (arith, mod-le (shl b i) (2 ^ 32), bit_shl-lt b i (bit-le-one m (p + i))) in
    rw next (record {
      small = bit_or-lt (suc i) v (u32 (shl b i)) (omega (arith, pow-suc 2 i, g.small)) part_lt;
      digits = λ k q. elim (Bool-cases (ltb k i)) [
        | inl below ↦
            let below' = ltb→lt k i below in
            omega (
              arith,
              testbit-bit_or v (u32 (shl b i)) k,
              g.digits k below',
              testbit-mod (shl b i) 32 k (omega arith),
              testbit-shl_low b i k below',
            )
        | inr here ↦ let e : k ≡ i = omega (arith, ltb→le k i here) in rw e (newest m p i v h g)
      ];
    })

one_round :
    (m : Bytes) (p left i v : ℕ)
    → p + i < 8 * length m
    → gather_bits m p (suc left) i v
      ≡ gather_bits m p left (i + 1) (bit_or v (u32 (shl (bit_at m (p + i)) i)))
unfolding gather_bits
one_round m p left i v h = rw (
  load-eq m ((p + i) / 8) (omega arith),
  bit_and_one-shr (byte_at m ((p + i) / 8)) (7 - (p + i) % 8),
)

gather_bits-Gathered :
    (m : Bytes) (p left i v : ℕ)
    → i + left ≤ 31
    → p + (i + left) ≤ 8 * length m
    → Gathered m p i v
    → (r : ℕ) × (gather_bits m p left i v ≡ some r) × Gathered m p (i + left) r
unfolding gather_bits
gather_bits-Gathered m p zero i v h f g = let e : i + 0 ≡ i = omega arith in (v, refl, rw e g)
gather_bits-Gathered m p (suc left) i v h f g =
    let e : i + suc left ≡ i + 1 + left = omega arith in
    let (r, q, d) =
      gather_bits-Gathered m p left (i + 1) (bit_or v (u32 (shl (bit_at m (p + i)) i)))
        (omega arith) (omega arith) (gather_step m p i v (omega arith) g) in
    (r, one_round m p left i v (omega arith) ∙ q, rw e d)

Gathered-field : (m : Bytes) (p i n r : ℕ) → n ≡ i → Gathered m p i r → r ≡ read_field m p n
Gathered-field m p i n r e g = rw e (eq-read_field m p i r g.small g.digits)

-- The final mask keeps the digits of the field and no other.
masked :
    (m : Bytes) (p n v : ℕ)
    → ((k : ℕ) → k < n → testbit v k ≡ bit_at m (p + k))
    → bit_and v (shl 1 n - 1) ≡ read_field m p n
masked m p n v digits =
    let e : shl 1 n ≡ 2 ^ n = omega arith in
    rw (e, bit_and-low_mask)
      (eq-read_field m p n (v % 2 ^ n) (mod-lt v (one-le-pow n 2 (omega arith)))
        λ k h. testbit-mod v n k h ∙ digits k h)

-- `get_argument` returns, with no access out of range, for every field of at most 31 bits that lies
-- in space, also where the four-byte read would pass its end or a fifth byte is needed; the value
-- is the number whose binary digits, the least significant first, are the bits of the field.
pub get_argument-eq-read_field :
    (m : Bytes) (p n : ℕ)
    → n ≤ 31
    → p + n ≤ 8 * length m
    → get_argument m p n ≡ some (read_field m p n)
unfolding get_argument
get_argument-eq-read_field m p n small fits = elim (Bool-cases (ltb (length m) (p / 8 + 4))) [
  | inl near ↦
      let (r, q, g) =
        gather_bits-Gathered m p n 0 0 (omega arith) (omega arith)
          (record { small = omega arith; digits = λ k h. elim h [ ] }) in
      rw near (q ∙ ap some (Gathered-field m p (0 + n) n r (omega arith) g))
  | inr far ↦
      let far' = ltb→le (length m) (p / 8 + 4) far in
      let (v, q, digits) = add_fifth-digits m p n small fits in
      rw (far, load_packed-eq m (p / 8) far', q) (ap some (masked m p n v digits))
]
