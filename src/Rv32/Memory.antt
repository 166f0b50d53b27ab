-- ===== src/Rv32/Memory.antt =====
-- Little-endian accesses to space, as numbers.
use copy_space.Base.{
  ℕ, ◌+◌, ◌*◌, ◌/◌, ◌%◌, ◌^◌, ◌<◌, ◌≤◌, ◌≡◌, refl, ap, ◌∙◌, arith, ◌⊎◌, inl, inr, some, length,
  bit_and, bit_or, bit_and-low_mask, bit_or-disjoint,
}
use copy_space.Memory.{
  Bytes, byte_at, put, u8, shr, load-eq, store-eq, length-put, byte_at-put_self, byte_at-put_ne,
}
use copy_space.BitCopy.Spec.{Returns}
use copy_space.Rv32.{rd_u32_le, rd_u16_le, rd_u8, wr_u32_le, wr_u16_le, wr_u8}

-- The two bytes from byte `b` on, and the four.
abbrev pub half : Bytes → ℕ → ℕ
half m b = byte_at m b + byte_at m (b + 1) * 2 ^ 8

abbrev pub word : Bytes → ℕ → ℕ
word m b = half m b + byte_at m (b + 2) * 2 ^ 16 + byte_at m (b + 3) * 2 ^ 24

pub rd_u8-eq : (m : Bytes) (at : ℕ) → at / 8 < length m → rd_u8 m at ≡ some (byte_at m (at / 8))
unfolding rd_u8
rd_u8-eq m at h = load-eq m (at / 8) h

pub rd_u16_le-eq :
    (m : Bytes) (at : ℕ) → at / 8 + 2 ≤ length m → rd_u16_le m at ≡ some (half m (at / 8))
unfolding rd_u16_le
rd_u16_le-eq m at h =
    let b = at / 8 in
    let two = bit_or-disjoint 8 (byte_at m b) (byte_at m (b + 1)) (omega arith) in
    rw (load-eq m b (omega arith), load-eq m (b + 1) (omega arith)) (ap some two)

pub rd_u32_le-eq :
    (m : Bytes) (at : ℕ) → at / 8 + 4 ≤ length m → rd_u32_le m at ≡ some (word m (at / 8))
unfolding rd_u32_le
rd_u32_le-eq m at h =
    let b = at / 8 in
    let two = bit_or-disjoint 8 (byte_at m b) (byte_at m (b + 1)) (omega arith) in
    let three = bit_or-disjoint 16 (half m b) (byte_at m (b + 2)) (omega arith) in
    let four =
      bit_or-disjoint 24 (half m b + byte_at m (b + 2) * 2 ^ 16) (byte_at m (b + 3))
        (omega arith) in
    rw
      (
        load-eq m b (omega arith),
        load-eq m (b + 1) (omega arith),
        load-eq m (b + 2) (omega arith),
        load-eq m (b + 3) (omega arith),
      )
      (ap some (
        ap (λ t. bit_or (bit_or t (byte_at m (b + 2) * 2 ^ 16)) (byte_at m (b + 3) * 2 ^ 24)) two
        ∙ ap (λ t. bit_or t (byte_at m (b + 3) * 2 ^ 24)) three
        ∙ four))

-- The bytes outside a range are kept.
pub record Patched (b n : ℕ) (m m' : Bytes) : Type 0 where
  pub same_length : length m' ≡ length m
  pub outside : (i : ℕ) → (i < b) ⊎ (b + n ≤ i) → byte_at m' i ≡ byte_at m i

pub record WordWritten (b v : ℕ) (m m' : Bytes) : Type 0 where
  pub patched : Patched b 4 m m'
  pub word_is : word m' b ≡ v % 2 ^ 32

pub record HalfWritten (b v : ℕ) (m m' : Bytes) : Type 0 where
  pub patched : Patched b 2 m m'
  pub half_is : half m' b ≡ v % 2 ^ 16

pub record ByteWritten (b v : ℕ) (m m' : Bytes) : Type 0 where
  pub patched : Patched b 1 m m'
  pub byte_is : byte_at m' b ≡ v % 2 ^ 8

pub put-Patched : (m : Bytes) (b v : ℕ) → Patched b 1 m (put m b v)
put-Patched m b v = record { same_length = length-put m b v; outside = other }
  where
    other : (i : ℕ) → (i < b) ⊎ (b + 1 ≤ i) → byte_at (put m b v) i ≡ byte_at m i
    other i (inl l) = byte_at-put_ne m b i v (omega arith)
    other i (inr l) = byte_at-put_ne m b i v (omega arith)

Patched-append :
    (b n b' k : ℕ) (m m' m'' : Bytes)
    → b' ≡ b + n
    → Patched b n m m'
    → Patched b' k m' m''
    → Patched b (n + k) m m''
Patched-append b n b' k m m' m'' e p q = record {
  same_length = q.same_length ∙ p.same_length;
  outside = other;
}
  where
    other : (i : ℕ) → (i < b) ⊎ (b + (n + k) ≤ i) → byte_at m'' i ≡ byte_at m i
    other i (inl l) = q.outside i (inl (omega arith)) ∙ p.outside i (inl (omega arith))
    other i (inr l) = q.outside i (inr (omega arith)) ∙ p.outside i (inr (omega arith))

pub wr_u8-ByteWritten :
    (m : Bytes) (at v : ℕ) → at / 8 < length m → Returns (wr_u8 m at v) (ByteWritten (at / 8) v m)
unfolding wr_u8
wr_u8-ByteWritten m at v h = (
  put m (at / 8) v,
  store-eq m (at / 8) v h,
  record { patched = put-Patched m (at / 8) v; byte_is = byte_at-put_self m (at / 8) v h },
)

-- Byte `k` of a number.
low_byte : (v k : ℕ) → u8 (bit_and (shr v k) 255) ≡ shr v k % 2 ^ 8
low_byte v k = omega (arith, bit_and-low_mask 8 (shr v k))

-- Two bytes stored one after the other.
abbrev put_half : Bytes → ℕ → ℕ → Bytes
put_half m b v = put (put m b (bit_and v 255)) (b + 1) (bit_and (shr v 8) 255)

put_half-Patched : (m : Bytes) (b v : ℕ) → Patched b 2 m (put_half m b v)
put_half-Patched m b v =
    let m1 = put m b (bit_and v 255) in
    Patched-append b 1 (b + 1) 1 m m1 (put_half m b v) refl (put-Patched m b (bit_and v 255))
      (put-Patched m1 (b + 1) (bit_and (shr v 8) 255))

put_half-is : (m : Bytes) (b v : ℕ) → b + 2 ≤ length m → half (put_half m b v) b ≡ v % 2 ^ 16
put_half-is m b v h =
    let v0 = bit_and v 255 in
    let v1 = bit_and (shr v 8) 255 in
    let m1 = put m b v0 in
    omega (
      arith,
      byte_at-put_ne m1 (b + 1) b v1 (omega arith),
      byte_at-put_self m b v0 (omega arith),
      byte_at-put_self m1 (b + 1) v1 (omega (arith, length-put m b v0)),
      low_byte v 8,
      bit_and-low_mask 8 v,
    )

pub wr_u16_le-HalfWritten :
    (m : Bytes) (at v : ℕ)
    → at / 8 + 2 ≤ length m
    → Returns (wr_u16_le m at v) (HalfWritten (at / 8) v m)
unfolding wr_u16_le
wr_u16_le-HalfWritten m at v h =
    let b = at / 8 in
    let v0 = bit_and v 255 in
    (
      put_half m b v,
      rw (store-eq m b v0 (omega arith)) (
          store-eq (put m b v0) (b + 1) (bit_and (shr v 8) 255) (omega (arith, length-put m b v0))),
      record { patched = put_half-Patched m b v; half_is = put_half-is m b v h },
    )

pub wr_u32_le-WordWritten :
    (m : Bytes) (at v : ℕ)
    → at / 8 + 4 ≤ length m
    → Returns (wr_u32_le m at v) (WordWritten (at / 8) v m)
unfolding wr_u32_le
wr_u32_le-WordWritten m at v h =
    let b = at / 8 in
    let v0 = bit_and v 255 in
    let v1 = bit_and (shr v 8) 255 in
    let v2 = bit_and (shr v 16) 255 in
    let v3 = bit_and (shr v 24) 255 in
    let m1 = put m b v0 in
    let m2 = put_half m b v in
    let m3 = put m2 (b + 2) v2 in
    let m4 = put m3 (b + 3) v3 in
    let first = put_half-Patched m b v in
    let third = put-Patched m2 (b + 2) v2 in
    let fourth = put-Patched m3 (b + 3) v3 in
    let later = Patched-append (b + 2) 1 (b + 3) 1 m2 m3 m4 (omega arith) third fourth in
    (
      m4,
      rw
          (
            store-eq m b v0 (omega arith),
            store-eq m1 (b + 1) v1 (omega (arith, length-put m b v0)),
            store-eq m2 (b + 2) v2 (omega (arith, first.same_length)),
          )
          (store-eq m3 (b + 3) v3 (omega (arith, first.same_length, third.same_length))),
      record {
        patched = Patched-append b 2 (b + 2) 2 m m2 m4 refl first later;
        word_is = omega (
          arith,
          later.outside b (inl (omega arith)),
          later.outside (b + 1) (inl (omega arith)),
          put_half-is m b v (omega arith),
          fourth.outside (b + 2) (inl (omega arith)),
          byte_at-put_self m2 (b + 2) v2 (omega (arith, first.same_length)),
          byte_at-put_self m3 (b + 3) v3 (omega (arith, first.same_length, third.same_length)),
          low_byte v 16,
          low_byte v 24,
        );
      },
    )
