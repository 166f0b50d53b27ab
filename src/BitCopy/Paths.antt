-- ===== src/BitCopy/Paths.antt =====
-- The choice of a path, and `bitcpy` as a whole.
use copy_space.Base.{ℕ, zero, suc, ◌+◌, ◌*◌, ◌/◌, ◌%◌, ◌≤◌, ◌≡◌, refl, inl, inr}
use copy_space.Base.{true, false, arith, ◌==◌, bit_or}
use copy_space.Base.{ltb, ltb→le, Bool-cases, bit_or_step}
use copy_space.Memory.{Bytes, size_add}
use copy_space.Memory.Bits.{bit_same}
use copy_space.BitCopy.{Origin, same, apart}
use copy_space.BitCopy.{in_place, overlaps, copy_fast, bitcpy}
use copy_space.BitCopy.Spec.{
  Returns, Copied, Separate, Fits, Copied-none, Fits-sub, Copied-at, Separate-at,
}
use copy_space.BitCopy.Fallback.{overlap_fallback-Copied}
use copy_space.BitCopy.Aligned.{copy_aligned-Copied, copy_same_offset-Copied}
use copy_space.BitCopy.Shifted.{copy_shifted-Copied}

-- `((src_bit | dst_bit) & 7) == 0` says that both are multiples of 8.
both_aligned : (a b : ℕ) → bit_or a b % 8 ≡ 0 → (a % 8 ≡ 0) × (b % 8 ≡ 0)
both_aligned a b h =
    omega (arith, bit_or_step a b, bit_or_step (a / 2) (b / 2), bit_or_step (a / 2 / 2) (b / 2 / 2))

copy_fast-Copied :
    (o : Origin) (n s d : ℕ) (m : Bytes)
    → 8 ≤ n
    → Separate o n s d
    → Fits o n s d m
    → Returns (copy_fast o n s d m) (Copied o n s d m)
unfolding copy_fast
copy_fast-Copied o n s d m p sep f = elim (Bool-cases (bit_or s d % 8 == 0)) [
  | inl z ↦
      let both = both_aligned s d (ground arith) in
      let (m', e, c) =
        copy_aligned-Copied o n (s / 8) (d / 8) m
          (Separate-at o n s d (8 * (s / 8)) (8 * (d / 8)) (omega arith) (omega arith) sep)
          (Fits-sub o n s d n (8 * (s / 8)) (8 * (d / 8)) m m refl f (omega arith) (omega arith)) in
      rw z
        (m', e, Copied-at o n (8 * (s / 8)) (8 * (d / 8)) n s d refl (omega arith) (omega arith) c)
  | inr nz ↦ elim (Bool-cases (s % 8 == d % 8)) [
    | inl q ↦
        let q' : s % 8 ≡ d % 8 = ground arith in
        let a = d % 8 in
        let (m', e, c) =
          copy_same_offset-Copied o n a (s / 8) (d / 8) m p (omega arith)
            (Separate-at o n s d (8 * (s / 8) + a) (8 * (d / 8) + a) (omega arith) (omega arith)
              sep)
            (Fits-sub o n s d n (8 * (s / 8) + a) (8 * (d / 8) + a) m m refl f (omega arith)
              (omega arith)) in
        rw (nz, q)
          (
            m',
            e,
            Copied-at o n (8 * (s / 8) + a) (8 * (d / 8) + a) n s d refl (omega arith) (omega arith)
                c,
          )
    | inr q ↦ rw (nz, q) (copy_shifted-Copied o n s d m p sep f)
  ]
]

pub Separate-of_no_overlap :
    (o : Origin) (n s d : ℕ) (m : Bytes)
    → overlaps o n s d ≡ false
    → Fits o n s d m
    → Separate o n s d
unfolding overlaps
Separate-of_no_overlap same n s d m h f =
    let e : size_add s n ≡ s + n = omega (arith, f) in
    let g : size_add d n ≡ d + n = omega (arith, f) in ground arith
Separate-of_no_overlap (apart src) n s d m h f = tt

in_place-Copied : (o : Origin) (n s d : ℕ) (m : Bytes) → in_place o s d ≡ true → Copied o n s d m m
unfolding in_place
in_place-Copied same n s d m h =
    let e : s ≡ d = ground arith in
    record {
      same_length = refl;
      inside = λ j p. bit_same m {p = d + j} {q = s + j} (omega arith);
      outside_low = λ p q. refl;
      outside_high = λ p q. refl;
    }
in_place-Copied (apart src) n s d m h = absurd (cc)

-- `bitcpy` returns, with no access out of range, for every pair of ranges that lie in their
-- buffers, overlapping ones included: the destination range then holds the bits that the source
-- range held before the call, and every other bit of the destination buffer is as it was.
pub bitcpy-Copied :
    (o : Origin) (n s d : ℕ) (m : Bytes)
    → Fits o n s d m
    → Returns (bitcpy o n s d m) (Copied o n s d m)
unfolding bitcpy
bitcpy-Copied o zero s d m f = (m, refl, Copied-none o s d m)
bitcpy-Copied o (suc k) s d m f =
    let n = suc k in
    let fallback = overlap_fallback-Copied o n s d m f in
    let some_bits : (n == 0) ≡ false = ground arith in
    elim (Bool-cases (in_place o s d)) [
      | inl p ↦ rw (some_bits, p) (m, refl, in_place-Copied o n s d m p)
      | inr p ↦ elim (Bool-cases (ltb n 8)) [
        | inl q ↦ rw (some_bits, p, q) fallback
        | inr q ↦ elim (Bool-cases (overlaps o n s d)) [
          | inl r ↦ rw (some_bits, p, q, r) fallback
          | inr r ↦
              rw (some_bits, p, q, r)
                (copy_fast-Copied o n s d m (ltb→le n 8 q) (Separate-of_no_overlap o n s d m r f) f)
        ]
      ]
    ]
