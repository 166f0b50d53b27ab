-- ===== src/BitCopy/Aligned.antt =====
-- The paths of `bitcpy` that move whole bytes.
use copy_space.Base.{ℕ, zero, suc, ◌+◌, ◌-◌, ◌*◌, ◌/◌, ◌%◌, ◌<◌, ◌≤◌, ◌≡◌, refl, sym, ap, ◌∙◌}
use copy_space.Base.{some, arith, length, ◌>>=◌, bit_and, bit_or}
use copy_space.Base.{get_elem?}
use copy_space.Memory.{Bytes, u8, not8, put, byte_at, load-eq, store-eq}
use copy_space.BitCopy.{Origin, source, merge_head, head_bits, keep_lo}
use copy_space.BitCopy.{copy_aligned, copy_same_offset}
use copy_space.BitCopy.Masks.{hi_mask, lo_mask, keep_hi-eq, keep_lo-eq, merge_lo}
use copy_space.BitCopy.Spec.{
  Returns, Returns-bind, Copied, Separate, Fits, Fits-sub, Copied-at, Separate-part, Separate-at,
  Separate-sum, Copied-append,
}
use copy_space.BitCopy.Pieces.{move_whole-Copied, merge_tail-Copied, put-Copied, bit_of_byte}

abbrev head_byte : ℕ → ℕ → ℕ → ℕ
head_byte a x y =
    bit_or (bit_and x (u8 (bit_or (hi_mask a) 0)))
      (bit_and (u8 (bit_and y (lo_mask a))) (not8 (u8 (bit_or (hi_mask a) 0))))

last_mask : (a : ℕ) → a < 8 → get_elem? keep_lo (a + (8 - a)) ≡ some 0
last_mask a h = let e : a + (8 - a) ≡ 8 = omega arith in ap (λ t. get_elem? keep_lo t) e

merge_head-eq :
    (o : Origin) (a s d : ℕ) (m : Bytes)
    → a < 8
    → s < length (source o m)
    → d < length m
    → merge_head o a (8 - a) s d m
      ≡ some (put m d (head_byte a (byte_at m d) (byte_at (source o m) s)))
unfolding merge_head
merge_head-eq o a s d m h p q = rw (
  keep_lo-eq a (omega arith),
  load-eq (source o m) s p,
  keep_hi-eq a (omega arith),
  last_mask a h,
  load-eq m d q,
  store-eq m d (head_byte a (byte_at m d) (byte_at (source o m) s)) q,
)

merge_head-Copied :
    (o : Origin) (a s d : ℕ) (m : Bytes)
    → a < 8
    → Fits o (8 - a) (8 * s + a) (8 * d + a) m
    → Returns (merge_head o a (8 - a) s d m) (Copied o (8 - a) (8 * s + a) (8 * d + a) m)
merge_head-Copied o a s d m h f =
    let x = byte_at m d in
    let y = byte_at (source o m) s in
    let d_fits : d < length m = omega (arith, f) in
    let s_fits : s < length (source o m) = omega (arith, f) in
    (
      put m d (head_byte a x y),
      merge_head-eq o a s d m h s_fits d_fits,
      put-Copied o (8 - a) (8 * s + a) a d m (head_byte a x y) d_fits (omega arith)
          (λ j p.
            ground (arith, merge_lo x y a (a + j) h (omega arith))
            ∙ bit_of_byte (source o m) s (a + j) (8 * s + a + j) (omega arith) (omega arith))
          λ i p out. ground (arith, merge_lo x y a i h p),
    )

pub copy_aligned-Copied :
    (o : Origin) (n s d : ℕ) (m : Bytes)
    → Separate o n (8 * s) (8 * d)
    → Fits o n (8 * s) (8 * d) m
    → Returns (copy_aligned o n s d m) (Copied o n (8 * s) (8 * d) m)
unfolding copy_aligned
copy_aligned-Copied o n s d m sep f =
    let w = n / 8 in
    let t = n % 8 in
    Returns-bind (Copied o (8 * w) (8 * s) (8 * d) m) (Copied o n (8 * s) (8 * d) m)
      (move_whole-Copied o w s d m (
        Fits-sub o n (8 * s) (8 * d) (8 * w) (8 * s) (8 * d) m m refl f (omega arith)
          (omega arith)))
      λ m' c.
        let (m'', e, r) = merge_tail-Copied o t (s + w) (d + w) m' (omega arith) (
          Fits-sub o n (8 * s) (8 * d) t (8 * (s + w)) (8 * (d + w)) m m' c.same_length f
            (omega arith) (omega arith)) in
        (m'', e, together o n s d m m' m'' sep c r)
  where
    together :
        (o : Origin) (n s d : ℕ) (m m' m'' : Bytes)
        → Separate o n (8 * s) (8 * d)
        → Copied o (8 * (n / 8)) (8 * s) (8 * d) m m'
        → Copied o (n % 8) (8 * (s + n / 8)) (8 * (d + n / 8)) m' m''
        → Copied o n (8 * s) (8 * d) m m''
    together o n s d m m' m'' sep c r =
        Copied-at o (8 * (n / 8) + n % 8) (8 * s) (8 * d) n (8 * s) (8 * d) (omega arith) refl refl
          (Copied-append o (8 * (n / 8)) (n % 8) (8 * s) (8 * d)
            (Separate-sum o n (8 * (n / 8) + n % 8) (8 * s) (8 * d) (omega arith) sep) c
            (Copied-at o (n % 8) (8 * (s + n / 8)) (8 * (d + n / 8)) (n % 8) (8 * s + 8 * (n / 8))
              (8 * d + 8 * (n / 8)) refl (omega arith) (omega arith) r))

pub head_bits-eq : (a n : ℕ) → 8 ≤ n → head_bits a n ≡ 8 - a
head_bits-eq a n h = ground arith

-- A first part of `h` bits and the rest make one copy.
pub Copied-split :
    (o : Origin) (n h s d s' d' : ℕ) (m m' m'' : Bytes)
    → h ≤ n
    → s' ≡ s + h
    → d' ≡ d + h
    → Separate o n s d
    → Copied o h s d m m'
    → Copied o (n - h) s' d' m' m''
    → Copied o n s d m m''
Copied-split o n h s d s' d' m m' m'' p e f sep c r =
    Copied-at o (h + (n - h)) s d n s d (omega arith) refl refl (
      Copied-append o h (n - h) s d (Separate-sum o n (h + (n - h)) s d (omega arith) sep) c
        (Copied-at o (n - h) s' d' (n - h) (s + h) (d + h) refl (sym e) (sym f) r))

same_offset-eq :
    (o : Origin) (n a s d : ℕ) (m : Bytes)
    → 8 ≤ n
    → copy_same_offset o n (suc a) s d m ≡ (
        merge_head o (suc a) (8 - suc a) s d m >>= λ m'.
        copy_aligned o (n - (8 - suc a)) (s + 1) (d + 1) m')
unfolding copy_same_offset
same_offset-eq o n a s d m h = rw (head_bits-eq (suc a) n h) (ground arith)

pub copy_same_offset-Copied :
    (o : Origin) (n a s d : ℕ) (m : Bytes)
    → 8 ≤ n
    → a < 8
    → Separate o n (8 * s + a) (8 * d + a)
    → Fits o n (8 * s + a) (8 * d + a) m
    → Returns (copy_same_offset o n a s d m) (Copied o n (8 * s + a) (8 * d + a) m)
unfolding copy_same_offset
copy_same_offset-Copied o n zero s d m p h sep f =
    let (m', e, c) =
      copy_aligned-Copied o n s d m
        (Separate-at o n (8 * s + 0) (8 * d + 0) (8 * s) (8 * d) (omega arith) (omega arith) sep)
        (Fits-sub o n (8 * s + 0) (8 * d + 0) n (8 * s) (8 * d) m m refl f (omega arith)
          (omega arith)) in
    (
      m',
      e,
      Copied-at o n (8 * s) (8 * d) n (8 * s + 0) (8 * d + 0) refl (omega arith) (omega arith) c,
    )
copy_same_offset-Copied o n (suc k) s d m p h sep f =
    let a = suc k in
    let (m', e, c) = merge_head-Copied o a s d m h (
      Fits-sub o n (8 * s + a) (8 * d + a) (8 - a) (8 * s + a) (8 * d + a) m m refl f (omega arith)
        (omega arith)) in
    let (m'', e', r) =
      copy_aligned-Copied o (n - (8 - a)) (s + 1) (d + 1) m'
        (Separate-at o (n - (8 - a)) (8 * s + a + (8 - a)) (8 * d + a + (8 - a)) (8 * (s + 1))
          (8 * (d + 1)) (omega arith) (omega arith)
          (Separate-part o n (8 * s + a) (8 * d + a) (8 - a) (n - (8 - a)) sep (omega arith)))
        (Fits-sub o n (8 * s + a) (8 * d + a) (n - (8 - a)) (8 * (s + 1)) (8 * (d + 1)) m m'
          c.same_length f (omega arith) (omega arith)) in
    (
      m'',
      same_offset-eq o n k s d m p
          ∙ ap (λ t. t >>= copy_aligned o (n - (8 - a)) (s + 1) (d + 1)) e
          ∙ e',
      Copied-split o n (8 - a) (8 * s + a) (8 * d + a) (8 * (s + 1)) (8 * (d + 1)) m m' m''
          (omega arith) (omega arith) (omega arith) sep c r,
    )
