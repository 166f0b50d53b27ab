-- ===== src/BitCopy/Pieces.antt =====
-- The pieces of the fast paths: whole bytes, and the first and the last byte.
use copy_space.Base.{
  ℕ, zero, suc, ◌+◌, ◌-◌, ◌*◌, ◌/◌, ◌%◌, ◌<◌, ◌≤◌, ◌≡◌, refl, sym, ap, ◌∙◌, ◌⊎◌, inl, inr,
}
use copy_space.Base.{some, arith, length, testbit, testbit_at, ◌==◌, bit_and, bit_or}
use copy_space.Base.{Bool-cases}
use copy_space.Memory.{Bytes, not8, put, byte_at, load-eq, store-eq, length-put, byte_same}
use copy_space.Memory.{memmove, memmove-Moved}
use copy_space.Memory.Bits.{bit_at, bit_at-byte, bit_at-put_self, bit_at-put_ne}
use copy_space.BitCopy.{Origin, source, move_whole, merge_tail}
use copy_space.BitCopy.Masks.{hi_mask, keep_hi-eq, merge_hi}
use copy_space.BitCopy.Spec.{Returns, Copied, Fits, Copied-none, Copied-at}

move_whole-suc :
    (o : Origin) (n s d : ℕ) (m : Bytes)
    → move_whole o (suc n) s d m ≡ memmove (source o m) s m d (suc n)
unfolding move_whole
move_whole-suc o n s d m = ground arith

pub move_whole-Copied :
    (o : Origin) (n s d : ℕ) (m : Bytes)
    → Fits o (8 * n) (8 * s) (8 * d) m
    → Returns (move_whole o n s d m) (Copied o (8 * n) (8 * s) (8 * d) m)
unfolding move_whole
move_whole-Copied o zero s d m f = (m, refl, Copied-none o (8 * s) (8 * d) m)
move_whole-Copied o (suc n) s d m f =
    let k = suc n in
    let r = memmove-Moved (source o m) s m d k (omega (arith, f)) (omega (arith, f)) in
    (
      r.out,
      move_whole-suc o n s d m ∙ r.returns,
      record {
        same_length = r.same_length;
        inside = λ j h.
            bit_at-byte r.out (source o m) (8 * d + j) (8 * s + j)
              (byte_same r.out {i = (8 * d + j) / 8} {j = d + j / 8} (omega arith)
                ∙ r.inside (j / 8) (omega arith)
                ∙ byte_same (source o m) {i = s + j / 8} {j = (8 * s + j) / 8} (omega arith))
              (omega arith);
        outside_low = λ p h. bit_at-byte r.out m p p (r.outside_low (p / 8) (omega arith)) refl;
        outside_high = λ p h. bit_at-byte r.out m p p (r.outside_high (p / 8) (omega arith)) refl;
      },
    )

-- A write to one byte that replaces its bits from `a` on, `n` of them.
pub put-Copied :
    (o : Origin) (n s a b : ℕ) (m : Bytes) (w : ℕ)
    → b < length m
    → a + n ≤ 8
    → ((j : ℕ) → j < n → testbit w (7 - (a + j)) ≡ bit_at (source o m) (s + j))
    → ((i : ℕ) → i < 8 → (i < a) ⊎ (a + n ≤ i) → testbit w (7 - i) ≡ testbit (byte_at m b) (7 - i))
    → Copied o n s (8 * b + a) m (put m b w)
put-Copied o n s a b m w fits small covers keeps = record {
  same_length = length-put m b w;
  inside = λ j h.
      bit_at-put_self m b w (8 * b + a + j) fits (omega arith)
      ∙ testbit_at w (7 - (8 * b + a + j) % 8) (7 - (a + j)) (omega arith)
      ∙ covers j h;
  outside_low = λ p h. elsewhere p (inl h);
  outside_high = λ p h. elsewhere p (inr h);
}
  where
    elsewhere : (p : ℕ) → (p < 8 * b + a) ⊎ (8 * b + a + n ≤ p) → bit_at (put m b w) p ≡ bit_at m p
    elsewhere p h = elim (Bool-cases (p / 8 == b)) [
      | inl e ↦
          let e' : p / 8 ≡ b = ground arith in
          bit_at-put_self m b w p fits e'
          ∙ keeps (p % 8) (omega arith) (omega arith)
          ∙ ap (λ t. testbit (byte_at m t) (7 - p % 8)) (sym e')
      | inr e ↦ bit_at-put_ne m b w p (ground arith)
    ]

-- A bit of byte `b`, by its place in the byte.
pub bit_of_byte :
    (m : Bytes) (b i p : ℕ) → i < 8 → p ≡ 8 * b + i → testbit (byte_at m b) (7 - i) ≡ bit_at m p
bit_of_byte m b i p h e =
    ap (λ t. testbit (byte_at m t) (7 - i)) {x = b} {y = p / 8} (omega arith)
    ∙ testbit_at (byte_at m (p / 8)) (7 - i) (7 - p % 8) (omega arith)

merge_tail-eq :
    (o : Origin) (n s d : ℕ) (m : Bytes)
    → 0 < n
    → n < 8
    → s < length (source o m)
    → d < length m
    → merge_tail o n s d m
      ≡ some (
          put m d (
            bit_or
              (bit_and (byte_at m d) (not8 (hi_mask n)))
              (bit_and (byte_at (source o m) s) (hi_mask n))))
unfolding merge_tail
merge_tail-eq o zero s d m z h p q = absurd (omega arith)
merge_tail-eq o (suc n) s d m z h p q =
    let w =
      bit_or (bit_and (byte_at m d) (not8 (hi_mask (suc n))))
        (bit_and (byte_at (source o m) s) (hi_mask (suc n))) in
    ground (
      arith,
      keep_hi-eq (suc n) (omega arith),
      load-eq m d q,
      load-eq (source o m) s p,
      store-eq m d w q,
    )

pub merge_tail-Copied :
    (o : Origin) (n s d : ℕ) (m : Bytes)
    → n < 8
    → Fits o n (8 * s) (8 * d) m
    → Returns (merge_tail o n s d m) (Copied o n (8 * s) (8 * d) m)
unfolding merge_tail
merge_tail-Copied o zero s d m h f = (m, refl, Copied-none o (8 * s) (8 * d) m)
merge_tail-Copied o (suc n) s d m h f =
    let k = suc n in
    let x = byte_at m d in
    let y = byte_at (source o m) s in
    let w = bit_or (bit_and x (not8 (hi_mask k))) (bit_and y (hi_mask k)) in
    let d_fits : d < length m = omega (arith, f) in
    let s_fits : s < length (source o m) = omega (arith, f) in
    (
      put m d w,
      merge_tail-eq o k s d m (omega arith) h s_fits d_fits,
      Copied-at o k (8 * s) (8 * d + 0) k (8 * s) (8 * d) refl refl (omega arith) (
          put-Copied o k (8 * s) 0 d m w d_fits (omega arith)
            (λ j p.
              ground (
                arith,
                merge_hi x y k j (omega arith) (omega arith),
                testbit_at w (7 - (0 + j)) (7 - j) (omega arith),
              )
              ∙ bit_of_byte (source o m) s j (8 * s + j) (omega arith) (omega arith))
            λ i p out. ground (arith, merge_hi x y k i (omega arith) p)),
    )
