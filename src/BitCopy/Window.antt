-- ===== src/BitCopy/Window.antt =====
-- The byte window of the path for two different bit offsets.
use copy_space.Base.{ℕ, zero, suc, ◌+◌, ◌-◌, ◌*◌, ◌<◌, ◌≤◌, ◌≡◌, refl, ap, ◌∙◌, inl, inr}
use copy_space.Base.{some, arith, length, testbit, testbit_at, if◌then◌else◌, ◌==◌, bit_or}
use copy_space.Base.{ltb, ltb→lt, ltb→le, Bool-cases}
use copy_space.Memory.{Bytes, u8, shl, shr, put, byte_at, load-eq, store-eq}
use copy_space.Memory.Bits.{bit_at}
use copy_space.BitCopy.{Origin, source, window_byte, move_window}
use copy_space.BitCopy.Masks.{window_digit, shl_digit}
use copy_space.BitCopy.Spec.{
  Returns, Copied, Separate, Fits, Copied-none, Fits-sub, Copied-at, Separate-part, Separate-at,
  Separate-sum, Copied-append,
}
use copy_space.BitCopy.Pieces.{put-Copied, bit_of_byte}

window_byte-eq :
    (m : Bytes) (s a : ℕ)
    → a < 8
    → 8 * s + a + 8 ≤ 8 * length m
    → window_byte m s a
      ≡ some (
          if a == 0
          then u8 (shl (byte_at m s) a)
          else u8 (bit_or (u8 (shl (byte_at m s) a)) (u8 (shr (byte_at m (s + 1)) (8 - a)))))
unfolding window_byte
window_byte-eq m s zero h f = ground (arith, load-eq m s (omega arith))
window_byte-eq m s (suc a) h f =
    ground (arith, load-eq m s (omega arith), load-eq m (s + 1) (omega arith))

-- Each digit of the window byte is the bit that it is to carry.
window_covers :
    (m : Bytes) (s a j : ℕ)
    → a < 8
    → 8 * s + a + 8 ≤ 8 * length m
    → j < 8
    → testbit
        (if a == 0
          then u8 (shl (byte_at m s) a)
          else u8 (bit_or (u8 (shl (byte_at m s) a)) (u8 (shr (byte_at m (s + 1)) (8 - a)))))
        (7 - j)
      ≡ bit_at m (8 * s + a + j)
window_covers m s zero j h f p =
    ground (arith, shl_digit (byte_at m s) 0 j h p)
    ∙ testbit_at (byte_at m s) (7 - (j + 0)) (7 - j) (omega arith)
    ∙ bit_of_byte m s j (8 * s + 0 + j) p (omega arith)
window_covers m s (suc a) j h f p =
    let k = suc a in
    let x = byte_at m s in
    let y = byte_at m (s + 1) in
    elim (Bool-cases (ltb (j + k) 8)) [
      | inl low ↦
          let low' = ltb→lt (j + k) 8 low in
          ground (arith, window_digit x y k j (omega arith) h (omega arith) p)
          ∙ bit_of_byte m s (j + k) (8 * s + k + j) low' (omega arith)
      | inr high ↦
          let high' = ltb→le (j + k) 8 high in
          ground (arith, window_digit x y k j (omega arith) h (omega arith) p)
          ∙ bit_of_byte m (s + 1) (j + k - 8) (8 * s + k + j) (omega arith) (omega arith)
    ]

window_round :
    (o : Origin) (a n s d : ℕ) (m : Bytes) (c : ℕ)
    → a < 8
    → 8 * s + a + 8 ≤ 8 * length (source o m)
    → d < length m
    → c ≡ (
        if a == 0
        then u8 (shl (byte_at (source o m) s) a)
        else u8 (
            bit_or
              (u8 (shl (byte_at (source o m) s) a))
              (u8 (shr (byte_at (source o m) (s + 1)) (8 - a)))))
    → move_window o a (suc n) s d m ≡ move_window o a n (s + 1) (d + 1) (put m d c)
unfolding move_window
window_round o a n s d m c h p q e = rw (window_byte-eq (source o m) s a h p, ← e, store-eq m d c q)

window_step :
    (o : Origin) (a n s d : ℕ) (m m' m'' : Bytes)
    → Separate o (8 * suc n) (8 * s + a) (8 * d)
    → Copied o 8 (8 * s + a) (8 * d) m m'
    → Copied o (8 * n) (8 * (s + 1) + a) (8 * (d + 1)) m' m''
    → Copied o (8 * suc n) (8 * s + a) (8 * d) m m''
window_step o a n s d m m' m'' sep first rest =
    Copied-at o (8 + 8 * n) (8 * s + a) (8 * d) (8 * suc n) (8 * s + a) (8 * d) (omega arith) refl
      refl
      (Copied-append o 8 (8 * n) (8 * s + a) (8 * d)
        (Separate-sum o (8 * suc n) (8 + 8 * n) (8 * s + a) (8 * d) (omega arith) sep) first
        (Copied-at o (8 * n) (8 * (s + 1) + a) (8 * (d + 1)) (8 * n) (8 * s + a + 8) (8 * d + 8)
          refl (omega arith) (omega arith) rest))

window_first :
    (o : Origin) (a s d : ℕ) (m : Bytes) (c : ℕ)
    → a < 8
    → 8 * s + a + 8 ≤ 8 * length (source o m)
    → d < length m
    → c ≡ (
        if a == 0
        then u8 (shl (byte_at (source o m) s) a)
        else u8 (
            bit_or
              (u8 (shl (byte_at (source o m) s) a))
              (u8 (shr (byte_at (source o m) (s + 1)) (8 - a)))))
    → Copied o 8 (8 * s + a) (8 * d) m (put m d c)
window_first o a s d m c h p q e =
    Copied-at o 8 (8 * s + a) (8 * d + 0) 8 (8 * s + a) (8 * d) refl refl (omega arith) (
      put-Copied o 8 (8 * s + a) 0 d m c q (omega arith)
        (λ j below.
          testbit_at c (7 - (0 + j)) (7 - j) (omega arith)
          ∙ ap (λ t. testbit t (7 - j)) e
          ∙ window_covers (source o m) s a j h p below)
        (λ i below out. absurd (omega arith)))

-- The `while` loop over whole bytes of the destination.
pub move_window-Copied :
    (o : Origin) (a n s d : ℕ) (m : Bytes)
    → a < 8
    → Separate o (8 * n) (8 * s + a) (8 * d)
    → Fits o (8 * n) (8 * s + a) (8 * d) m
    → Returns (move_window o a n s d m) (Copied o (8 * n) (8 * s + a) (8 * d) m)
unfolding move_window
move_window-Copied o a zero s d m h sep f = (m, refl, Copied-none o (8 * s + a) (8 * d) m)
move_window-Copied o a (suc n) s d m h sep f =
    let src = source o m in
    let c : ℕ =
      if a == 0
      then u8 (shl (byte_at src s) a)
      else u8 (bit_or (u8 (shl (byte_at src s) a)) (u8 (shr (byte_at src (s + 1)) (8 - a)))) in
    let m' = put m d c in
    let d_fits : d < length m = omega (arith, f) in
    let s_fits : 8 * s + a + 8 ≤ 8 * length src = omega (arith, f) in
    let first = window_first o a s d m c h s_fits d_fits refl in
    let sep' = Separate-part o (8 * suc n) (8 * s + a) (8 * d) 8 (8 * n) sep (omega arith) in
    let (m'', e, rest) =
      move_window-Copied o a n (s + 1) (d + 1) m' h
        (Separate-at o (8 * n) (8 * s + a + 8) (8 * d + 8) (8 * (s + 1) + a) (8 * (d + 1))
          (omega arith) (omega arith) sep')
        (Fits-sub o (8 * suc n) (8 * s + a) (8 * d) (8 * n) (8 * (s + 1) + a) (8 * (d + 1)) m m'
          first.same_length f (omega arith) (omega arith)) in
    (
      m'',
      window_round o a n s d m c h s_fits d_fits refl ∙ e,
      window_step o a n s d m m' m'' sep first rest,
    )
