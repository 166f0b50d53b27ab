-- ===== src/BitCopy/Shifted.antt =====
-- The path of `bitcpy` for two different bit offsets.
use copy_space.Base.{ℕ, zero, suc, ◌+◌, ◌-◌, ◌*◌, ◌/◌, ◌%◌, ◌≤◌, ◌≡◌, ◌≢◌, refl, ap, ◌∙◌, inl, inr}
use copy_space.Base.{some, true, arith, ◌>>=◌, if◌then◌else◌, ◌==◌}
use copy_space.Base.{Bool-cases}
use copy_space.Memory.{Bytes, size_add}
use copy_space.BitCopy.{Origin}
use copy_space.BitCopy.{copy_shifted_body, copy_shifted, overlap_fallback}
use copy_space.BitCopy.Spec.{
  Returns, Returns-bind, Copied, Separate, Fits, Copied-none, Fits-sub, Copied-at, Separate-part,
  Separate-at,
}
use copy_space.BitCopy.Fallback.{overlap_fallback-Copied}
use copy_space.BitCopy.Window.{move_window-Copied}
use copy_space.BitCopy.Aligned.{head_bits-eq, Copied-split}

-- The last bits after the window loop, whether there are any or not.
shifted_tail :
    (o : Origin) (t s d s' d' : ℕ) (m : Bytes)
    → s ≡ s'
    → d ≡ d'
    → Fits o t s' d' m
    → Returns (if t == 0 then some m else overlap_fallback o t s d m) (Copied o t s' d' m)
shifted_tail o zero s d s' d' m e g f = (m, refl, Copied-none o s' d' m)
shifted_tail o (suc t) s d s' d' m e g f =
    let (m', r, c) = overlap_fallback-Copied o (suc t) s' d' m f in
    (m', tail_taken o t s d s' d' m e g ∙ r, c)
  where
    tail_taken :
        (o : Origin) (t s d s' d' : ℕ) (m : Bytes)
        → s ≡ s'
        → d ≡ d'
        → (if suc t == 0 then some m else overlap_fallback o (suc t) s d m)
          ≡ overlap_fallback o (suc t) s' d' m
    tail_taken o t s d s' d' m e g = rw (e, g) (ground arith)

copy_shifted_body-Copied :
    (o : Origin) (n s d : ℕ) (m : Bytes)
    → d % 8 ≡ 0
    → Separate o n s d
    → Fits o n s d m
    → Returns (copy_shifted_body o n s d m) (Copied o n s d m)
unfolding copy_shifted_body
copy_shifted_body-Copied o n s d m z sep f =
    let w = 8 * (n / 8) in
    Returns-bind (Copied o w (8 * (s / 8) + s % 8) (8 * (d / 8)) m) (Copied o n s d m)
      (move_window-Copied o (s % 8) (n / 8) (s / 8) (d / 8) m (omega arith)
        (Separate-at o w s d (8 * (s / 8) + s % 8) (8 * (d / 8)) (omega arith) (omega arith) (
          Separate-at o w (s + 0) (d + 0) s d (omega arith) (omega arith)
            (Separate-part o n s d 0 w sep (omega arith))))
        (Fits-sub o n s d w (8 * (s / 8) + s % 8) (8 * (d / 8)) m m refl f (omega arith)
          (omega arith)))
      λ m' c.
        let (m'', e, r) =
          shifted_tail o (n % 8) (size_add s w) (size_add d w) (s + w) (d + w) m' (omega arith)
            (omega arith)
            (Fits-sub o n s d (n % 8) (s + w) (d + w) m m' c.same_length f (omega arith)
              (omega arith)) in
        (m'', e, finish o n s d m m' m'' z sep c r)
  where
    finish :
        (o : Origin) (n s d : ℕ) (m m' m'' : Bytes)
        → d % 8 ≡ 0
        → Separate o n s d
        → Copied o (8 * (n / 8)) (8 * (s / 8) + s % 8) (8 * (d / 8)) m m'
        → Copied o (n % 8) (s + 8 * (n / 8)) (d + 8 * (n / 8)) m' m''
        → Copied o n s d m m''
    finish o n s d m m' m'' z sep c r =
        Copied-split o n (8 * (n / 8)) s d (s + 8 * (n / 8)) (d + 8 * (n / 8)) m m' m''
          (omega arith) refl refl sep
          (Copied-at o (8 * (n / 8)) (8 * (s / 8) + s % 8) (8 * (d / 8)) (8 * (n / 8)) s d refl
            (omega arith) (omega arith) c)
          (Copied-at o (n % 8) (s + 8 * (n / 8)) (d + 8 * (n / 8)) (n - 8 * (n / 8))
            (s + 8 * (n / 8)) (d + 8 * (n / 8)) (omega arith) refl refl r)

shifted-eq :
    (o : Origin) (n s d h : ℕ) (m : Bytes)
    → 8 ≤ n
    → d % 8 ≢ 0
    → h ≡ 8 - d % 8
    → size_add s h ≡ s + h
    → size_add d h ≡ d + h
    → copy_shifted o n s d m
      ≡ (overlap_fallback o h s d m >>= λ m'. copy_shifted_body o (n - h) (s + h) (d + h) m')
unfolding copy_shifted
shifted-eq o n s d h m p nz e f g = rw (head_bits-eq (d % 8) n p, ← e, f, g) (ground arith)

pub copy_shifted-Copied :
    (o : Origin) (n s d : ℕ) (m : Bytes)
    → 8 ≤ n
    → Separate o n s d
    → Fits o n s d m
    → Returns (copy_shifted o n s d m) (Copied o n s d m)
copy_shifted-Copied o n s d m p sep f = elim (Bool-cases (d % 8 == 0)) [
  | inl z ↦
      let (m', e, c) = copy_shifted_body-Copied o n s d m (ground arith) sep f in
      (m', aligned z ∙ e, c)
  | inr nz ↦
      let h = 8 - d % 8 in
      let (m', e, c) =
        overlap_fallback-Copied o h s d m
          (Fits-sub o n s d h s d m m refl f (omega arith) (omega arith)) in
      let f' =
        Fits-sub o n s d (n - h) (s + h) (d + h) m m' c.same_length f (omega arith) (omega arith) in
      let (m'', e', r) =
        copy_shifted_body-Copied o (n - h) (s + h) (d + h) m' (omega arith)
          (Separate-part o n s d h (n - h) sep (omega arith)) f' in
      (
        m'',
        shifted-eq o n s d h m p (ground arith) refl (omega (arith, f)) (omega (arith, f))
            ∙ ap (λ t. t >>= copy_shifted_body o (n - h) (s + h) (d + h)) e
            ∙ e',
        Copied-split o n h s d (s + h) (d + h) m m' m'' (omega arith) refl refl sep c r,
      )
]
  where
    aligned : (d % 8 == 0) ≡ true → copy_shifted o n s d m ≡ copy_shifted_body o n s d m
    aligned z = unfold copy_shifted in rw z
