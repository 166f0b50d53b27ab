-- ===== src/BitCopy/Fallback.antt =====
-- The bit-by-bit loops of `bitcpy_overlap_fallback`, which also serve ranges that overlap.
use copy_space.Base.{
  ℕ, zero, suc, ◌+◌, ◌-◌, ◌*◌, ◌/◌, ◌%◌, ◌<◌, ◌≤◌, ◌≡◌, ◌≢◌, refl, sym, ap, ◌∙◌, inl, inr,
}
use copy_space.Base.{some, arith, length, testbit, ◌==◌, bit_and, bit_or}
use copy_space.Base.{ltb, ltb→lt, ltb→le, Bool-cases, bit_and_one-shr, testbit-le-one}
use copy_space.Memory.{Bytes, not8, size_add, put, byte_at, load-eq, store-eq, length-put}
use copy_space.Memory.Bits.{bit_at, bit_same, bit_at-put_self, bit_at-put_ne}
use copy_space.BitCopy.{
  Origin, same, apart, source, bit_get_ptr, bit_set_ptr, move_bit, move_up, move_down,
  overlap_fallback,
}
use copy_space.BitCopy.Masks.{bit_mask, set_digit, clear_digit}
use copy_space.BitCopy.Spec.{Returns, Returns-bind, Copied, Fits, Copied-none, Fits-sub, Copied-at}

pub bit_get_ptr-eq : (m : Bytes) (p : ℕ) → p < 8 * length m → bit_get_ptr m p ≡ some (bit_at m p)
unfolding bit_get_ptr
bit_get_ptr-eq m p h =
    rw (load-eq m (p / 8) (omega arith), bit_and_one-shr (byte_at m (p / 8)) (7 - p % 8))

bit-le-one : (m : Bytes) (p : ℕ) → bit_at m p ≤ 1
bit-le-one m p = testbit-le-one (byte_at m (p / 8)) (7 - p % 8)

-- The effect of writing one bit.
pub record BitSet (p v : ℕ) (m m' : Bytes) : Type 0 where
  pub same_length : length m' ≡ length m
  pub at : bit_at m' p ≡ v
  pub elsewhere : (q : ℕ) → q ≢ p → bit_at m' q ≡ bit_at m q

-- Bits `p` and `q` of one byte have digits that differ.
digit-ne : (p q : ℕ) → q ≢ p → q / 8 ≡ p / 8 → 7 - p % 8 ≢ 7 - q % 8
digit-ne p q h e = omega arith

pub put-BitSet :
    (m : Bytes) (p v w : ℕ)
    → p / 8 < length m
    → testbit w (7 - p % 8) ≡ v
    → ((k : ℕ) → k < 8 → 7 - p % 8 ≢ k → testbit w k ≡ testbit (byte_at m (p / 8)) k)
    → BitSet p v m (put m (p / 8) w)
put-BitSet m p v w h here there = record {
  same_length = length-put m (p / 8) w;
  at = bit_at-put_self m (p / 8) w p h refl ∙ here;
  elsewhere = λ q ne. elim (Bool-cases (q / 8 == p / 8)) [
    | inl e ↦
        let e' : q / 8 ≡ p / 8 = ground arith in
        bit_at-put_self m (p / 8) w q h e'
        ∙ there (7 - q % 8) (omega arith) (digit-ne p q ne e')
        ∙ ap (λ t. testbit (byte_at m t) (7 - q % 8)) (sym e')
    | inr e ↦ bit_at-put_ne m (p / 8) w q (ground arith)
  ];
}

pub bit_set_ptr-BitSet :
    (m : Bytes) (p v : ℕ) → v ≤ 1 → p < 8 * length m → Returns (bit_set_ptr m p v) (BitSet p v m)
unfolding bit_set_ptr
bit_set_ptr-BitSet m p zero one h =
    let b = byte_at m (p / 8) in
    let w = bit_and b (not8 (bit_mask (7 - p % 8))) in
    let fits : p / 8 < length m = omega arith in
    (
      put m (p / 8) w,
      rw (load-eq m (p / 8) fits, store-eq m (p / 8) w fits),
      put-BitSet m p 0 w fits (ground (arith, clear_digit b (7 - p % 8) (7 - p % 8)))
          λ k below ne. ground (arith, clear_digit b (7 - p % 8) k),
    )
bit_set_ptr-BitSet m p (suc v) one h =
    let b = byte_at m (p / 8) in
    let w = bit_or b (bit_mask (7 - p % 8)) in
    let fits : p / 8 < length m = omega arith in
    (
      put m (p / 8) w,
      ground (arith, load-eq m (p / 8) fits, store-eq m (p / 8) w fits),
      put-BitSet m p (suc v) w fits (ground (arith, set_digit b (7 - p % 8) (7 - p % 8)))
          λ k below ne. ground (arith, set_digit b (7 - p % 8) k),
    )

move_bit-eq :
    (o : Origin) (s d i : ℕ) (m : Bytes)
    → Fits o 1 (s + i) (d + i) m
    → move_bit o s d i m ≡ bit_set_ptr m (d + i) (bit_at (source o m) (s + i))
unfolding move_bit
move_bit-eq o s d i m f =
    let s_fits : size_add s i ≡ s + i = omega (arith, f) in
    let d_fits : size_add d i ≡ d + i = omega (arith, f) in
    rw (s_fits, d_fits, bit_get_ptr-eq (source o m) (s + i) (omega (arith, f)))

pub move_bit-Copied :
    (o : Origin) (s d i : ℕ) (m : Bytes)
    → Fits o 1 (s + i) (d + i) m
    → Returns (move_bit o s d i m) (Copied o 1 (s + i) (d + i) m)
move_bit-Copied o s d i m f =
    let v = bit_at (source o m) (s + i) in
    let (m', e, w) =
      bit_set_ptr-BitSet m (d + i) v (bit-le-one (source o m) (s + i)) (omega (arith, f)) in
    (
      m',
      move_bit-eq o s d i m f ∙ e,
      record {
        same_length = w.same_length;
        inside = λ j h.
            let zero_only : j ≡ 0 = omega arith in
            bit_same m' {p = d + i + j} {q = d + i} (omega arith)
            ∙ w.at
            ∙ bit_same (source o m) {p = s + i} {q = s + i + j} (omega arith);
        outside_low = λ p h. w.elsewhere p (omega arith);
        outside_high = λ p h. w.elsewhere p (omega arith);
      },
    )

-- A loop upwards never reads what it has written.
abbrev Ahead : Origin → ℕ → ℕ → Type 0
Ahead same s d = d ≤ s
Ahead (apart src) s d = Unit {0}

Ahead-source :
    (o : Origin) (s d i q : ℕ) (m m' : Bytes)
    → Ahead o s d
    → Copied o 1 (s + i) (d + i) m m'
    → s + i < q
    → bit_at (source o m') q ≡ bit_at (source o m) q
Ahead-source same s d i q m m' h c p = c.outside_high q (omega arith)
Ahead-source (apart src) s d i q m m' h c p = refl

up_step :
    (o : Origin) (s d i left : ℕ) (m m' m'' : Bytes)
    → Ahead o s d
    → Copied o 1 (s + i) (d + i) m m'
    → Copied o left (s + (i + 1)) (d + (i + 1)) m' m''
    → Copied o (suc left) (s + i) (d + i) m m''
up_step o s d i left m m' m'' h first rest = record {
  same_length = rest.same_length ∙ first.same_length;
  inside = elim [
    | zero ↦ λ p. rest.outside_low (d + i + 0) (omega arith) ∙ first.inside 0 (omega arith)
    | suc j ↦ λ p.
        bit_same m'' {p = d + i + suc j} {q = d + (i + 1) + j} (omega arith)
        ∙ rest.inside j (omega arith)
        ∙ bit_same (source o m') {p = s + (i + 1) + j} {q = s + i + suc j} (omega arith)
        ∙ Ahead-source o s d i (s + i + suc j) m m' h first (omega arith)
  ];
  outside_low = λ p h. rest.outside_low p (omega arith) ∙ first.outside_low p (omega arith);
  outside_high = λ p h. rest.outside_high p (omega arith) ∙ first.outside_high p (omega arith);
}

pub move_up-Copied :
    (o : Origin) (s d left i : ℕ) (m : Bytes)
    → Ahead o s d
    → Fits o left (s + i) (d + i) m
    → Returns (move_up o s d left i m) (Copied o left (s + i) (d + i) m)
unfolding move_up
move_up-Copied o s d zero i m h f = (m, refl, Copied-none o (s + i) (d + i) m)
move_up-Copied o s d (suc left) i m h f =
    Returns-bind (Copied o 1 (s + i) (d + i) m) (Copied o (suc left) (s + i) (d + i) m)
      (move_bit-Copied o s d i m (
        Fits-sub o (suc left) (s + i) (d + i) 1 (s + i) (d + i) m m refl f (omega arith)
          (omega arith)))
      λ m' c.
        let (m'', e, r) = move_up-Copied o s d left (i + 1) m' h (
          Fits-sub o (suc left) (s + i) (d + i) left (s + (i + 1)) (d + (i + 1)) m m' c.same_length
            f (omega arith) (omega arith)) in
        (m'', e, up_step o s d i left m m' m'' h c r)

-- A loop downwards never reads what it has written.
abbrev Behind : Origin → ℕ → ℕ → Type 0
Behind same s d = s ≤ d
Behind (apart src) s d = Unit {0}

Behind-source :
    (o : Origin) (s d i q : ℕ) (m m' : Bytes)
    → Behind o s d
    → Copied o 1 (s + i) (d + i) m m'
    → q < s + i
    → bit_at (source o m') q ≡ bit_at (source o m) q
Behind-source same s d i q m m' h c p = c.outside_low q (omega arith)
Behind-source (apart src) s d i q m m' h c p = refl

down_step :
    (o : Origin) (s d i : ℕ) (m m' m'' : Bytes)
    → Behind o s d
    → Copied o 1 (s + i) (d + i) m m'
    → Copied o i s d m' m''
    → Copied o (suc i) s d m m''
down_step o s d i m m' m'' h first rest = record {
  same_length = rest.same_length ∙ first.same_length;
  inside = λ j p. elim (Bool-cases (ltb j i)) [
    | inl q ↦
        rest.inside j (ltb→lt j i q)
        ∙ Behind-source o s d i (s + j) m m' h first (omega (arith, ltb→lt j i q))
    | inr q ↦
        let last : j ≡ i = omega (arith, ltb→le j i q) in
        rest.outside_high (d + j) (omega arith)
        ∙ bit_same m' {p = d + j} {q = d + i + 0} (omega arith)
        ∙ first.inside 0 (omega arith)
        ∙ bit_same (source o m) {p = s + i + 0} {q = s + j} (omega arith)
  ];
  outside_low = λ p h. rest.outside_low p (omega arith) ∙ first.outside_low p (omega arith);
  outside_high = λ p h. rest.outside_high p (omega arith) ∙ first.outside_high p (omega arith);
}

pub move_down-Copied :
    (o : Origin) (s d i : ℕ) (m : Bytes)
    → Behind o s d
    → Fits o i s d m
    → Returns (move_down o s d i m) (Copied o i s d m)
unfolding move_down
move_down-Copied o s d zero m h f = (m, refl, Copied-none o s d m)
move_down-Copied o s d (suc i) m h f =
    Returns-bind (Copied o 1 (s + i) (d + i) m) (Copied o (suc i) s d m)
      (move_bit-Copied o s d i m
        (Fits-sub o (suc i) s d 1 (s + i) (d + i) m m refl f (omega arith) (omega arith)))
      λ m' c.
        let (m'', e, r) =
          move_down-Copied o s d i m' h
            (Fits-sub o (suc i) s d i s d m m' c.same_length f (omega arith) (omega arith)) in
        (m'', e, down_step o s d i m m' m'' h c r)

Ahead-of_lt : (o : Origin) (s d : ℕ) → d < s → Ahead o s d
Ahead-of_lt same s d h = omega arith
Ahead-of_lt (apart src) s d h = tt

Behind-of_le : (o : Origin) (s d : ℕ) → s ≤ d → Behind o s d
Behind-of_le same s d h = h
Behind-of_le (apart src) s d h = tt

-- The direction is chosen so that the copy is right also where the ranges overlap.
pub overlap_fallback-Copied :
    (o : Origin) (n s d : ℕ) (m : Bytes)
    → Fits o n s d m
    → Returns (overlap_fallback o n s d m) (Copied o n s d m)
unfolding overlap_fallback
overlap_fallback-Copied o n s d m f = elim (Bool-cases (ltb d s)) [
  | inl p ↦
      let f' = Fits-sub o n s d n (s + 0) (d + 0) m m refl f (omega arith) (omega arith) in
      let (m', e, c) = move_up-Copied o s d n 0 m (Ahead-of_lt o s d (ltb→lt d s p)) f' in
      rw p (m', e, Copied-at o n (s + 0) (d + 0) n s d refl (omega arith) (omega arith) c)
  | inr p ↦ rw p (move_down-Copied o s d n m (Behind-of_le o s d (ltb→le d s p)) f)
]
