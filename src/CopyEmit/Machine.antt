-- ===== src/CopyEmit/Machine.antt =====
-- Copy code on the abstract machine of Space/Model: slots run one after the other.
use copy_space.Base.{
  ℕ, zero, suc, ◌+◌, ◌-◌, ◌*◌, ◌^◌, ◌<◌, ◌≤◌, ◌≡◌, ◌≢◌, refl, ap, ap₂, ◌∙◌, arith, true, false,
  ◌&&◌, ◌||◌, ltb, leb, ◌==◌, ◌⊎◌, inl, inr, Bool-cases,
}
use mathlib.Core.Path.{subst}
use native.Mathlib.Nat.{pow-suc}
use copy_space.Base.{mul-pow}
use copy_space.Config.{
  Config, n_size, address_size, instruction_size, n_offset, src_offset, processor_start,
}
use copy_space.Space.{Instruction}
use copy_space.Space.Model
use copy_space.Space.Model.{BitSpace, BitRound, number, moved}

abbrev pub Outside : ℕ → ℕ → ℕ → Type 0
Outside a n p = (p < a) ⊎ (a + n ≤ p)

abbrev pub Bits : BitSpace → Type 0
Bits b = (p : ℕ) → b p ≤ 1

pub moved-in :
    (n s d : ℕ) (b : BitSpace) (p : ℕ) → d ≤ p → p < d + n → moved n s d b p ≡ b (s + (p - d))
moved-in n s d b p h k =
    let inside : (leb d p && ltb p (d + n)) ≡ true = ground arith in rw inside refl

pub moved-out : (n s d : ℕ) (b : BitSpace) (p : ℕ) → Outside d n p → moved n s d b p ≡ b p
moved-out n s d b p (inl h) =
    let outside : (leb d p && ltb p (d + n)) ≡ false = ground arith in rw outside refl
moved-out n s d b p (inr h) =
    let outside : (leb d p && ltb p (d + n)) ≡ false = ground arith in rw outside refl

pub moved-Bits : (n s d : ℕ) (b : BitSpace) → Bits b → Bits (moved n s d b)
moved-Bits n s d b h p = elim (Bool-cases (leb d p && ltb p (d + n))) [
  | inl e ↦ rw e (h (s + (p - d)))
  | inr e ↦ rw e (h p)
]

pub same_bit : (b : BitSpace) {p q : ℕ} → p ≡ q → b p ≡ b q
same_bit b e = ap b e

pub number-same :
    (b b' : BitSpace) (p n : ℕ)
    → ((q : ℕ) → p ≤ q → q < p + n → b' q ≡ b q)
    → number b' p n ≡ number b p n
unfolding number
number-same b b' p zero h = refl
number-same b b' p (suc n) h =
    ap₂ (λ x y. x + 2 * y) (h p (omega arith) (omega arith))
      (number-same b b' (p + 1) n λ q k l. h q (omega arith) (omega arith))

-- Digit `i` of a field set anew.
pub number-set :
    (b b' : BitSpace) (p n i : ℕ)
    → i < n
    → ((q : ℕ) → q ≢ p + i → b' q ≡ b q)
    → number b' p n + 2 ^ i * b (p + i) ≡ number b p n + 2 ^ i * b' (p + i)
unfolding number
number-set b b' p zero i h same = absurd (omega arith)
number-set b b' p (suc n) zero h same =
    let rest = number-same b b' (p + 1) n λ q k l. same q (omega arith) in
    omega (
      arith,
      rest,
      same_bit b {p = p + 0} {q = p} (omega arith),
      same_bit b' {p = p + 0} {q = p} (omega arith),
    )
number-set b b' p (suc n) (suc i) h same =
    let rest = number-set b b' (p + 1) n i (omega arith) λ q k. same q (omega arith) in
    let first = same p (omega arith) in
    omega (
      arith,
      rest,
      first,
      pow-suc 2 i,
      ap (λ t. 2 ^ suc i * t) (same_bit b {p = p + suc i} {q = p + 1 + i} (omega arith)),
      ap (λ t. 2 ^ suc i * t) (same_bit b' {p = p + suc i} {q = p + 1 + i} (omega arith)),
      ap (λ t. t * b (p + 1 + i)) (pow-suc 2 i),
      ap (λ t. t * b' (p + 1 + i)) (pow-suc 2 i),
      double (2 ^ i) (b (p + 1 + i)),
      double (2 ^ i) (b' (p + 1 + i)),
    )
  where
    double : (x y : ℕ) → x * 2 * y ≡ 2 * (x * y)
    double x y = grind arith

-- The number of one digit more, at the top.
pub number-snoc : (b : BitSpace) (p n : ℕ) → number b p (suc n) ≡ number b p n + 2 ^ n * b (p + n)
unfolding number
number-snoc b p zero = omega (arith, same_bit b {p = p + 0} {q = p} (omega arith))
number-snoc b p (suc n) =
    let rest = number-snoc b (p + 1) n in
    omega (
      arith,
      rest,
      ap (λ t. 2 ^ suc n * t) (same_bit b {p = p + suc n} {q = p + 1 + n} (omega arith)),
      ap (λ t. t * b (p + 1 + n)) (pow-suc 2 n),
      double (2 ^ n) (b (p + 1 + n)),
    )
  where
    double : (x y : ℕ) → x * 2 * y ≡ 2 * (x * y)
    double x y = grind arith

-- The low digits of a multiple of a power of two.
pub digit-zero :
    (b : BitSpace) (p n k i z : ℕ)
    → Bits b
    → i < k
    → k ≤ n
    → number b p n ≡ z * 2 ^ k
    → b (p + i) ≡ 0
unfolding number
digit-zero b p n zero i z w h l e = absurd (omega arith)
digit-zero b p zero (suc k) i z w h l e = absurd (omega arith)
digit-zero b p (suc n) (suc k) zero z w h l e =
    omega (arith, mul-pow z k, w p, same_bit b {p = p + 0} {q = p} (omega arith))
digit-zero b p (suc n) (suc k) (suc i) z w h l e =
    same_bit b {p = p + suc i} {q = p + 1 + i} (omega arith)
    ∙ digit-zero b (p + 1) n k i z w (omega arith) (omega arith) (omega (arith, mul-pow z k, w p))

-- The row whose three fields start at `at`, with addresses of `a` bits.
pub record RowIn (a : ℕ) (b : BitSpace) (at : ℕ) (r : Instruction) : Type 0 where
  pub n : number b at (a - 1) ≡ r.n
  pub dst : number b (at + (a - 1)) a ≡ r.dst
  pub src : number b (at + (a - 1) + a) a ≡ r.src

pub RowIn-kept :
    (a : ℕ) (b b' : BitSpace) (at : ℕ) (r : Instruction)
    → 1 ≤ a
    → ((q : ℕ) → at ≤ q → q < at + (3 * a - 1) → b' q ≡ b q)
    → RowIn a b at r
    → RowIn a b' at r
RowIn-kept a b b' at r h same w = record {
  n = number-same b b' _ _ (λ q k l. same q (omega arith) (omega arith)) ∙ w.n;
  dst = number-same b b' _ _ (λ q k l. same q (omega arith) (omega arith)) ∙ w.dst;
  src = number-same b b' _ _ (λ q k l. same q (omega arith) (omega arith)) ∙ w.src;
}

-- Slots that the machine runs without giving up, with what they make of space.
pub data Steps (c : Config) : ℕ → ℕ → BitSpace → BitSpace → Type 0 where
  halt : {i : ℕ} {b : BitSpace} → Steps c 0 i b b
  step :
      {k i : ℕ} {b b' : BitSpace} (r : Instruction)
      → RowIn (address_size c) b (processor_start + i * instruction_size c) r
      → r.n ≢ 0
      → (Model.inside c r.dst r.n && Model.inside c r.src r.n) ≡ true
      → Steps c k (suc i) (moved r.n r.src r.dst b) b'
      → Steps c (suc k) i b b'

pub Steps-append :
    (c : Config) (k l i j : ℕ) (b b' b'' : BitSpace)
    → j ≡ i + k
    → Steps c k i b b'
    → Steps c l j b' b''
    → Steps c (k + l) i b b''
Steps-append c k l i j b b' b'' e halt t =
    subst (λ x. Steps c x i b b'') {x = l} {y = 0 + l} (omega arith)
      (subst (λ x. Steps c l x b b'') {x = j} {y = i} (omega arith) t)
Steps-append c k l i j b b' b'' e (step {k = k'} r w z f s) t =
    subst (λ x. Steps c x i b b'') {x = suc (k' + l)} {y = suc k' + l} (omega arith)
      (step r w z f (Steps-append c k' l (suc i) j _ b' b'' (omega arith) s t))

-- The machine's instruction at a slot is the row there.
decoded :
    (c : Config) (b : BitSpace) (i : ℕ) (r : Instruction)
    → RowIn (address_size c) b (processor_start + i * instruction_size c) r
    → Model.instruction c b i ≡ r
unfolding Model.instruction
decoded c b i r w =
    let at = processor_start + i * instruction_size c in
    let n_is = ap (λ t. number b t (n_size c)) {x = at + n_offset c} {y = at} (omega arith) ∙ w.n in
    let src_is =
      ap (λ t. number b t (address_size c)) {x = at + src_offset c}
        {y = at + (address_size c - 1) + address_size c} (omega arith)
      ∙ w.src in
    λ x. record { n = n_is x; dst = w.dst x; src = src_is x }

-- Running the slots on the abstract machine gives just that.
pub Steps-run :
    (c : Config) (k i : ℕ) (b b' : BitSpace)
    → 3 ≤ i
    → Steps c k i b b'
    → ((Model.run c k i b).bits ≡ b') × ((Model.run c k i b).failed ≡ false)
unfolding Model.run Model.visit Model.execute Model.perform Model.resume
Steps-run c k i b b' h halt = (refl, refl)
Steps-run c k i b b' h (step {k = k'} r w z f s) =
    let (bits, failed) = Steps-run c k' (suc i) (moved r.n r.src r.dst b) b' (omega arith) s in
    let slot : (i == 1 || i == 2) ≡ false = ground arith in
    let some_bits : (r.n == 0) ≡ false = ground arith in
    let next : i + 1 ≡ suc i = omega arith in
    rw (slot, decoded c b i r w, some_bits, f, next) (bits, failed)
