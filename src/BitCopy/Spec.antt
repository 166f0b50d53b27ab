-- ===== src/BitCopy/Spec.antt =====
-- What a bit copy promises, apart from how it is done: the bits of the destination range become
-- those that the source range held, and no other bit changes.
use copy_space.Base.{ℕ, ◌+◌, ◌-◌, ◌*◌, ◌^◌, ◌<◌, ◌≤◌, ◌≡◌, refl, ap, ◌∙◌, ◌⊎◌, inl, inr}
use copy_space.Base.{Option, some, arith, length, ◌>>=◌}
use copy_space.Base.{ltb, ltb→lt, ltb→le, Bool-cases}
use copy_space.Memory.{Bytes}
use copy_space.Memory.Bits.{bit_at, bit_same}
use copy_space.BitCopy.{Origin, same, apart, source}

-- A computation that returns, with a value that satisfies `P`.
abbrev pub Returns {ℓ κ} : {A : Type ℓ} → Option A → (A → Type κ) → Type (ℓ ⊔ κ)
Returns {A} r P = (a : A) × (r ≡ some a) × P a

pub Returns-bind {ℓ κ μ ν} :
    {A : Type ℓ} {B : Type κ} (P : A → Type μ) (Q : B → Type ν) {r : Option A} {f : A → Option B}
    → Returns r P
    → ((a : A) → P a → Returns (f a) Q)
    → Returns (r >>= f) Q
Returns-bind P Q {f} (a, e, p) k = let (b, e', q) = k a p in (b, ap (λ t. t >>= f) e ∙ e', q)

-- `n` bits from `s` of what `source o m` held are at `d` in `m'`, which else is `m`.
pub record Copied (o : Origin) (n s d : ℕ) (m m' : Bytes) : Type 0 where
  pub same_length : length m' ≡ length m
  pub inside : (j : ℕ) → j < n → bit_at m' (d + j) ≡ bit_at (source o m) (s + j)
  pub outside_low : (p : ℕ) → p < d → bit_at m' p ≡ bit_at m p
  pub outside_high : (p : ℕ) → d + n ≤ p → bit_at m' p ≡ bit_at m p

-- The ranges do not overlap, if they are in one buffer.
abbrev pub Separate : Origin → ℕ → ℕ → ℕ → Type 0
Separate same n s d = (s + n ≤ d) ⊎ (d + n ≤ s)
Separate (apart src) n s d = Unit {0}

-- Both ranges lie in their buffers, whose bit positions are values of `size_t`.
pub record Fits (o : Origin) (n s d : ℕ) (m : Bytes) : Type 0 where
  pub reads : s + n ≤ 8 * length (source o m)
  pub writes : d + n ≤ 8 * length m
  pub small_source : 8 * length (source o m) < 2 ^ 64
  pub small : 8 * length m < 2 ^ 64

pub Copied-none : (o : Origin) (s d : ℕ) (m : Bytes) → Copied o 0 s d m m
Copied-none o s d m = record {
  same_length = refl;
  inside = λ j h. absurd (omega arith);
  outside_low = λ p h. refl;
  outside_high = λ p h. refl;
}

-- Writing the destination range leaves the source range of a separate copy as it was.
pub source-Copied :
    (o : Origin) (n s d : ℕ) {m m' : Bytes} (n' s' d' q : ℕ)
    → Separate o n s d
    → Copied o n' s' d' m m'
    → d ≤ d'
    → d' + n' ≤ d + n
    → s ≤ q
    → q < s + n
    → bit_at (source o m') q ≡ bit_at (source o m) q
source-Copied same n s d n' s' d' q (inl h) c p p' r r' = c.outside_low q (omega arith)
source-Copied same n s d n' s' d' q (inr h) c p p' r r' = c.outside_high q (omega arith)
source-Copied (apart src) n s d n' s' d' q h c p p' r r' = refl

pub length-source :
    (o : Origin) (m m' : Bytes) → length m' ≡ length m → length (source o m') ≡ length (source o m)
length-source same m m' e = e
length-source (apart src) m m' e = refl

pub Separate-part :
    (o : Origin) (n s d a n' : ℕ) → Separate o n s d → a + n' ≤ n → Separate o n' (s + a) (d + a)
Separate-part same n s d a n' (inl h) p = inl (omega arith)
Separate-part same n s d a n' (inr h) p = inr (omega arith)
Separate-part (apart src) n s d a n' h p = tt

pub Separate-at :
    (o : Origin) (n s d s' d' : ℕ) → s' ≡ s → d' ≡ d → Separate o n s d → Separate o n s' d'
Separate-at o n s d s' d' e f h = rw (e, f) h

pub Separate-sum : (o : Origin) (n n' s d : ℕ) → n' ≡ n → Separate o n s d → Separate o n' s d
Separate-sum o n n' s d e h = rw e h

pub Fits-sub :
    (o : Origin) (n s d n' s' d' : ℕ) (m m' : Bytes)
    → length m' ≡ length m
    → Fits o n s d m
    → s' + n' ≤ s + n
    → d' + n' ≤ d + n
    → Fits o n' s' d' m'
Fits-sub o n s d n' s' d' m m' e f p q =
    let e' = length-source o m m' e in
    record {
      reads = omega arith;
      writes = omega arith;
      small_source = omega arith;
      small = omega arith;
    }

-- A copy, with its numbers written in another way.
pub Copied-at :
    (o : Origin) (n s d n' s' d' : ℕ) {m m' : Bytes}
    → n' ≡ n
    → s' ≡ s
    → d' ≡ d
    → Copied o n s d m m'
    → Copied o n' s' d' m m'
Copied-at o n s d n' s' d' e f g c = rw (e, f, g) c

-- Two copies in sequence, of adjacent parts of separate ranges, are one copy.
pub Copied-append :
    (o : Origin) (a b s d : ℕ) {m m' m'' : Bytes}
    → Separate o (a + b) s d
    → Copied o a s d m m'
    → Copied o b (s + a) (d + a) m' m''
    → Copied o (a + b) s d m m''
Copied-append o a b s d {m} {m'} {m''} sep first second = record {
  same_length = second.same_length ∙ first.same_length;
  inside = λ j h. elim (Bool-cases (ltb j a)) [
    | inl p ↦
        second.outside_low (d + j) (omega (arith, ltb→lt j a p)) ∙ first.inside j (ltb→lt j a p)
    | inr p ↦ upper j h (ltb→le j a p)
  ];
  outside_low = λ p h. second.outside_low p (omega arith) ∙ first.outside_low p (omega arith);
  outside_high = λ p h. second.outside_high p (omega arith) ∙ first.outside_high p (omega arith);
}
  where
    upper : (j : ℕ) → j < a + b → a ≤ j → bit_at m'' (d + j) ≡ bit_at (source o m) (s + j)
    upper j h p =
        bit_same m'' {p = d + j} {q = d + a + (j - a)} (omega arith)
        ∙ second.inside (j - a) (omega arith)
        ∙ bit_same (source o m') {p = s + a + (j - a)} {q = s + j} (omega arith)
        ∙ source-Copied o (a + b) s d a s d (s + j) sep first (omega arith) (omega arith)
            (omega arith) (omega arith)
