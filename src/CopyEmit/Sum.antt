-- ===== src/CopyEmit/Sum.antt =====
-- The table of sums or differences, and the number that its bits make up.
use copy_space.Base.{
  ℕ, zero, suc, ◌+◌, ◌-◌, ◌*◌, ◌/◌, ◌%◌, ◌^◌, ◌<◌, ◌≤◌, ◌≡◌, refl, ap, ◌∙◌, arith, Bool, true,
  false,
}
use native.Mathlib.Nat.{pow-suc}
use copy_space.Space.Model.{BitSpace, number}
use copy_space.CopyEmit.Code.{entry}
use copy_space.CopyEmit.Machine.{Bits, number-snoc}
use copy_space.CopyEmit.Carries.{carry_at, place_at}

entry-add : (x y z : ℕ) → x ≤ 1 → y ≤ 1 → z ≤ 1 → entry false (x + 2 * y + 4 * z) ≡ x + y + z
unfolding entry
entry-add zero zero zero p q r = refl
entry-add zero zero (suc zero) p q r = refl
entry-add zero (suc zero) zero p q r = refl
entry-add zero (suc zero) (suc zero) p q r = refl
entry-add (suc zero) zero zero p q r = refl
entry-add (suc zero) zero (suc zero) p q r = refl
entry-add (suc zero) (suc zero) zero p q r = refl
entry-add (suc zero) (suc zero) (suc zero) p q r = refl
entry-add (suc (suc x)) y z p q r = absurd (omega arith)
entry-add zero (suc (suc y)) z p q r = absurd (omega arith)
entry-add (suc zero) (suc (suc y)) z p q r = absurd (omega arith)
entry-add zero zero (suc (suc z)) p q r = absurd (omega arith)
entry-add zero (suc zero) (suc (suc z)) p q r = absurd (omega arith)
entry-add (suc zero) zero (suc (suc z)) p q r = absurd (omega arith)
entry-add (suc zero) (suc zero) (suc (suc z)) p q r = absurd (omega arith)

-- The difference of three bits as a bit and a borrow.
abbrev pub borrow_entry : ℕ → ℕ → ℕ → ℕ
borrow_entry x y z = entry true (x + 2 * y + 4 * z)

entry-sub :
    (x y z : ℕ)
    → x ≤ 1
    → y ≤ 1
    → z ≤ 1
    → borrow_entry x y z % 2 + y + z ≡ x + 2 * (borrow_entry x y z / 2)
unfolding entry
entry-sub zero zero zero p q r = refl
entry-sub zero zero (suc zero) p q r = refl
entry-sub zero (suc zero) zero p q r = refl
entry-sub zero (suc zero) (suc zero) p q r = refl
entry-sub (suc zero) zero zero p q r = refl
entry-sub (suc zero) zero (suc zero) p q r = refl
entry-sub (suc zero) (suc zero) zero p q r = refl
entry-sub (suc zero) (suc zero) (suc zero) p q r = refl
entry-sub (suc (suc x)) y z p q r = absurd (omega arith)
entry-sub zero (suc (suc y)) z p q r = absurd (omega arith)
entry-sub (suc zero) (suc (suc y)) z p q r = absurd (omega arith)
entry-sub zero zero (suc (suc z)) p q r = absurd (omega arith)
entry-sub zero (suc zero) (suc (suc z)) p q r = absurd (omega arith)
entry-sub (suc zero) zero (suc (suc z)) p q r = absurd (omega arith)
entry-sub (suc zero) (suc zero) (suc (suc z)) p q r = absurd (omega arith)

-- The table lies at `table`, two bits for each entry.
abbrev pub Entries : Bool → BitSpace → ℕ → Type 0
Entries subtract b table =
    (i : ℕ) → i < 8 → b (table + 2 * i) + 2 * b (table + 2 * i + 1) ≡ entry subtract i

pub number-lt : (b : BitSpace) (p n : ℕ) → Bits b → number b p n < 2 ^ n
unfolding number
number-lt b p zero w = omega arith
number-lt b p (suc n) w = omega (arith, w p, number-lt b (p + 1) n w, pow-suc 2 n)

-- What a number of `n` bits is, by its value with a carry out.
weighted : (p x y z o k : ℕ) → o + 2 * k ≡ x + y + z → p * o + p * 2 * k ≡ p * x + p * y + p * z
weighted p x y z o k e = spread (o + 2 * k) (x + y + z) e
  where
    spread : (m n : ℕ) → m ≡ n → p * o + p * 2 * k ≡ p * x + p * y + p * z
    spread m n h = left_side ∙ ap (λ t. p * t) e ∙ right_side
      where
        left_side : p * o + p * 2 * k ≡ p * (o + 2 * k)
        left_side = grind arith

        right_side : p * (x + y + z) ≡ p * x + p * y + p * z
        right_side = grind arith

module _ (b b' : BitSpace) (dest left right table z : ℕ) (w : Bits b) (w' : Bits b')
    (sums : (i : ℕ) → i < 32 → b' (dest + i) ≡ b (place_at b left right table z i))
    (empty : b z ≡ 0) where
  carry-bit : (k : ℕ) → carry_at b left right table z k ≤ 1
  unfolding carry_at
  carry-bit zero = w z
  carry-bit (suc k) = w _

  -- One entry: the sum bit and the next carry.
  looked_up :
      (subtract : Bool) (k : ℕ)
      → k < 32
      → Entries subtract b table
      → b' (dest + k) + 2 * carry_at b left right table z (suc k)
        ≡ entry subtract (b (left + k) + 2 * b (right + k) + 4 * carry_at b left right table z k)
  unfolding carry_at place_at
  looked_up subtract k h t =
      ap (λ s. s + 2 * carry_at b left right table z (suc k)) (sums k h)
      ∙ t (b (left + k) + 2 * b (right + k) + 4 * carry_at b left right table z k)
          (omega (arith, w (left + k), w (right + k), carry-bit k))

  no_carry : carry_at b left right table z 0 ≡ 0
  unfolding carry_at
  no_carry = empty

  added_up :
      (k : ℕ)
      → k ≤ 32
      → Entries false b table
      → number b' dest k + 2 ^ k * carry_at b left right table z k
        ≡ number b left k + number b right k
  unfolding number
  added_up zero h t = omega (arith, no_carry)
  added_up (suc k) h t =
      let x = b (left + k) in
      let y = b (right + k) in
      let g = carry_at b left right table z k in
      let g' = carry_at b left right table z (suc k) in
      let o = b' (dest + k) in
      let digit : o + 2 * g' ≡ x + y + g =
        looked_up false k (omega arith) t
        ∙ entry-add x y g (w (left + k)) (w (right + k)) (carry-bit k) in
      omega (
        arith,
        added_up k (omega arith) t,
        number-snoc b' dest k,
        number-snoc b left k,
        number-snoc b right k,
        weighted (2 ^ k) x y g o g' digit,
        ap (λ s. s * g') (pow-suc 2 k),
      )

  taken_off :
      (k : ℕ)
      → k ≤ 32
      → Entries true b table
      → number b' dest k + number b right k
        ≡ number b left k + 2 ^ k * carry_at b left right table z k
  unfolding number
  taken_off zero h t = omega (arith, no_carry)
  taken_off (suc k) h t =
      let x = b (left + k) in
      let y = b (right + k) in
      let g = carry_at b left right table z k in
      let g' = carry_at b left right table z (suc k) in
      let o = b' (dest + k) in
      let up = looked_up true k (omega arith) t in
      let digit : x + 2 * g' ≡ o + y + g = omega (
        arith,
        up,
        entry-sub x y g (w (left + k)) (w (right + k)) (carry-bit k),
        w' (dest + k),
        carry-bit (suc k),
      ) in
      omega (
        arith,
        taken_off k (omega arith) t,
        number-snoc b' dest k,
        number-snoc b left k,
        number-snoc b right k,
        weighted (2 ^ k) o y g x g' digit,
        ap (λ s. s * g') (pow-suc 2 k),
      )

  pub sum_lem :
      Entries false b table → number b' dest 32 ≡ (number b left 32 + number b right 32) % 2 ^ 32
  sum_lem t = omega (arith, added_up 32 (omega arith) t, number-lt b' dest 32 w', carry-bit 32)

  pub difference_lem :
      Entries true b table
      → number b' dest 32 ≡ (number b left 32 + (2 ^ 32 - number b right 32)) % 2 ^ 32
  difference_lem t = omega (
    arith,
    taken_off 32 (omega arith) t,
    number-lt b' dest 32 w',
    number-lt b left 32 w,
    number-lt b right 32 w,
    carry-bit 32,
  )
