-- ===== src/CopyEmit/Group.antt =====
-- The six rows that add one bit: three set the low digits of the source of the fourth, which then
-- looks the sum up in a table; two hand the sum and the carry on.
use copy_space.Base.{
  ℕ, suc, ◌+◌, ◌-◌, ◌*◌, ◌^◌, ◌<◌, ◌≤◌, ◌≡◌, ◌≢◌, sym, ap, ◌∙◌, arith, true, ◌&&◌, ltb, inl, inr,
  Bool-cases,
}
use mathlib.Core.Path.{subst}
use copy_space.Config.{Config, space_size, address_size, instruction_size, processor_start}
use copy_space.Space.Model
use copy_space.Space.Model.{BitSpace, number, moved}
use copy_space.CopyEmit.Rows.{row}
use copy_space.CopyEmit.Machine.{
  moved-in, moved-out, same_bit, number-same, number-set, RowIn, Steps, step,
}

-- A single bit moved.
abbrev pub set_bit : ℕ → ℕ → BitSpace → BitSpace
set_bit s d b = moved 1 s d b

pub set_bit-at : (s d : ℕ) (b : BitSpace) → set_bit s d b d ≡ b s
set_bit-at s d b =
    moved-in 1 s d b d (omega arith) (omega arith)
    ∙ same_bit b {p = s + (d - d)} {q = s} (omega arith)

pub set_bit-ne : (s d : ℕ) (b : BitSpace) (p : ℕ) → p ≢ d → set_bit s d b p ≡ b p
set_bit-ne s d b p h = elim (Bool-cases (ltb p d)) [
  | inl less ↦ moved-out 1 s d b p (inl (ground arith))
  | inr more ↦ moved-out 1 s d b p (inr (ground arith))
]

-- The source of a row whose digit `i` was 0 and is set to a bit.
pub source-set :
    (a : ℕ) (b : BitSpace) (at n d s i x : ℕ)
    → 1 ≤ a
    → i < a
    → RowIn a b at (row n d s)
    → b (at + (a - 1) + a + i) ≡ 0
    → RowIn a (set_bit x (at + (a - 1) + a + i) b) at (row n d (s + 2 ^ i * b x))
source-set a b at n d s i x h k w z =
    let f = at + (a - 1) + a in
    let b' = set_bit x (f + i) b in
    let set = number-set b b' f a i k (λ q ne. set_bit-ne x (f + i) b q ne) in
    record {
      n = number-same b b' _ _ (λ q p l. set_bit-ne x (f + i) b q (omega arith)) ∙ w.n;
      dst = number-same b b' _ _ (λ q p l. set_bit-ne x (f + i) b q (omega arith)) ∙ w.dst;
      src =
          omega (
            arith,
            set,
            w.src,
            ap (λ t. 2 ^ i * t) z,
            ap (λ t. 2 ^ i * t) (set_bit-at x (f + i) b),
          );
    }

abbrev pub slot_at : Config → ℕ → ℕ
slot_at c i = processor_start + i * instruction_size c

-- Where the machine finds a row `k` slots after slot `j`.
pub slot_ahead :
    (c : Config) (j k : ℕ)
    → 1 ≤ address_size c
    → slot_at c (j + k) ≡ slot_at c j + k * (3 * address_size c - 1)
slot_ahead c j k h =
    let size : instruction_size c ≡ 3 * address_size c - 1 = omega arith in
    omega (arith, spread j k (instruction_size c), ap (λ t. k * t) size)
  where
    spread : (x y z : ℕ) → (x + y) * z ≡ x * z + y * z
    spread x y z = grind arith

abbrev pub IsInside : Config → ℕ → ℕ → Type 0
IsInside c p n = (p < space_size c) × (p + n ≤ space_size c)

inside_test :
    (c : Config) (d s n : ℕ)
    → IsInside c d n
    → IsInside c s n
    → (Model.inside c d n && Model.inside c s n) ≡ true
inside_test c d s n (h, h') (k, k') = ground arith

-- A row `k` slots after slot `j`, run as the next step.
pub step_ahead :
    (c : Config) (j k l i at : ℕ) (b b' : BitSpace) (n d s : ℕ)
    → 1 ≤ address_size c
    → i ≡ j + k
    → at ≡ slot_at c j + k * (3 * address_size c - 1)
    → RowIn (address_size c) b at (row n d s)
    → n ≢ 0
    → IsInside c d n
    → IsInside c s n
    → Steps c l (suc i) (moved n s d b) b'
    → Steps c (suc l) i b b'
step_ahead c j k l i at b b' n d s h e e' w z f g t =
    step (row n d s)
      (subst (λ x. RowIn (address_size c) b x (row n d s))
        (e' ∙ sym (slot_ahead c j k h) ∙ ap (slot_at c) (sym e)) w)
      z (inside_test c d s n f g) t
