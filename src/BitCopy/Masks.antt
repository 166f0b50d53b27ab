-- ===== src/BitCopy/Masks.antt =====
-- The masks of `bitcpy`, digit by digit. Bit `i` of a byte, from the left, is its digit `7 - i`.
use copy_space.Base.{ℕ, ◌+◌, ◌-◌, ◌<◌, ◌≡◌, refl, ◌∙◌}
use copy_space.Base.{
  some, true, arith, get_elem?, get_or, testbit, bit_and, bit_or, ltb, ◌==◌, if◌then◌else◌,
}
use copy_space.Base.{
  testbit-bit_and, testbit-bit_or, testbit-le-one, testbit-mod, table_sound, every_entry,
}
use copy_space.Base.{
  get_elem?-eq-get_or, testbit-shl, testbit-shl_low, testbit-shr, testbit-of_lt, testbit_at,
  Bool-cases, inl, inr, ltb→lt, ltb→le,
}
use copy_space.Memory.{u8, not8, shl, shr}
use copy_space.BitCopy.{keep_hi, keep_lo}

abbrev pub bit_mask : ℕ → ℕ
bit_mask shift = u8 (shl 1 shift)

bit_mask_table :
    every_entry 8 (λ s. every_entry 8 (λ k. testbit (bit_mask s) k == (if s == k then 1 else 0)))
    ≡ true
unfolding every_entry
bit_mask_table = refl

not_bit_mask_table :
    every_entry 8
      (λ s. every_entry 8 (λ k. testbit (not8 (bit_mask s)) k == (if s == k then 0 else 1)))
    ≡ true
unfolding every_entry
not_bit_mask_table = refl

-- `*b |= mask`.
pub set_digit :
    (b s k : ℕ)
    → s < 8
    → k < 8
    → testbit (bit_or b (bit_mask s)) k ≡ (if s == k then 1 else testbit b k)
set_digit b s k p q = ground (
  arith,
  testbit-bit_or b (bit_mask s) k,
  testbit-le-one b k,
  table_sound 8 8 (λ s k. testbit (bit_mask s) k) (λ s k. if s == k then 1 else 0) bit_mask_table s
      k p q,
)

-- `*b &= ~mask`.
pub clear_digit :
    (b s k : ℕ)
    → s < 8
    → k < 8
    → testbit (bit_and b (not8 (bit_mask s))) k ≡ (if s == k then 0 else testbit b k)
clear_digit b s k p q = ground (
  arith,
  testbit-bit_and b (not8 (bit_mask s)) k,
  testbit-le-one b k,
  table_sound 8 8 (λ s k. testbit (not8 (bit_mask s)) k) (λ s k. if s == k then 0 else 1)
      not_bit_mask_table s k p q,
)

abbrev pub hi_mask : ℕ → ℕ
hi_mask n = get_or keep_hi n 0

abbrev pub lo_mask : ℕ → ℕ
lo_mask n = get_or keep_lo n 0

hi_mask_table :
    every_entry 9
      (λ n. every_entry 8 (λ i. testbit (hi_mask n) (7 - i) == (if ltb i n then 1 else 0)))
    ≡ true
unfolding every_entry
hi_mask_table = refl

not_hi_mask_table :
    every_entry 9
      (λ n. every_entry 8 (λ i. testbit (not8 (hi_mask n)) (7 - i) == (if ltb i n then 0 else 1)))
    ≡ true
unfolding every_entry
not_hi_mask_table = refl

lo_mask_table :
    every_entry 9
      (λ n. every_entry 8 (λ i. testbit (lo_mask n) (7 - i) == (if ltb i n then 0 else 1)))
    ≡ true
unfolding every_entry
lo_mask_table = refl

pub keep_hi-eq : (n : ℕ) → n < 9 → get_elem? keep_hi n ≡ some (hi_mask n)
keep_hi-eq n h = get_elem?-eq-get_or keep_hi n 0 h

pub keep_lo-eq : (n : ℕ) → n < 9 → get_elem? keep_lo n ≡ some (lo_mask n)
keep_lo-eq n h = get_elem?-eq-get_or keep_lo n 0 h

-- `(d & ~mask) | (s & mask)` with `mask = keep_hi[n]`: the left `n` bits come from `s`.
pub merge_hi :
    (d s n i : ℕ)
    → n < 9
    → i < 8
    → testbit (bit_or (bit_and d (not8 (hi_mask n))) (bit_and s (hi_mask n))) (7 - i)
      ≡ (if ltb i n then testbit s (7 - i) else testbit d (7 - i))
merge_hi d s n i p q = ground (
  arith,
  testbit-bit_or (bit_and d (not8 (hi_mask n))) (bit_and s (hi_mask n)) (7 - i),
  testbit-bit_and d (not8 (hi_mask n)) (7 - i),
  testbit-bit_and s (hi_mask n) (7 - i),
  testbit-le-one d (7 - i),
  testbit-le-one s (7 - i),
  table_sound 9 8 (λ n i. testbit (hi_mask n) (7 - i)) (λ n i. if ltb i n then 1 else 0)
      hi_mask_table n i p q,
  table_sound 9 8 (λ n i. testbit (not8 (hi_mask n)) (7 - i)) (λ n i. if ltb i n then 0 else 1)
      not_hi_mask_table n i p q,
)

head_mask_table :
    every_entry 8 (λ n.
      every_entry 8
        (λ i. testbit (u8 (bit_or (hi_mask n) 0)) (7 - i) == (if ltb i n then 1 else 0)))
    ≡ true
unfolding every_entry
head_mask_table = refl

not_head_mask_table :
    every_entry 8 (λ n.
      every_entry 8
        (λ i. testbit (not8 (u8 (bit_or (hi_mask n) 0))) (7 - i) == (if ltb i n then 0 else 1)))
    ≡ true
unfolding every_entry
not_head_mask_table = refl

-- `(d & mask_keep) | (s & ~mask_keep)` of the first byte: the left `n` bits stay.
pub merge_lo :
    (d x n i : ℕ)
    → n < 8
    → i < 8
    → testbit
        (bit_or
          (bit_and d (u8 (bit_or (hi_mask n) 0)))
          (bit_and (u8 (bit_and x (lo_mask n))) (not8 (u8 (bit_or (hi_mask n) 0)))))
        (7 - i)
      ≡ (if ltb i n then testbit d (7 - i) else testbit x (7 - i))
merge_lo d x n i p q =
    let keep = u8 (bit_or (hi_mask n) 0) in
    let s = u8 (bit_and x (lo_mask n)) in
    ground (
      arith,
      testbit-bit_or (bit_and d keep) (bit_and s (not8 keep)) (7 - i),
      testbit-bit_and d keep (7 - i),
      testbit-bit_and s (not8 keep) (7 - i),
      testbit-mod (bit_and x (lo_mask n)) 8 (7 - i),
      testbit-bit_and x (lo_mask n) (7 - i),
      testbit-le-one d (7 - i),
      testbit-le-one x (7 - i),
      table_sound 9 8 (λ n i. testbit (lo_mask n) (7 - i)) (λ n i. if ltb i n then 0 else 1)
          lo_mask_table n i (omega arith) q,
      table_sound 8 8 (λ n i. testbit (u8 (bit_or (hi_mask n) 0)) (7 - i))
          (λ n i. if ltb i n then 1 else 0) head_mask_table n i p q,
      table_sound 8 8 (λ n i. testbit (not8 (u8 (bit_or (hi_mask n) 0))) (7 - i))
          (λ n i. if ltb i n then 0 else 1) not_head_mask_table n i p q,
    )

-- `src[0] << src_mod`, cast to a byte.
pub shl_digit :
    (x a i : ℕ)
    → a < 8
    → i < 8
    → testbit (u8 (shl x a)) (7 - i) ≡ (if ltb (i + a) 8 then testbit x (7 - (i + a)) else 0)
shl_digit x a i p q = elim (Bool-cases (ltb (i + a) 8)) [
  | inl fits ↦ rw fits (
      testbit-mod (shl x a) 8 (7 - i) (omega arith)
      ∙ testbit-shl x a (7 - i) (omega (arith, ltb→lt (i + a) 8 fits))
      ∙ testbit_at x (7 - i - a) (7 - (i + a)) (omega arith))
  | inr out ↦ rw out (
      testbit-mod (shl x a) 8 (7 - i) (omega arith)
      ∙ testbit-shl_low x a (7 - i) (omega (arith, ltb→le (i + a) 8 out)))
]

-- `src[1] >> (8 - src_mod)`.
pub shr_digit :
    (y a i : ℕ)
    → y < 256
    → a < 8
    → 0 < a
    → i < 8
    → testbit (u8 (shr y (8 - a))) (7 - i)
      ≡ (if ltb (i + a) 8 then 0 else testbit y (7 - (i + a - 8)))
shr_digit y a i b p z q = elim (Bool-cases (ltb (i + a) 8)) [
  | inl out ↦ rw out (
      testbit-mod (shr y (8 - a)) 8 (7 - i) (omega arith)
      ∙ testbit-shr y (8 - a) (7 - i)
      ∙ testbit-of_lt y 8 (8 - a + (7 - i)) b (omega (arith, ltb→lt (i + a) 8 out)))
  | inr fits ↦ rw fits (
      testbit-mod (shr y (8 - a)) 8 (7 - i) (omega arith)
      ∙ testbit-shr y (8 - a) (7 - i)
      ∙ testbit_at y (8 - a + (7 - i)) (7 - (i + a - 8)) (omega (arith, ltb→le (i + a) 8 fits)))
]

-- The window of 8 bits that starts at bit `a` of the byte `x` and ends in `y`.
pub window_digit :
    (x y a i : ℕ)
    → y < 256
    → a < 8
    → 0 < a
    → i < 8
    → testbit (u8 (bit_or (u8 (shl x a)) (u8 (shr y (8 - a))))) (7 - i)
      ≡ (if ltb (i + a) 8 then testbit x (7 - (i + a)) else testbit y (7 - (i + a - 8)))
window_digit x y a i b p z q = ground (
  arith,
  testbit-mod (bit_or (u8 (shl x a)) (u8 (shr y (8 - a)))) 8 (7 - i),
  testbit-bit_or (u8 (shl x a)) (u8 (shr y (8 - a))) (7 - i),
  shl_digit x a i p q,
  shr_digit y a i b p z q,
)
