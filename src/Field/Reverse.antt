-- ===== src/Field/Reverse.antt =====
-- `reverse_bits_in_bytes` reverses the bits of each byte of a `uint32_t`.
use copy_space.Base.{ℕ, ◌+◌, ◌-◌, ◌*◌, ◌/◌, ◌%◌, ◌<◌, ◌≤◌, ◌≡◌, refl, ◌∙◌, arith}
use copy_space.Base.{
  testbit, testbit-le-one, testbit_at, bit_and, if◌then◌else◌, ltb, leb, ◌==◌, every_entry, ◌&&◌,
}
use copy_space.Base.{
  testbit-bit_and, testbit-bit_or, testbit-mod, testbit-shl, testbit-shl_low, testbit-shr,
  every_entry-at,
}
use copy_space.Base.{testbit-of_lt, Bool-cases, inl, inr, ltb→lt, ltb→le, true, Bool, ◌||◌}
use copy_space.Memory.{shl, shr}
use copy_space.Field.{u32, swap_neighbours, reverse_bits_in_bytes}

-- Where digit `i` comes from when neighbouring groups of `k` digits change places.
abbrev partner : ℕ → ℕ → ℕ
partner k i = if i / k % 2 == 0 then i + k else i - k

shl_any :
    (x k i : ℕ) → i < 32 → testbit (u32 (shl x k)) i ≡ (if ltb i k then 0 else testbit x (i - k))
shl_any x k i h = elim (Bool-cases (ltb i k)) [
  | inl p ↦ rw p (testbit-mod (shl x k) 32 i h ∙ testbit-shl_low x k i (ltb→lt i k p))
  | inr p ↦ rw p (testbit-mod (shl x k) 32 i h ∙ testbit-shl x k i (ltb→le i k p))
]

-- The digits of the mask select, at `i`, the digit of the partner.
abbrev selects : ℕ → ℕ → ℕ → Bool
selects mask k i =
    if i / k % 2 == 0
    then (testbit mask i == 1) && (ltb i k || testbit mask (i - k) == 0)
    else (testbit mask i == 0) && (leb k i && testbit mask (i - k) == 1)

swap_digit :
    (mask k v i : ℕ)
    → i < 32
    → selects mask k i ≡ true
    → testbit (swap_neighbours mask k v) i ≡ testbit v (partner k i)
swap_digit mask k v i h t = ground (
  arith,
  testbit-bit_or (u32 (shl (bit_and v mask) k)) (bit_and (shr v k) mask) i,
  shl_any (bit_and v mask) k i h,
  testbit-bit_and v mask (i - k),
  testbit-bit_and (shr v k) mask i,
  testbit-shr v k i,
  testbit_at v (k + i) (i + k) (omega arith),
  testbit-le-one v (i + k),
  testbit-le-one v (i - k),
)

table_one : every_entry 32 (selects 0x55555555 1) ≡ true
unfolding every_entry
table_one = refl

table_two : every_entry 32 (selects 0x33333333 2) ≡ true
unfolding every_entry
table_two = refl

table_four : every_entry 32 (selects 0x0f0f0f0f 4) ≡ true
unfolding every_entry
table_four = refl

partner_table :
    every_entry 32 (λ i.
      ltb (partner 4 i) 32
      && ltb (partner 2 (partner 4 i)) 32
      && partner 1 (partner 2 (partner 4 i)) == 8 * (i / 8) + (7 - i % 8))
    ≡ true
unfolding every_entry
partner_table = refl

partners_in_range :
    (i : ℕ)
    → i < 32
    → (partner 4 i < 32)
      × (partner 2 (partner 4 i) < 32)
      × (partner 1 (partner 2 (partner 4 i)) ≡ 8 * (i / 8) + (7 - i % 8))
partners_in_range i h =
    let t =
      every_entry-at 32
        (λ i.
          ltb (partner 4 i) 32
          && ltb (partner 2 (partner 4 i)) 32
          && partner 1 (partner 2 (partner 4 i)) == 8 * (i / 8) + (7 - i % 8))
        i partner_table h in
    all_three (partner 4 i) (partner 2 (partner 4 i)) (partner 1 (partner 2 (partner 4 i)))
      (8 * (i / 8) + (7 - i % 8)) t
  where
    all_three :
        (a b c d : ℕ) → (ltb a 32 && ltb b 32 && c == d) ≡ true → (a < 32) × (b < 32) × (c ≡ d)
    all_three a b c d t = ground arith

-- Digit `i` of the result is the digit at the mirrored place of the same byte.
pub testbit-reverse :
    (v i : ℕ) → i < 32 → testbit (reverse_bits_in_bytes v) i ≡ testbit v (8 * (i / 8) + (7 - i % 8))
unfolding reverse_bits_in_bytes
testbit-reverse v i h =
    let (in_four, in_two, mirrored) = partners_in_range i h in
    let a = swap_neighbours 0x55555555 1 v in
    let b = swap_neighbours 0x33333333 2 a in
    swap_digit 0x0f0f0f0f 4 b i h (every_entry-at 32 (selects 0x0f0f0f0f 4) i table_four h)
    ∙ swap_digit 0x33333333 2 a (partner 4 i) in_four
        (every_entry-at 32 (selects 0x33333333 2) (partner 4 i) table_two in_four)
    ∙ swap_digit 0x55555555 1 v (partner 2 (partner 4 i)) in_two
        (every_entry-at 32 (selects 0x55555555 1) (partner 2 (partner 4 i)) table_one in_two)
    ∙ testbit_at v (partner 1 (partner 2 (partner 4 i))) (8 * (i / 8) + (7 - i % 8)) mirrored

pub testbit-reverse_high : (v i : ℕ) → 32 ≤ i → testbit (reverse_bits_in_bytes v) i ≡ 0
unfolding reverse_bits_in_bytes
testbit-reverse_high v i h =
    let w = swap_neighbours 0x33333333 2 (swap_neighbours 0x55555555 1 v) in
    ground (
      arith,
      testbit-bit_or (u32 (shl (bit_and w 0x0f0f0f0f) 4)) (bit_and (shr w 4) 0x0f0f0f0f) i,
      testbit-bit_and (shr w 4) 0x0f0f0f0f i,
      testbit-of_lt (u32 (shl (bit_and w 0x0f0f0f0f) 4)) 32 i (omega arith) h,
      testbit-of_lt 0x0f0f0f0f 32 i (omega arith) h,
    )
