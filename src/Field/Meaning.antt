-- ===== src/Field/Meaning.antt =====
-- `read_field`, digit by digit.
use copy_space.Base.{ℕ, zero, suc, ◌+◌, ◌-◌, ◌/◌, ◌%◌, ◌^◌, ◌<◌, ◌≤◌, ◌≡◌, sym, ap, ◌∙◌, arith}
use copy_space.Base.{testbit, testbit-le-one, testbit_ext}
use native.Mathlib.Nat.{pow-suc}
use copy_space.Memory.{Bytes, byte_at}
use copy_space.Memory.Bits.{bit_at, bit_same}
use copy_space.Field.{read_field}

pub bit-le-one : (m : Bytes) (p : ℕ) → bit_at m p ≤ 1
bit-le-one m p = testbit-le-one (byte_at m (p / 8)) (7 - p % 8)

pub read_field-lt : (m : Bytes) (p n : ℕ) → read_field m p n < 2 ^ n
unfolding read_field
read_field-lt m p zero = omega arith
read_field-lt m p (suc n) = omega (arith, pow-suc 2 n, bit-le-one m p, read_field-lt m (p + 1) n)

pub testbit-read_field :
    (m : Bytes) (p n k : ℕ) → k < n → testbit (read_field m p n) k ≡ bit_at m (p + k)
unfolding read_field
testbit-read_field m p zero k h = elim h [ ]
testbit-read_field m p (suc n) zero h =
    omega (arith, bit-le-one m p) ∙ bit_same m {p = p} {q = p + 0} (omega arith)
testbit-read_field m p (suc n) (suc k) h =
    ap (λ t. testbit t k) {x = read_field m p (suc n) / 2} {y = read_field m (p + 1) n}
      (omega (arith, bit-le-one m p))
    ∙ testbit-read_field m (p + 1) n k (omega arith)
    ∙ bit_same m {p = p + 1 + k} {q = p + suc k} (omega arith)

-- A number with the digits of a field is the field.
pub eq-read_field :
    (m : Bytes) (p n v : ℕ)
    → v < 2 ^ n
    → ((k : ℕ) → k < n → testbit v k ≡ bit_at m (p + k))
    → v ≡ read_field m p n
eq-read_field m p n v h f =
    testbit_ext n v (read_field m p n) h (read_field-lt m p n)
      λ k q. f k q ∙ sym (testbit-read_field m p n k q)

-- Fields with the same bits are equal.
pub read_field-same :
    (m m' : Bytes) (p n : ℕ)
    → ((k : ℕ) → k < n → bit_at m' (p + k) ≡ bit_at m (p + k))
    → read_field m' p n ≡ read_field m p n
read_field-same m m' p n f =
    eq-read_field m p n (read_field m' p n) (read_field-lt m' p n)
      λ k h. testbit-read_field m' p n k h ∙ f k h
