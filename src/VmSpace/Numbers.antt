-- ===== src/VmSpace/Numbers.antt =====
-- `vm_read_uint` reads the number that `vm_write_uint` wrote.
use copy_space.Base.{
  pow-le, ℕ, zero, suc, ◌+◌, ◌-◌, ◌*◌, ◌/◌, ◌%◌, ◌^◌, ◌<◌, ◌≤◌, ◌≡◌, refl, ap, ◌∙◌, arith, some,
  length, false, not, ◌||◌, ltb, ◌==◌, bit_and, bit_or, bit_and-low_mask, bit_and_one-shr, testbit,
  testbit-le-one, testbit_at, bit_or-even, mod-pow-suc, Bool-cases, inl, inr,
}
use native.Mathlib.Nat.{pow-suc}
use copy_space.Memory.{Bytes, byte_at, shl, shr, load-eq}
use copy_space.Memory.Bits.{bit_at, bit_same}
use copy_space.BitCopy.{bit_set_ptr}
use copy_space.BitCopy.Fallback.{BitSet, bit_set_ptr-BitSet}
use copy_space.BitCopy.Spec.{Returns, Returns-bind}
use copy_space.Rv32.{vm_bit_set}
use copy_space.VmSpace.{vm_bit_get, read_bits, vm_read_uint, write_bits, vm_write_uint}

-- The number in `n` bits from `p` on, the most significant bit first.
unfoldable pub big_endian : Bytes → ℕ → ℕ → ℕ
big_endian m p zero = 0
big_endian m p (suc n) = 2 ^ n * bit_at m p + big_endian m (p + 1) n

vm_bit_get-eq : (m : Bytes) (p : ℕ) → p < 8 * length m → vm_bit_get m p ≡ some (bit_at m p)
unfolding vm_bit_get
vm_bit_get-eq m p h =
    let low : bit_and p 7 ≡ p % 8 = bit_and-low_mask 3 p in
    rw (load-eq m (p / 8) (omega arith), low, bit_and_one-shr (byte_at m (p / 8)) (7 - p % 8)) refl

-- `vm_bit_set` is the `bit_set_ptr` of the bit copy.
vm_bit_set-BitSet :
    (m : Bytes) (p v : ℕ)
    → v ≤ 1
    → p < 8 * length m
    → Returns (vm_bit_set m p (not (v == 0))) (BitSet p v m)
unfolding vm_bit_set bit_set_ptr
vm_bit_set-BitSet m p zero one h =
    let low : bit_and p 7 ≡ p % 8 = bit_and-low_mask 3 p in
    rw low (bit_set_ptr-BitSet m p zero one h)
vm_bit_set-BitSet m p (suc zero) one h =
    let low : bit_and p 7 ≡ p % 8 = bit_and-low_mask 3 p in rw low (bit_set_ptr-BitSet m p 1 one h)
vm_bit_set-BitSet m p (suc (suc v)) one h = absurd (omega arith)

bit_at-le : (m : Bytes) (p : ℕ) → bit_at m p ≤ 1
bit_at-le m p = testbit-le-one (byte_at m (p / 8)) (7 - p % 8)

-- The loop of `vm_read_uint`: nothing is shifted out of the 64 bits.
read_bits-eq :
    (m : Bytes) (pos left i v : ℕ)
    → v < 2 ^ i
    → i + left ≤ 64
    → pos + i + left ≤ 8 * length m
    → read_bits m pos left i v ≡ some (v * 2 ^ left + big_endian m (pos + i) left)
unfolding read_bits big_endian
read_bits-eq m pos zero i v h l fits = ap some (omega arith)
read_bits-eq m pos (suc left) i v h l fits =
    let b = bit_at m (pos + i) in
    let small = bit_at-le m (pos + i) in
    let up = pow-le (63 - i) (suc i) in
    let top = ap (λ t. 2 ^ t) {x = suc i + (63 - i)} {y = 64} (omega arith) in
    let double = pow-suc 2 i in
    let kept : shl v 1 % 2 ^ 64 ≡ 2 * v = omega arith in
    let next : bit_or (shl v 1 % 2 ^ 64) b ≡ 2 * v + b =
      ap (λ t. bit_or t b) kept ∙ bit_or-even v b small in
    let same = ap (λ t. 2 ^ t) {x = i + 1} {y = suc i} (omega arith) in
    let rest =
      read_bits-eq m pos left (i + 1) (2 * v + b) (omega arith) (omega arith) (omega arith) in
    let place = ap (λ t. big_endian m t left) {x = pos + (i + 1)} {y = pos + i + 1} (omega arith) in
    rw (vm_bit_get-eq m (pos + i) (omega arith), next)
      (rest
        ∙ ap some (
            omega (
              arith,
              place,
              spread v b (2 ^ left),
              ap (λ t. v * t) (pow-suc 2 left),
              half v (2 ^ left),
            )))
  where
    spread : (x y z : ℕ) → (2 * x + y) * z ≡ 2 * (x * z) + z * y
    spread x y z = grind arith

    half : (x z : ℕ) → x * (z * 2) ≡ 2 * (x * z)
    half x z = grind arith

-- The top digit of a remainder.
top_digit : (v n : ℕ) → v % 2 ^ suc n ≡ v % 2 ^ n + 2 ^ n * testbit v n
top_digit v zero = omega arith
top_digit v (suc n) = omega (
  arith,
  mod-pow-suc v (suc n),
  mod-pow-suc v n,
  top_digit (v / 2) n,
  ap (λ t. t * testbit (v / 2) n) (pow-suc 2 n),
  twice (2 ^ n) (testbit (v / 2) n),
)
  where
    twice : (x y : ℕ) → x * 2 * y ≡ 2 * (x * y)
    twice x y = grind arith

-- Bits that are those of a value, the top one first.
big_endian-mod :
    (m : Bytes) (p v n : ℕ)
    → ((j : ℕ) → j < n → bit_at m (p + j) ≡ testbit v (n - 1 - j))
    → big_endian m p n ≡ v % 2 ^ n
unfolding big_endian
big_endian-mod m p v zero same = omega arith
big_endian-mod m p v (suc n) same =
    let first : bit_at m p ≡ testbit v n =
      bit_same m {p = p} {q = p + 0} (omega arith)
      ∙ same 0 (omega arith)
      ∙ testbit_at v (suc n - 1 - 0) n (omega arith) in
    let rest = big_endian-mod m (p + 1) v n λ j h.
      bit_same m {p = p + 1 + j} {q = p + (j + 1)} (omega arith)
      ∙ same (j + 1) (omega arith)
      ∙ testbit_at v (suc n - 1 - (j + 1)) (n - 1 - j) (omega arith) in
    omega (arith, top_digit v n, rest, ap (λ t. 2 ^ n * t) first)

-- Digits `i` up to the width are written, and nothing else.
record Written (pos width value i : ℕ) (m m' : Bytes) : Type 0 where
  same_length : length m' ≡ length m
  digits : (j : ℕ) → i ≤ j → j < width → bit_at m' (pos + j) ≡ testbit value (width - 1 - j)
  below : (q : ℕ) → q < pos + i → bit_at m' q ≡ bit_at m q
  above : (q : ℕ) → pos + width ≤ q → bit_at m' q ≡ bit_at m q

write_bits-Written :
    (m : Bytes) (pos width value left i : ℕ)
    → i + left ≡ width
    → pos + width ≤ 8 * length m
    → Returns (write_bits m pos width value left i) (Written pos width value i m)
unfolding write_bits
write_bits-Written m pos width value zero i e fits = (
  m,
  refl,
  record {
    same_length = refl;
    digits = λ j h l. absurd (omega arith);
    below = λ q h. refl;
    above = λ q h. refl;
  },
)
write_bits-Written m pos width value (suc left) i e fits =
    let d = testbit value (width - 1 - i) in
    let digit : bit_and (shr value (width - 1 - i)) 1 ≡ d = bit_and_one-shr value (width - 1 - i) in
    rw digit (
      Returns-bind (BitSet (pos + i) d m) (Written pos width value i m)
        (vm_bit_set-BitSet m (pos + i) d (testbit-le-one value (width - 1 - i)) (omega arith))
        λ m1 b.
          let (m2, r, w) =
            write_bits-Written m1 pos width value left (i + 1) (omega arith)
              (omega (arith, b.same_length)) in
          (
            m2,
            r,
            record {
              same_length = w.same_length ∙ b.same_length;
              digits = λ j h l. elim (Bool-cases (j == i)) [
                | inl here ↦
                    let same : j ≡ i = ground arith in
                    bit_same m2 {p = pos + j} {q = pos + i} (omega arith)
                    ∙ w.below (pos + i) (omega arith)
                    ∙ b.at
                    ∙ testbit_at value (width - 1 - i) (width - 1 - j) (omega arith)
                | inr later ↦ w.digits j (ground arith) l
              ];
              below = λ q h. w.below q (omega arith) ∙ b.elsewhere q (omega arith);
              above = λ q h. w.above q h ∙ b.elsewhere q (omega arith);
            },
          ))

-- Writing a number of 1 to 64 bits inside space returns, and `vm_read_uint` then returns the number,
-- cut to the width; every bit outside the field is as it was.
pub vm_read_uint-vm_write_uint :
    (m : Bytes) (pos width value : ℕ)
    → 1 ≤ width
    → width ≤ 64
    → pos + width ≤ 8 * length m
    → Returns (vm_write_uint m pos width value) (λ m'.
      (vm_read_uint m' pos width ≡ some (value % 2 ^ width))
      × ((q : ℕ) → q < pos → bit_at m' q ≡ bit_at m q)
      × ((q : ℕ) → pos + width ≤ q → bit_at m' q ≡ bit_at m q))
unfolding vm_write_uint vm_read_uint
vm_read_uint-vm_write_uint m pos width value low high fits =
    let usual : (width == 0 || ltb 64 width) ≡ false = ground arith in
    let (m', e, w) = write_bits-Written m pos width value width 0 (omega arith) fits in
    let read =
      read_bits-eq m' pos width 0 0 (omega arith) (omega arith) (omega (arith, w.same_length)) in
    let number = big_endian-mod m' pos value width λ j h. w.digits j (omega arith) h in
    let start = ap (λ t. big_endian m' t width) {x = pos + 0} {y = pos} (omega arith) in
    rw usual (
      m',
      e,
      (
        read ∙ ap some (omega (arith, number, start)),
        λ q h. w.below q (omega arith),
        λ q h. w.above q h,
      ),
    )
