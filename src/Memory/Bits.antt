-- ===== src/Memory/Bits.antt =====
-- Single bits of a buffer: what a byte write does to them.
use copy_space.Base.{ℕ, ◌-◌, ◌/◌, ◌%◌, ◌<◌, ◌≡◌, ◌≢◌, ap, ◌∙◌}
use copy_space.Base.{arith, length, testbit, testbit-mod, testbit_at}
use copy_space.Memory.{Bytes, byte_at, put, byte_at-put_self, byte_at-put_ne, byte_same}

abbrev pub bit_at : Bytes → ℕ → ℕ
bit_at m p = testbit (byte_at m (p / 8)) (7 - p % 8)

pub bit_same : (m : Bytes) {p q : ℕ} → p ≡ q → bit_at m p ≡ bit_at m q
bit_same m e = ap (λ t. bit_at m t) e

-- Equal bytes have equal bits.
pub bit_at-byte :
    (m m' : Bytes) (p q : ℕ)
    → byte_at m (p / 8) ≡ byte_at m' (q / 8)
    → p % 8 ≡ q % 8
    → bit_at m p ≡ bit_at m' q
bit_at-byte m m' p q e f =
    ap (λ t. testbit t (7 - p % 8)) e ∙ testbit_at (byte_at m' (q / 8)) _ _ (ap (λ t. 7 - t) f)

-- A write to byte `i` sets the bits of that byte to those of `v`.
pub bit_at-put_self :
    (m : Bytes) (i v p : ℕ)
    → i < length m
    → p / 8 ≡ i
    → bit_at (put m i v) p ≡ testbit v (7 - p % 8)
bit_at-put_self m i v p h e =
    ap (λ t. testbit t (7 - p % 8)) (byte_same (put m i v) e ∙ byte_at-put_self m i v h)
    ∙ testbit-mod v 8 (7 - p % 8) (omega arith)

-- It leaves the bits of the other bytes.
pub bit_at-put_ne : (m : Bytes) (i v p : ℕ) → i ≢ p / 8 → bit_at (put m i v) p ≡ bit_at m p
bit_at-put_ne m i v p h = ap (λ t. testbit t (7 - p % 8)) (byte_at-put_ne m i (p / 8) v h)
