-- ===== src/Memory.antt =====
-- Buffers of `unsigned char`, the accesses that src/bitcopy.c and src/space.c make to them, and
-- `memmove`. An access out of range is a fault, `none`. Bit `p` of a buffer is counted from the
-- most significant bit of byte `p / 8`.
pub mod Bits
pub mod Stored
use copy_space.Base.{ℕ, zero, suc, ◌+◌, ◌-◌, ◌*◌, ◌/◌, ◌%◌, ◌^◌, ◌<◌, ◌≤◌, ◌≡◌, ◌≢◌, refl, ap, ◌∙◌}
use copy_space.Base.{
  Option, none, some, List, [], ◌∷◌, true, false, ◌>>=◌, arith, length, get_elem?, get_or,
}
use copy_space.Base.{set, ltb, ◌==◌, if◌then◌else◌, lt→ltb, length-set, get_elem?-eq-get_or}
use copy_space.Base.{get_or-set_self, get_or-set_ne, testbit}

abbrev pub Bytes : Type 0
Bytes = List ℕ

-- `(unsigned char)x`.
abbrev pub u8 : ℕ → ℕ
u8 x = x % 2 ^ 8

-- `(unsigned char)~x`, for a byte `x`.
abbrev pub not8 : ℕ → ℕ
not8 x = 255 - x

-- `size_t` addition.
abbrev pub size_add : ℕ → ℕ → ℕ
size_add a b = (a + b) % 2 ^ 64

-- `x << k` before any cast, and `x >> k`.
abbrev pub shl : ℕ → ℕ → ℕ
shl x k = x * 2 ^ k

abbrev pub shr : ℕ → ℕ → ℕ
shr x k = x / 2 ^ k

-- `p[i]` through an `unsigned char` pointer.
unfoldable pub load : Bytes → ℕ → Option ℕ
load m i = do x ← get_elem? m i; some (u8 x)

-- `p[i] = v`.
unfoldable pub store : Bytes → ℕ → ℕ → Option Bytes
store m i v = if ltb i (length m) then some (set m i (u8 v)) else none

abbrev pub byte_at : Bytes → ℕ → ℕ
byte_at m i = u8 (get_or m i 0)

abbrev pub put : Bytes → ℕ → ℕ → Bytes
put m i v = set m i (u8 v)

-- The bytes `p[i..i + n)`.
unfoldable pub load_bytes : Bytes → ℕ → ℕ → Option Bytes
load_bytes m i zero = some []
load_bytes m i (suc n) = do x ← load m i; xs ← load_bytes m (i + 1) n; some (x ∷ xs)

unfoldable pub store_bytes : Bytes → ℕ → Bytes → Option Bytes
store_bytes m i [] = some m
store_bytes m i (x ∷ xs) = do m' ← store m i x; store_bytes m' (i + 1) xs

-- `memmove(dst + j, src + i, n)`: all is read before anything is written.
unfoldable pub memmove : Bytes → ℕ → Bytes → ℕ → ℕ → Option Bytes
memmove src i dst j n = do xs ← load_bytes src i n; store_bytes dst j xs

pub load-eq : (m : Bytes) (i : ℕ) → i < length m → load m i ≡ some (byte_at m i)
unfolding load
load-eq m i h = rw (get_elem?-eq-get_or m i 0 h)

pub store-eq : (m : Bytes) (i v : ℕ) → i < length m → store m i v ≡ some (put m i v)
unfolding store
store-eq m i v h = rw (lt→ltb _ _ h)

pub u8_idem : (x : ℕ) → u8 (u8 x) ≡ u8 x
u8_idem x = omega arith

pub byte_same : (m : Bytes) {i j : ℕ} → i ≡ j → byte_at m i ≡ byte_at m j
byte_same m e = ap (λ t. byte_at m t) e

pub byte_at-put_self : (m : Bytes) (i v : ℕ) → i < length m → byte_at (put m i v) i ≡ u8 v
byte_at-put_self m i v h = omega (arith, get_or-set_self m i (u8 v) 0 h)

pub byte_at-put_ne : (m : Bytes) (i j v : ℕ) → i ≢ j → byte_at (put m i v) j ≡ byte_at m j
byte_at-put_ne m i j v h = ap u8 (get_or-set_ne m i j (u8 v) 0 h)

pub length-put : (m : Bytes) (i v : ℕ) → length (put m i v) ≡ length m
length-put m i v = length-set m i (u8 v)

-- What `memmove` leaves: `n` bytes of `src` at `j`, and the rest of `dst`.
pub record Moved (src : Bytes) (i : ℕ) (dst : Bytes) (j n : ℕ) (result : Option Bytes)
    : Type 0 where
  pub out : Bytes
  pub returns : result ≡ some out
  pub same_length : length out ≡ length dst
  pub inside : (k : ℕ) → k < n → byte_at out (j + k) ≡ byte_at src (i + k)
  pub outside_low : (b : ℕ) → b < j → byte_at out b ≡ byte_at dst b
  pub outside_high : (b : ℕ) → j + n ≤ b → byte_at out b ≡ byte_at dst b

-- The values that a `memmove` of `n` bytes of `src` from `i` reads.
abbrev pub read : Bytes → ℕ → ℕ → Bytes
read src i zero = []
read src i (suc n) = byte_at src i ∷ read src (i + 1) n

pub load_bytes-eq :
    (src : Bytes) (i n : ℕ) → i + n ≤ length src → load_bytes src i n ≡ some (read src i n)
unfolding load_bytes
load_bytes-eq src i zero h = refl
load_bytes-eq src i (suc n) h =
    rw (load-eq src i (omega arith), load_bytes-eq src (i + 1) n (omega arith))

store_bytes-Moved :
    (src : Bytes) (i : ℕ) (dst : Bytes) (j n : ℕ)
    → j + n ≤ length dst
    → Moved src i dst j n (store_bytes dst j (read src i n))
unfolding store_bytes
store_bytes-Moved src i dst j zero h = record {
  out = dst;
  returns = refl;
  same_length = refl;
  inside = λ k p. absurd (omega arith);
  outside_low = λ b p. refl;
  outside_high = λ b p. refl;
}
store_bytes-Moved src i dst j (suc n) h =
    let x = byte_at src i in
    let dst' = put dst j x in
    let rest = store_bytes-Moved src (i + 1) dst' (j + 1) n (omega (arith, length-put dst j x)) in
    rw (store-eq dst j x (omega arith)) (record {
      out = rest.out;
      returns = rest.returns;
      same_length = rest.same_length ∙ length-put dst j x;
      inside = elim [
        | zero ↦ λ p.
            byte_same rest.out (omega arith)
            ∙ rest.outside_low j (omega arith)
            ∙ byte_at-put_self dst j x (omega arith)
            ∙ u8_idem (get_or src i 0)
            ∙ byte_same src (omega arith)
        | suc k ↦ λ p.
            byte_same rest.out (omega arith)
            ∙ rest.inside k (omega arith)
            ∙ byte_same src (omega arith)
      ];
      outside_low =
          λ b p. rest.outside_low b (omega arith) ∙ byte_at-put_ne dst j b x (omega arith);
      outside_high =
          λ b p. rest.outside_high b (omega arith) ∙ byte_at-put_ne dst j b x (omega arith);
    })

pub memmove-Moved :
    (src : Bytes) (i : ℕ) (dst : Bytes) (j n : ℕ)
    → i + n ≤ length src
    → j + n ≤ length dst
    → Moved src i dst j n (memmove src i dst j n)
unfolding memmove
memmove-Moved src i dst j n hs hd =
    rw (load_bytes-eq src i n hs) (store_bytes-Moved src i dst j n hd)
