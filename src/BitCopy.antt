-- ===== src/BitCopy.antt =====
-- `bitcpy` of src/bitcopy.c, statement by statement.
-- Bit positions and counts are `size_t`: a sum of two is taken modulo 2 ^ 64. `x >> 3` is
-- `x / 8`, `x & 7` is `x % 8`.
pub mod Spec
pub mod Masks
pub mod Fallback
mod Pieces
mod Window
mod Aligned
mod Shifted
pub mod Paths
mod Tests
use copy_space.Base.{ℕ, zero, suc, ◌+◌, ◌-◌, ◌*◌, ◌/◌, ◌%◌, ◌^◌, Option, none, some, List, [], ◌∷◌}
use copy_space.Base.{Bool, true, false, ◌&&◌, ◌>>=◌, ltb, ◌==◌, if◌then◌else◌, get_elem?}
use copy_space.Base.{bit_and, bit_or}
use copy_space.Memory.{Bytes, u8, not8, size_add, shl, shr, load, store, memmove}

-- Where the source pointer points: at the destination buffer itself, or at another buffer.
pub data Origin : Type 0 where
  same : Origin
  apart : Bytes → Origin

-- What is read through the source pointer while the destination holds `dst`.
abbrev pub source : Origin → Bytes → Bytes
source same dst = dst
source (apart src) dst = src

pub bit_get_ptr : Bytes → ℕ → Option ℕ
bit_get_ptr p bitpos = do
  byte ← load p (bitpos / 8)
  let shift = 7 - bitpos % 8
  some (bit_and (shr byte shift) 1)

unfoldable pub bit_set_ptr : Bytes → ℕ → ℕ → Option Bytes
bit_set_ptr p bitpos v = do
  let shift = 7 - bitpos % 8
  let mask = u8 (shl 1 shift)
  b ← load p (bitpos / 8)
  if v == 0
      then store p (bitpos / 8) (bit_and b (not8 mask))
      else store p (bitpos / 8) (bit_or b mask)

module _ (o : Origin) (src_bit dst_bit : ℕ) where
  -- The body of both loops.
  pub move_bit : ℕ → Bytes → Option Bytes
  move_bit i dst = do
    v ← bit_get_ptr (source o dst) (size_add src_bit i)
    bit_set_ptr dst (size_add dst_bit i) v

  -- `for (i = 0; i < n; i++)`, at index `i` with `left` rounds to go.
  pub move_up : ℕ → ℕ → Bytes → Option Bytes
  move_up zero i dst = some dst
  move_up (suc left) i dst = do dst' ← move_bit i dst; move_up left (i + 1) dst'

  -- `for (i = n; i-- > 0;)`.
  pub move_down : ℕ → Bytes → Option Bytes
  move_down zero dst = some dst
  move_down (suc i) dst = do dst' ← move_bit i dst; move_down i dst'

pub overlap_fallback : Origin → ℕ → ℕ → ℕ → Bytes → Option Bytes
overlap_fallback o n_bits src_bit dst_bit dst =
    if ltb dst_bit src_bit
    then move_up o src_bit dst_bit n_bits 0 dst
    else move_down o src_bit dst_bit n_bits dst

abbrev pub keep_hi : List ℕ
keep_hi = 0x00 ∷ 0x80 ∷ 0xC0 ∷ 0xE0 ∷ 0xF0 ∷ 0xF8 ∷ 0xFC ∷ 0xFE ∷ 0xFF ∷ []

abbrev pub keep_lo : List ℕ
keep_lo = 0xFF ∷ 0x7F ∷ 0x3F ∷ 0x1F ∷ 0x0F ∷ 0x07 ∷ 0x03 ∷ 0x01 ∷ 0x00 ∷ []

-- `if (nbytes) memmove(dst, src, nbytes)`, at byte offsets.
pub move_whole : Origin → ℕ → ℕ → ℕ → Bytes → Option Bytes
move_whole o nbytes src dst m =
    if nbytes == 0 then some m else memmove (source o m) src m dst nbytes

-- `if (rem) { mask = keep_hi[rem]; *dst = (*dst & ~mask) | (*src & mask); }`.
pub merge_tail : Origin → ℕ → ℕ → ℕ → Bytes → Option Bytes
merge_tail o rem src dst m = if rem == 0 then some m else do
  mask ← get_elem? keep_hi rem
  d ← load m dst
  s ← load (source o m) src
  store m dst (bit_or (bit_and d (not8 mask)) (bit_and s mask))

-- The byte-aligned path; `src` and `dst` are byte offsets.
pub copy_aligned : Origin → ℕ → ℕ → ℕ → Bytes → Option Bytes
copy_aligned o n_bits src dst m = do
  let nbytes = n_bits / 8
  m' ← move_whole o nbytes src dst m
  merge_tail o (n_bits % 8) (src + nbytes) (dst + nbytes) m'

-- The first byte of the path with the same bit offset `dst_mod` on both sides.
pub merge_head : Origin → ℕ → ℕ → ℕ → ℕ → Bytes → Option Bytes
merge_head o dst_mod head src dst m = do
  lo ← get_elem? keep_lo dst_mod
  x ← load (source o m) src
  let s = u8 (bit_and x lo)
  hi ← get_elem? keep_hi dst_mod
  below ← get_elem? keep_lo (dst_mod + head)
  let mask_keep = u8 (bit_or hi below)
  d ← load m dst
  store m dst (bit_or (bit_and d mask_keep) (bit_and s (not8 mask_keep)))

-- `head = 8 - dst_mod; if (head > n_bits) head = n_bits;`.
abbrev pub head_bits : ℕ → ℕ → ℕ
head_bits dst_mod n_bits = let head = 8 - dst_mod in if ltb n_bits head then n_bits else head

pub copy_same_offset : Origin → ℕ → ℕ → ℕ → ℕ → Bytes → Option Bytes
copy_same_offset o n_bits dst_mod src dst m =
    if dst_mod == 0 then copy_aligned o n_bits src dst m else do
      let head = head_bits dst_mod n_bits
      m' ← merge_head o dst_mod head src dst m
      copy_aligned o (n_bits - head) (src + 1) (dst + 1) m'

-- `c = src[0] << src_mod; if (src_mod) c |= src[1] >> (8 - src_mod);`.
pub window_byte : Bytes → ℕ → ℕ → Option ℕ
window_byte p src src_mod = do
  x ← load p src
  let c = u8 (shl x src_mod)
  if src_mod == 0
      then some c
      else do y ← load p (src + 1); some (u8 (bit_or c (u8 (shr y (8 - src_mod)))))

-- `while (n_bits >= 8)`, with as many rounds as whole bytes are left.
pub move_window : Origin → ℕ → ℕ → ℕ → ℕ → Bytes → Option Bytes
move_window o src_mod zero src dst m = some m
move_window o src_mod (suc rounds) src dst m = do
  c ← window_byte (source o m) src src_mod
  m' ← store m dst c
  move_window o src_mod rounds (src + 1) (dst + 1) m'

-- The path after the first byte: whole bytes of the destination, then single bits.
pub copy_shifted_body : Origin → ℕ → ℕ → ℕ → Bytes → Option Bytes
copy_shifted_body o n_bits src_bit dst_bit m = do
  let rounds = n_bits / 8
  m' ← move_window o (src_bit % 8) rounds (src_bit / 8) (dst_bit / 8) m
  let left = n_bits % 8
  if left == 0
      then some m'
      else overlap_fallback o left (size_add src_bit (8 * rounds)) (size_add dst_bit (8 * rounds))
          m'

pub copy_shifted : Origin → ℕ → ℕ → ℕ → Bytes → Option Bytes
copy_shifted o n_bits src_bit dst_bit m =
    let dst_mod = dst_bit % 8 in
    if dst_mod == 0 then copy_shifted_body o n_bits src_bit dst_bit m else do
      let head = head_bits dst_mod n_bits
      m' ← overlap_fallback o head src_bit dst_bit m
      copy_shifted_body o (n_bits - head) (size_add src_bit head) (size_add dst_bit head) m'

-- `src_org == dst_org && src_bit == dst_bit`.
pub in_place : Origin → ℕ → ℕ → Bool
in_place same src_bit dst_bit = src_bit == dst_bit
in_place (apart src) src_bit dst_bit = false

-- The overlap check, made only within one buffer.
pub overlaps : Origin → ℕ → ℕ → ℕ → Bool
overlaps same n_bits src_bit dst_bit =
    ltb src_bit (size_add dst_bit n_bits) && ltb dst_bit (size_add src_bit n_bits)
overlaps (apart src) n_bits src_bit dst_bit = false

-- The paths for at least 8 bits that do not overlap.
pub copy_fast : Origin → ℕ → ℕ → ℕ → Bytes → Option Bytes
copy_fast o n_bits src_bit dst_bit m =
    if bit_or src_bit dst_bit % 8 == 0
    then copy_aligned o n_bits (src_bit / 8) (dst_bit / 8) m
    else if src_bit % 8 == dst_bit % 8
    then copy_same_offset o n_bits (dst_bit % 8) (src_bit / 8) (dst_bit / 8) m
    else copy_shifted o n_bits src_bit dst_bit m

-- The destination buffer after the call.
pub bitcpy : Origin → ℕ → ℕ → ℕ → Bytes → Option Bytes
bitcpy o n_bits src_bit dst_bit dst =
    if n_bits == 0
    then some dst
    else if in_place o src_bit dst_bit
    then some dst
    else if ltb n_bits 8
    then overlap_fallback o n_bits src_bit dst_bit dst
    else if overlaps o n_bits src_bit dst_bit
    then overlap_fallback o n_bits src_bit dst_bit dst
    else copy_fast o n_bits src_bit dst_bit dst
