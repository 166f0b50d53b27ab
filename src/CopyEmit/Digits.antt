-- ===== src/CopyEmit/Digits.antt =====
-- The digits of `reverse_byte` and of the masks of `field`.
use copy_space.Base.{
  ℕ, zero, suc, ◌+◌, ◌-◌, ◌<◌, ◌≤◌, ◌≡◌, refl, arith, List, [], ◌∷◌, Bool, true, ◌&&◌, ltb, leb,
  ◌==◌, ==_iff, if◌then◌else◌, some, get_elem?, get_or, length, every_entry, every_entry-at,
  testbit, testbit_at, testbit-mod, testbit-shr, testbit-le-one, testbit-bit_and, testbit-bit_or,
  bit_and, bit_or, ◌∙◌, ap, get_elem?-eq-get_or, Bool-cases, inl, inr,
}
use copy_space.Memory.{shr, u8, not8}
use copy_space.CopyEmit.{reverse_byte, chunk_mask}

-- Each entry of a table, from the number `v` on, is the mirror image of its index.
mirrored : List ℕ → ℕ → Bool
mirrored [] v = true
mirrored (x ∷ xs) v = every_entry 8 (λ k. testbit x k == testbit v (7 - k)) && mirrored xs (v + 1)

mirrored-at :
    (xs : List ℕ) (v j k : ℕ)
    → mirrored xs v ≡ true
    → j < length xs
    → k < 8
    → testbit (get_or xs j 0) k ≡ testbit (v + j) (7 - k)
unfolding mirrored
mirrored-at [] v j k h p q = absurd (omega arith)
mirrored-at (x ∷ xs) v zero k h p q =
    let here : every_entry 8 (λ i. testbit x i == testbit v (7 - i)) ≡ true = ground arith in
    (==_iff _ _).0 (every_entry-at 8 _ k here q)
    ∙ ap (λ t. testbit t (7 - k)) {x = v} {y = v + 0} (omega arith)
mirrored-at (x ∷ xs) v (suc j) k h p q =
    let there : mirrored xs (v + 1) ≡ true = ground arith in
    mirrored-at xs (v + 1) j k there (omega arith) q
    ∙ ap (λ t. testbit t (7 - k)) {x = v + 1 + j} {y = v + suc j} (omega arith)

reverse_byte-mirrored : mirrored reverse_byte 0 ≡ true
unfolding mirrored reverse_byte every_entry
reverse_byte-mirrored = refl

length-reverse_byte : length reverse_byte ≡ 256
unfolding reverse_byte
length-reverse_byte = refl

-- The entry of `reverse_byte` for a byte, and its digits.
pub reverse_byte-entry :
    (v : ℕ) → v < 256 → get_elem? reverse_byte v ≡ some (get_or reverse_byte v 0)
reverse_byte-entry v h = get_elem?-eq-get_or reverse_byte v 0 (omega (arith, length-reverse_byte))

pub testbit-reverse_byte :
    (v k : ℕ) → v < 256 → k < 8 → testbit (get_or reverse_byte v 0) k ≡ testbit v (7 - k)
testbit-reverse_byte v k h q =
    mirrored-at reverse_byte 0 v k reverse_byte-mirrored (omega (arith, length-reverse_byte)) q
    ∙ ap (λ t. testbit t (7 - k)) {x = 0 + v} {y = v} (omega arith)

mask_entry : ℕ → ℕ → ℕ → Bool
mask_entry offset count k =
    if leb (offset + count) 8
    then testbit (chunk_mask offset count) k
      == (if leb (8 - offset - count) k && ltb k (8 - offset) then 1 else 0)
    else true

mask_table :
    every_entry 8 (λ offset. every_entry 9 (λ count. every_entry 8 (mask_entry offset count)))
    ≡ true
unfolding every_entry mask_entry
mask_table = refl

-- The digits of the mask of `count` bits from `offset` on.
pub testbit-chunk_mask :
    (offset count k : ℕ)
    → offset < 8
    → offset + count ≤ 8
    → k < 8
    → testbit (chunk_mask offset count) k
      ≡ (if leb (8 - offset - count) k && ltb k (8 - offset) then 1 else 0)
unfolding mask_entry
testbit-chunk_mask offset count k h p q =
    let entry : mask_entry offset count k ≡ true =
      every_entry-at 8 _ k
        (every_entry-at 9 _ count (every_entry-at 8 _ offset mask_table h) (omega arith)) q in
    let inside : leb (offset + count) 8 ≡ true = ground arith in (==_iff _ _).0 (rw inside at entry)

not_mask_entry : ℕ → ℕ → ℕ → Bool
not_mask_entry offset count k =
    if leb (offset + count) 8
    then testbit (not8 (chunk_mask offset count)) k
      == (if leb (8 - offset - count) k && ltb k (8 - offset) then 0 else 1)
    else true

not_mask_table :
    every_entry 8 (λ offset. every_entry 9 (λ count. every_entry 8 (not_mask_entry offset count)))
    ≡ true
unfolding every_entry not_mask_entry
not_mask_table = refl

-- The digits of its complement.
pub testbit-not_chunk_mask :
    (offset count k : ℕ)
    → offset < 8
    → offset + count ≤ 8
    → k < 8
    → testbit (not8 (chunk_mask offset count)) k
      ≡ (if leb (8 - offset - count) k && ltb k (8 - offset) then 0 else 1)
unfolding not_mask_entry
testbit-not_chunk_mask offset count k h p q =
    let entry : not_mask_entry offset count k ≡ true =
      every_entry-at 8 _ k
        (every_entry-at 9 _ count (every_entry-at 8 _ offset not_mask_table h) (omega arith)) q in
    let inside : leb (offset + count) 8 ≡ true = ground arith in (==_iff _ _).0 (rw inside at entry)

-- What a round of `field` stores: the digits of `v` in the places of the mask.
unfoldable pub merged_byte : ℕ → ℕ → ℕ → ℕ → ℕ
merged_byte byte reversed offset count = u8 (
    bit_or (bit_and byte (not8 (chunk_mask offset count)))
      (bit_and (shr reversed offset) (chunk_mask offset count)))

pub testbit-merged_byte :
    (byte v offset count i : ℕ)
    → offset + count ≤ 8
    → offset < 8
    → v < 256
    → i < 8
    → testbit (merged_byte byte (get_or reverse_byte v 0) offset count) (7 - i) ≡ (
        if leb offset i && ltb i (offset + count)
        then testbit v (i - offset)
        else testbit byte (7 - i))
unfolding merged_byte
testbit-merged_byte byte v offset count i h p q r =
    let k = 7 - i in
    let x = get_or reverse_byte v 0 in
    let mask = chunk_mask offset count in
    testbit-mod (bit_or (bit_and byte (not8 mask)) (bit_and (shr x offset) mask)) 8 k (omega arith)
    ∙ testbit-bit_or (bit_and byte (not8 mask)) (bit_and (shr x offset) mask) k
    ∙ elim (Bool-cases (leb offset i && ltb i (offset + count))) [
      | inl inside ↦
          let at : testbit (shr x offset) k ≡ testbit v (i - offset) =
            testbit-shr x offset k
            ∙ testbit-reverse_byte v (offset + k) q (ground arith)
            ∙ testbit_at v (7 - (offset + k)) (i - offset) (ground arith) in
          rw inside (
            ground (
              arith,
              testbit-bit_and byte (not8 mask) k,
              testbit-bit_and (shr x offset) mask k,
              testbit-chunk_mask offset count k p h (omega arith),
              testbit-not_chunk_mask offset count k p h (omega arith),
              testbit-le-one v (i - offset),
            ))
      | inr outside ↦ rw outside (
          ground (
            arith,
            testbit-bit_and byte (not8 mask) k,
            testbit-bit_and (shr x offset) mask k,
            testbit-chunk_mask offset count k p h (omega arith),
            testbit-not_chunk_mask offset count k p h (omega arith),
            testbit-le-one byte k,
          ))
    ]
