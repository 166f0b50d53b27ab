-- ===== src/CopyEmit/Layout.antt =====
-- What `add_valid` demands of the operands of an addition.
use copy_space.Base.{
  pow-le, ℕ, ◌+◌, ◌-◌, ◌*◌, ◌%◌, ◌^◌, ◌<◌, ◌≤◌, ◌≡◌, ap, arith, Bool, true, false, not, ◌||◌, ltb,
  ◌==◌, ◌⊎◌, inl, inr, Bool-cases, List, [], ◌∷◌, bit_and, bit_and-low_mask,
}
use copy_space.CopyEmit.{CopyImage, fits}
use copy_space.CopyEmit.Code.{
  overlaps, Operands, Range, add_ranges, range_refused, meets_any, any_refused, meets_partly,
  pairs_meet, add_valid,
}
use copy_space.CopyEmit.Rows.{IsImage}
use copy_space.CopyEmit.AddBit.{Apart}

neither : (p q : Bool) → (p || q) ≡ false → (p ≡ false) × (q ≡ false)
neither p q h = (ground arith, ground arith)

none_of_three : (p q r : Bool) → (p || q || r) ≡ false → (p ≡ false) × (q ≡ false) × (r ≡ false)
none_of_three p q r h = (ground arith, ground arith, ground arith)

none_of_nine :
    (a b c d e f g h i : Bool)
    → not (a || b || c || d || e || f || g || h || i) ≡ true
    → (a ≡ false)
      × (b ≡ false)
      × (c ≡ false)
      × (d ≡ false)
      × (e ≡ false)
      × (f ≡ false)
      × (g ≡ false)
      × (h ≡ false)
      × (i ≡ false)
none_of_nine a b c d e f g h i j = (
  ground arith,
  ground arith,
  ground arith,
  ground arith,
  ground arith,
  ground arith,
  ground arith,
  ground arith,
  ground arith,
)

-- A range in space, apart from the template layer and behind the layer that runs.
pub record RangeFree (image : CopyImage) (r : Range) : Type 0 where
  pub inside : r.0 + r.1 ≤ image.space_bits
  pub off_layer : Apart r.0 r.1 image.layer image.layer_bits
  pub after_code : image.layer_bits ≤ r.0

abbrev pub AllFree : CopyImage → List Range → Type 0
AllFree image [] = Unit {0}
AllFree image (r ∷ rs) = RangeFree image r × AllFree image rs

abbrev pub AllApart : Range → List Range → Type 0
AllApart r [] = Unit {0}
AllApart r (r' ∷ rs) = Apart r.0 r.1 r'.0 r'.1 × AllApart r rs

overlaps-Apart :
    (a n b k : ℕ) → a + n < 2 ^ 32 → b + k < 2 ^ 32 → overlaps a n b k ≡ false → Apart a n b k
unfolding overlaps
overlaps-Apart a n b k h l e = elim (Bool-cases (ltb a (b + k))) [
  | inl low ↦ inl (ground arith)
  | inr high ↦ inr (ground arith)
]

pub space_small : (image : CopyImage) → IsImage image → image.space_bits ≤ 2 ^ 31
space_small image v =
    let d = 31 - image.address_bits in
    let top =
      ap (λ t. 2 ^ t) {x = image.address_bits + d} {y = 31} (omega (arith, v.address_high)) in
    omega (arith, v.space_is, pow-le d image.address_bits, top)

range_refused-Free :
    (image : CopyImage) (r : Range)
    → IsImage image
    → 1 ≤ r.1
    → range_refused image r ≡ false
    → RangeFree image r
unfolding range_refused fits
range_refused-Free image (a, n) v some_bits h =
    let small = space_small image v in
    let layer : image.layer + image.layer_bits < 2 ^ 32 =
      omega (arith, v.layer_fits, v.bytes_fit, v.space_is) in
    let (fit, off, low) = none_of_three (not (fits a n image.space_bits)) _ _ h in
    let inside : a + n ≤ image.space_bits = ground (arith, fit) in
    record {
      inside = inside;
      off_layer = overlaps-Apart a n image.layer image.layer_bits (omega arith) layer off;
      after_code = behind (overlaps-Apart a n 0 image.layer_bits (omega arith) (omega arith) low);
    }
  where
    behind : Apart a n 0 image.layer_bits → image.layer_bits ≤ a
    behind (inl l) = absurd (omega arith)
    behind (inr l) = omega arith

abbrev pub Wide : List Range → Type 0
Wide [] = Unit {0}
Wide (r ∷ rs) = (1 ≤ r.1) × Wide rs

any_refused-AllFree :
    (image : CopyImage) (rs : List Range)
    → IsImage image
    → Wide rs
    → any_refused image rs ≡ false
    → AllFree image rs
unfolding any_refused
any_refused-AllFree image [] v w h = tt
any_refused-AllFree image (r ∷ rs) v (w, ws) h =
    let (one, more) = neither _ _ h in
    (range_refused-Free image r v w one, any_refused-AllFree image rs v ws more)

meets_any-AllApart :
    (image : CopyImage) (r : Range) (rs : List Range)
    → IsImage image
    → RangeFree image r
    → AllFree image rs
    → meets_any r rs ≡ false
    → AllApart r rs
unfolding meets_any
meets_any-AllApart image r [] v f fs h = tt
meets_any-AllApart image (a, n) ((b, k) ∷ rs) v f (g, gs) h =
    let (one, more) = neither _ _ h in
    let small = space_small image v in
    (
      overlaps-Apart a n b k (omega (arith, f.inside)) (omega (arith, g.inside)) one,
      meets_any-AllApart image (a, n) rs v f gs more,
    )

meets_partly-Apart :
    (image : CopyImage) (d a : ℕ)
    → IsImage image
    → RangeFree image (d, 32)
    → RangeFree image (a, 32)
    → meets_partly d a ≡ false
    → (a ≡ d) ⊎ Apart d 32 a 32
meets_partly-Apart image d a v f g h = elim (Bool-cases (d == a)) [
  | inl e ↦ inl (ground arith)
  | inr e ↦
      let small = space_small image v in
      inr (
        overlaps-Apart d 32 a 32 (omega (arith, f.inside)) (omega (arith, g.inside))
          (ground (arith, h)))
]

-- All that `add_valid` makes sure of.
pub record AddSafe (image : CopyImage) (x : Operands) : Type 0 where
  pub wide : 5 ≤ image.address_bits
  pub room : image.slot + 193 ≤ 255
  pub aligned : x.table % 16 ≡ 0
  pub free : AllFree image (add_ranges x)
  pub table_apart : AllApart (x.table, 16) ((x.destination, 32) ∷ (x.left, 32) ∷ (x.right, 32) ∷ [])
  pub temporary_apart :
      AllApart
        (x.temporary, 2)
        ((x.table, 16) ∷ (x.destination, 32) ∷ (x.left, 32) ∷ (x.right, 32) ∷ [])
  pub carry_apart :
      AllApart
        (x.carry, 1)
        ((x.table, 16) ∷ (x.temporary, 2) ∷ (x.destination, 32) ∷ (x.left, 32) ∷ (x.right, 32) ∷ [])
  pub left_whole : (x.left ≡ x.destination) ⊎ Apart x.destination 32 x.left 32
  pub right_whole : (x.right ≡ x.destination) ⊎ Apart x.destination 32 x.right 32
  pub table_held : x.table + 16 ≤ 8 * image.bytes
  pub carry_held : x.carry + 1 ≤ 8 * image.bytes

pub add_valid-AddSafe :
    (image : CopyImage) (x : Operands) → IsImage image → add_valid image x ≡ true → AddSafe image x
unfolding add_valid fits
add_valid-AddSafe image x v h =
    let (narrow, full, low, ranges, pairs, l_part, r_part, t_fit, z_fit) =
      none_of_nine (ltb image.address_bits 5) (ltb (255 - 193) image.slot)
        (not (bit_and x.table 15 == 0)) (any_refused image (add_ranges x)) (pairs_meet x)
        (meets_partly x.destination x.left) (meets_partly x.destination x.right) _ _ h in
    let free : AllFree image (add_ranges x) =
      any_refused-AllFree image (add_ranges x) v
        (omega arith, (omega arith, (omega arith, (omega arith, (omega arith, (omega arith, tt))))))
        ranges in
    let (d, (l, (r, (e, (t, (z, nothing)))))) = free in
    let (e_off, t_off, z_off) =
      none_of_three (meets_any (x.table, 16) _) (meets_any (x.temporary, 2) _)
        (meets_any (x.carry, 1) _) pairs in
    let digits : bit_and x.table 15 ≡ x.table % 16 = bit_and-low_mask 4 x.table in
    let size = space_small image v in
    let bytes = v.bytes_fit in
    let space = v.space_is in
    record {
      wide = ground (arith, narrow);
      room = ground (arith, full);
      aligned = ground (arith, low, digits);
      free = free;
      table_apart = meets_any-AllApart image (x.table, 16) _ v e (d, (l, (r, tt))) e_off;
      temporary_apart =
          meets_any-AllApart image (x.temporary, 2) _ v t (e, (d, (l, (r, tt)))) t_off;
      carry_apart = meets_any-AllApart image (x.carry, 1) _ v z (e, (t, (d, (l, (r, tt))))) z_off;
      left_whole = meets_partly-Apart image x.destination x.left v d l l_part;
      right_whole = meets_partly-Apart image x.destination x.right v d r r_part;
      table_held = ground (arith, t_fit);
      carry_held = ground (arith, z_fit);
    }
