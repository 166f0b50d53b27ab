-- ===== src/CopyEmit/AddBit.antt =====
-- What the six rows of one bit make of space.
use copy_space.Base.{ℕ, suc, ◌+◌, ◌-◌, ◌*◌, ◌^◌, ◌<◌, ◌≤◌, ◌≡◌, ◌≢◌, ◌∙◌, arith, ◌⊎◌, inl, inr}
use mathlib.Core.Path.{subst}
use native.Mathlib.Nat.{mul-le-mul_right}
use copy_space.Config.{Config, space_size, address_size}
use copy_space.Space.Model.{BitSpace, moved}
use copy_space.CopyEmit.Rows.{row}
use copy_space.CopyEmit.Machine.{
  Outside, Bits, moved-in, moved-out, moved-Bits, same_bit, digit-zero, RowIn, RowIn-kept, Steps,
  halt,
}
use copy_space.CopyEmit.Group.{
  set_bit, set_bit-at, set_bit-ne, source-set, slot_at, IsInside, step_ahead,
}

-- The rows from `at` on for the operand bits at `x` and `y`, the carry at `z`, the temporary at
-- `t`, the table at `e` and the result at `d`.
pub record AddRows (a : ℕ) (b : BitSpace) (at x y z t e d : ℕ) : Type 0 where
  pub first : RowIn a b at (row 1 (at + 3 * (3 * a - 1) + (a - 1) + a + 1) x)
  pub second : RowIn a b (at + (3 * a - 1)) (row 1 (at + 3 * (3 * a - 1) + (a - 1) + a + 2) y)
  pub third : RowIn a b (at + 2 * (3 * a - 1)) (row 1 (at + 3 * (3 * a - 1) + (a - 1) + a + 3) z)
  pub lookup : RowIn a b (at + 3 * (3 * a - 1)) (row 2 t e)
  pub result : RowIn a b (at + 4 * (3 * a - 1)) (row 1 d t)
  pub carry : RowIn a b (at + 5 * (3 * a - 1)) (row 1 z (t + 1))

-- A range of `n` bits that lies behind the code and in space.
pub record Behind (c : Config) (code p n : ℕ) : Type 0 where
  pub after_code : code ≤ p
  pub inside : p + n ≤ space_size c

-- Two ranges that do not meet.
abbrev pub Apart : ℕ → ℕ → ℕ → ℕ → Type 0
Apart p n q k = (p + n ≤ q) ⊎ (q + k ≤ p)

pub record AddPlaces (c : Config) (code at x y z t e d u : ℕ) : Type 0 where
  pub wide : 5 ≤ address_size c
  pub rows_inside : at + 6 * (3 * address_size c - 1) ≤ code
  pub code_inside : code ≤ space_size c
  pub x_place : Behind c code x 1
  pub y_place : Behind c code y 1
  pub z_place : Behind c code z 1
  pub t_place : Behind c code t 2
  pub e_place : Behind c code e 16
  pub d_place : Behind c code d 1
  pub aligned : e ≡ u * 16
  pub table_temporary : Apart e 16 t 2
  pub carry_temporary : Apart z 1 t 2
  pub result_temporary : Apart d 1 t 2
  pub result_carry : d ≢ z

-- The entry that the three bits choose.
abbrev pub chosen : BitSpace → ℕ → ℕ → ℕ → ℕ → ℕ
chosen b x y z e = e + 2 * (b x + 2 * b y + 4 * b z)

-- The result and the carry come from the table; all else behind the code but the temporary, and
-- the code of the slots further on, is as it was.
pub record Added (code at x y z t e d a : ℕ) (b b' : BitSpace) : Type 0 where
  pub bits : Bits b'
  pub result : b' d ≡ b (chosen b x y z e)
  pub carry : b' z ≡ b (chosen b x y z e + 1)
  pub behind : (p : ℕ) → code ≤ p → p ≢ d → p ≢ z → Outside t 2 p → b' p ≡ b p
  pub ahead : (p : ℕ) → at + 6 * (3 * a - 1) ≤ p → p < code → b' p ≡ b p

module _ (c : Config) (j code x y z t e d u : ℕ) (b : BitSpace) (w : Bits b)
    (rows : AddRows (address_size c) b (slot_at c j) x y z t e d)
    (v : AddPlaces c code (slot_at c j) x y z t e d u) where
  abbrev a : ℕ
  a = address_size c

  abbrev at : ℕ
  at = slot_at c j

  abbrev len : ℕ
  len = 3 * a - 1

  -- The source field of the row that looks the sum up.
  abbrev f : ℕ
  f = at + 3 * len + (a - 1) + a

  abbrev b1 : BitSpace
  b1 = set_bit x (f + 1) b

  abbrev b2 : BitSpace
  b2 = set_bit y (f + 2) b1

  abbrev b3 : BitSpace
  b3 = set_bit z (f + 3) b2

  abbrev place : ℕ
  place = chosen b x y z e

  abbrev b4 : BitSpace
  b4 = moved 2 place t b3

  abbrev b5 : BitSpace
  b5 = set_bit t d b4

  abbrev b6 : BitSpace
  b6 = set_bit (t + 1) z b5

  before_code : f + 4 ≤ at + 4 * len
  before_code = omega (arith, v.wide)

  -- Only the source field of the fourth row changes before the lookup.
  b3-same : (p : ℕ) → (p < at + 3 * len) ⊎ (at + 4 * len ≤ p) → b3 p ≡ b p
  b3-same p (inl h) =
      set_bit-ne z (f + 3) b2 p (omega arith)
      ∙ set_bit-ne y (f + 2) b1 p (omega arith)
      ∙ set_bit-ne x (f + 1) b p (omega arith)
  b3-same p (inr h) =
      set_bit-ne z (f + 3) b2 p (omega (arith, before_code))
      ∙ set_bit-ne y (f + 2) b1 p (omega (arith, before_code))
      ∙ set_bit-ne x (f + 1) b p (omega (arith, before_code))

  -- What the lookup, the result and the carry leave alone.
  b6-same : (p : ℕ) → p ≢ d → p ≢ z → Outside t 2 p → b6 p ≡ b3 p
  b6-same p nd nz o =
      set_bit-ne (t + 1) z b5 p nz ∙ set_bit-ne t d b4 p nd ∙ moved-out 2 place t b3 p o

  low_zero : (i : ℕ) → i < 4 → b (f + i) ≡ 0
  low_zero i h = digit-zero b f a 4 i u w h (omega (arith, v.wide)) (rows.lookup.src ∙ v.aligned)

  y_same : b1 y ≡ b y
  y_same =
      set_bit-ne x (f + 1) b y (omega (arith, before_code, v.rows_inside, v.y_place.after_code))

  z_same : b2 z ≡ b z
  z_same =
      set_bit-ne y (f + 2) b1 z (omega (arith, before_code, v.rows_inside, v.z_place.after_code))
      ∙ set_bit-ne x (f + 1) b z (omega (arith, before_code, v.rows_inside, v.z_place.after_code))

  lookup1 : RowIn a b1 (at + 3 * len) (row 2 t (e + 2 ^ 1 * b x))
  lookup1 =
      source-set a b (at + 3 * len) 2 t e 1 x (omega (arith, v.wide)) (omega (arith, v.wide))
        rows.lookup (low_zero 1 (omega arith))

  lookup2 : RowIn a b2 (at + 3 * len) (row 2 t (e + 2 ^ 1 * b x + 2 ^ 2 * b1 y))
  lookup2 =
      source-set a b1 (at + 3 * len) 2 t (e + 2 ^ 1 * b x) 2 y (omega (arith, v.wide))
        (omega (arith, v.wide)) lookup1
        (set_bit-ne x (f + 1) b (f + 2) (omega arith) ∙ low_zero 2 (omega arith))

  lookup3 : RowIn a b3 (at + 3 * len) (row 2 t place)
  lookup3 =
      subst (λ s. RowIn a b3 (at + 3 * len) (row 2 t s))
        {x = e + 2 ^ 1 * b x + 2 ^ 2 * b1 y + 2 ^ 3 * b2 z} {y = place}
        (omega (arith, y_same, z_same))
        (source-set a b2 (at + 3 * len) 2 t (e + 2 ^ 1 * b x + 2 ^ 2 * b1 y) 3 z
          (omega (arith, v.wide)) (omega (arith, v.wide)) lookup2
          (set_bit-ne y (f + 2) b1 (f + 3) (omega arith)
            ∙ set_bit-ne x (f + 1) b (f + 3) (omega arith)
            ∙ low_zero 3 (omega arith)))

  -- The code of the later slots is as it was when they run.
  later :
      (k : ℕ) (n s r : ℕ) (b' : BitSpace)
      → 4 ≤ k
      → k < 6
      → ((p : ℕ) → p < code → b' p ≡ b3 p)
      → RowIn a b (at + k * len) (row n r s)
      → RowIn a b' (at + k * len) (row n r s)
  later k n s r b' h l same row_is =
      let low = mul-le-mul_right {m = 4} {n = k} len h in
      let high = mul-le-mul_right {m = k + 1} {n = 6} len (omega arith) in
      let spread = one_more k len in
      RowIn-kept a b b' (at + k * len) (row n r s) (omega (arith, v.wide))
        (λ p q m. same p (omega (arith, v.rows_inside)) ∙ b3-same p (inr (omega arith))) row_is
    where
      one_more : (x y : ℕ) → (x + 1) * y ≡ x * y + y
      one_more x y = grind arith

  b4-code : (p : ℕ) → p < code → b4 p ≡ b3 p
  b4-code p h = moved-out 2 place t b3 p (inl (omega (arith, v.t_place.after_code)))

  b5-code : (p : ℕ) → p < code → b5 p ≡ b3 p
  b5-code p h = set_bit-ne t d b4 p (omega (arith, v.d_place.after_code)) ∙ b4-code p h

  code_place : (i : ℕ) → i < 4 → IsInside c (f + i) 1
  code_place i h = (
    omega
        (arith, before_code, v.rows_inside, v.code_inside, v.x_place.after_code, v.x_place.inside),
    omega (arith, before_code, v.rows_inside, v.code_inside),
  )

  lookup_range : Behind c code e 16 → (b x + 2 * b y + 4 * b z ≤ 7) × IsInside c place 2
  lookup_range k =
      let small : b x + 2 * b y + 4 * b z ≤ 7 = omega (arith, w x, w y, w z) in
      (small, (omega (arith, k.inside), omega (arith, k.inside)))

  add_bit-Steps : Steps c 6 j b b6
  add_bit-Steps =
      let low : 1 ≤ a = omega (arith, v.wide) in
      let x_in : IsInside c x 1 = (omega (arith, v.x_place.inside), v.x_place.inside) in
      let y_in : IsInside c y 1 = (omega (arith, v.y_place.inside), v.y_place.inside) in
      let z_in : IsInside c z 1 = (omega (arith, v.z_place.inside), v.z_place.inside) in
      let d_in : IsInside c d 1 = (omega (arith, v.d_place.inside), v.d_place.inside) in
      let t_in : IsInside c t 2 = (omega (arith, v.t_place.inside), v.t_place.inside) in
      let t_first : IsInside c t 1 =
        (omega (arith, v.t_place.inside), omega (arith, v.t_place.inside)) in
      let t_second : IsInside c (t + 1) 1 =
        (omega (arith, v.t_place.inside), omega (arith, v.t_place.inside)) in
      let second =
        RowIn-kept a b b1 (at + len) (row 1 (f + 2) y) low
          (λ p q m. set_bit-ne x (f + 1) b p (omega arith)) rows.second in
      let third =
        RowIn-kept a b b2 (at + 2 * len) (row 1 (f + 3) z) low
          (λ p q m.
            set_bit-ne y (f + 2) b1 p (omega arith) ∙ set_bit-ne x (f + 1) b p (omega arith))
          rows.third in
      step_ahead c j 0 5 j at b b6 1 (f + 1) x low (omega arith) (omega arith) rows.first
        (omega arith) (code_place 1 (omega arith)) x_in
        (step_ahead c j 1 4 (suc j) (at + len) b1 b6 1 (f + 2) y low (omega arith) (omega arith)
          second (omega arith) (code_place 2 (omega arith)) y_in
          (step_ahead c j 2 3 (suc (suc j)) (at + 2 * len) b2 b6 1 (f + 3) z low (omega arith)
            (omega arith) third (omega arith) (code_place 3 (omega arith)) z_in
            (step_ahead c j 3 2 (suc (suc (suc j))) (at + 3 * len) b3 b6 2 t place low (omega arith)
              (omega arith) lookup3 (omega arith) t_in (lookup_range v.e_place).1
              (step_ahead c j 4 1 (suc (suc (suc (suc j)))) (at + 4 * len) b4 b6 1 d t low
                (omega arith) (omega arith)
                (later 4 1 t d b4 (omega arith) (omega arith) b4-code rows.result) (omega arith)
                d_in t_first
                (step_ahead c j 5 0 (suc (suc (suc (suc (suc j))))) (at + 5 * len) b5 b6 1 z (t + 1)
                  low (omega arith) (omega arith)
                  (later 5 1 (t + 1) z b5 (omega arith) (omega arith) b5-code rows.carry)
                  (omega arith) z_in t_second halt)))))

  -- A bit behind the code is as it was before the lookup.
  behind-b3 : (p : ℕ) → code ≤ p → b3 p ≡ b p
  behind-b3 p h = b3-same p (inr (omega (arith, v.rows_inside)))

  add_bit-Added : Added code at x y z t e d a b b6
  add_bit-Added =
      let small = (lookup_range v.e_place).0 in
      record {
        bits = moved-Bits 1 (t + 1) z b5 (
            moved-Bits 1 t d b4 (
              moved-Bits 2 place t b3 (
                moved-Bits 1 z (f + 3) b2
                  (moved-Bits 1 y (f + 2) b1 (moved-Bits 1 x (f + 1) b w)))));
        result =
            set_bit-ne (t + 1) z b5 d v.result_carry
            ∙ set_bit-at t d b4
            ∙ moved-in 2 place t b3 t (omega arith) (omega arith)
            ∙ same_bit b3 {p = place + (t - t)} {q = place} (omega arith)
            ∙ behind-b3 place (omega (arith, v.e_place.after_code));
        carry =
            set_bit-at (t + 1) z b5
            ∙ set_bit-ne t d b4 (t + 1) (beside v.result_temporary)
            ∙ moved-in 2 place t b3 (t + 1) (omega arith) (omega arith)
            ∙ same_bit b3 {p = place + (t + 1 - t)} {q = place + 1} (omega arith)
            ∙ behind-b3 (place + 1) (omega (arith, v.e_place.after_code));
        behind = λ p h nd nz o. b6-same p nd nz o ∙ behind-b3 p h;
        ahead = λ p h l.
            b6-same p (omega (arith, v.d_place.after_code)) (omega (arith, v.z_place.after_code))
              (inl (omega (arith, v.t_place.after_code)))
            ∙ b3-same p (inr (omega arith));
      }
    where
      beside : Apart d 1 t 2 → t + 1 ≢ d
      beside (inl h) = omega arith
      beside (inr h) = omega arith

  pub add_bit_runs : (b' : BitSpace) × Steps c 6 j b b' × Added code at x y z t e d a b b'
  add_bit_runs = (b6, add_bit-Steps, add_bit-Added)
