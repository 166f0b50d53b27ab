-- ===== src/CopyEmit/Ripple.antt =====
-- The bits of a sum, one after the other.
use copy_space.Base.{
  ℕ, zero, suc, ◌+◌, ◌-◌, ◌*◌, ◌<◌, ◌≤◌, ◌≡◌, ◌≢◌, refl, ap, ◌∙◌, arith, ◌⊎◌, inl, inr, Bool-cases,
  ◌==◌,
}
use mathlib.Core.Path.{subst}
use native.Mathlib.Nat.{mul-le-mul_right}
use copy_space.Config.{Config, address_size, instruction_size}
use copy_space.Space.Model.{BitSpace}
use copy_space.CopyEmit.Machine.{Outside, Bits, same_bit, Steps, halt, Steps-append}
use copy_space.CopyEmit.Group.{slot_at, slot_ahead}
use copy_space.CopyEmit.Carries.{AddLayout, AddRows-kept, carry_at, place_at}
use copy_space.CopyEmit.AddBit.{AddRows, AddPlaces, Behind, Apart, Added, chosen, add_bit_runs}

module _ (c : Config) (code j dest left right table t z u : ℕ) (b : BitSpace) (w : Bits b)
    (v : AddLayout c code j dest left right table t z u)
    (rows : (k : ℕ)
      → k < 32
      → AddRows
          (address_size c)
          b
          (slot_at c (j + 6 * k))
          (left + k)
          (right + k)
          z
          t
          table
          (dest + k)) where
  -- After `k` bits.
  record Rippled (k : ℕ) (b' : BitSpace) : Type 0 where
    bits : Bits b'
    sums : (i : ℕ) → i < k → b' (dest + i) ≡ b (place_at b left right table z i)
    carry : b' z ≡ carry_at b left right table z k
    behind : (p : ℕ) → code ≤ p → Outside dest k p → p ≢ z → Outside t 2 p → b' p ≡ b p
    ahead : (p : ℕ) → slot_at c (j + 6 * k) ≤ p → p < code → b' p ≡ b p

  six_slots :
      (k : ℕ) → slot_at c (j + 6 * suc k) ≡ slot_at c (j + 6 * k) + 6 * (3 * address_size c - 1)
  six_slots k =
      ap (slot_at c) {x = j + 6 * suc k} {y = j + 6 * k + 6} (omega arith)
      ∙ slot_ahead c (j + 6 * k) 6 (omega (arith, v.wide))

  room : (k : ℕ) → k < 32 → slot_at c (j + 6 * k) + 6 * (3 * address_size c - 1) ≤ code
  room k h =
      let reach =
        mul-le-mul_right {m = j + 6 * suc k} {n = j + 192} (instruction_size c) (omega arith) in
      omega (arith, six_slots k, v.rows_inside)

  places :
      (k : ℕ)
      → k < 32
      → AddPlaces c code (slot_at c (j + 6 * k)) (left + k) (right + k) z t table (dest + k) u
  places k h = record {
    wide = v.wide;
    rows_inside = room k h;
    code_inside = v.code_inside;
    x_place = within v.left_place;
    y_place = within v.right_place;
    z_place = v.z_place;
    t_place = v.t_place;
    e_place = v.e_place;
    d_place = within v.d_place;
    aligned = v.aligned;
    table_temporary = v.table_temporary;
    carry_temporary = v.carry_temporary;
    result_temporary = one_of v.dest_temporary;
    result_carry = not_carry v.dest_carry;
  }
    where
      within : {p : ℕ} → Behind c code p 32 → Behind c code (p + k) 1
      within w = record {
        after_code = omega (arith, w.after_code);
        inside = omega (arith, w.inside);
      }

      one_of : Apart dest 32 t 2 → Apart (dest + k) 1 t 2
      one_of (inl l) = inl (omega arith)
      one_of (inr l) = inr (omega arith)

      not_carry : Apart dest 32 z 1 → dest + k ≢ z
      not_carry (inl l) = omega arith
      not_carry (inr l) = omega arith

  -- Bit `k` of an operand is still what it was when it is read.
  operand :
      (x k : ℕ) (b' : BitSpace)
      → k < 32
      → Rippled k b'
      → Behind c code x 32
      → Apart x 32 z 1
      → Apart x 32 t 2
      → (x ≡ dest) ⊎ Apart x 32 dest 32
      → b' (x + k) ≡ b (x + k)
  operand x k b' h r at nz nt nd =
      r.behind (x + k) (omega (arith, at.after_code)) (outside nd) (apart_z nz) (apart_t nt)
    where
      outside : (x ≡ dest) ⊎ Apart x 32 dest 32 → Outside dest k (x + k)
      outside (inl e) = inr (omega arith)
      outside (inr (inl l)) = inl (omega arith)
      outside (inr (inr l)) = inr (omega arith)

      apart_z : Apart x 32 z 1 → x + k ≢ z
      apart_z (inl l) = omega arith
      apart_z (inr l) = omega arith

      apart_t : Apart x 32 t 2 → Outside t 2 (x + k)
      apart_t (inl l) = inl (omega arith)
      apart_t (inr l) = inr (omega arith)

  -- An entry of the table is as it was.
  entry_same :
      (k i : ℕ) (b' : BitSpace) → k ≤ 32 → i < 16 → Rippled k b' → b' (table + i) ≡ b (table + i)
  entry_same k i b' h l r =
      r.behind (table + i) (omega (arith, v.e_place.after_code)) (apart_d v.table_dest)
        (apart_z v.table_carry) (apart_t v.table_temporary)
    where
      apart_d : Apart table 16 dest 32 → Outside dest k (table + i)
      apart_d (inl m) = inl (omega arith)
      apart_d (inr m) = inr (omega arith)

      apart_z : Apart table 16 z 1 → table + i ≢ z
      apart_z (inl m) = omega arith
      apart_z (inr m) = omega arith

      apart_t : Apart table 16 t 2 → Outside t 2 (table + i)
      apart_t (inl m) = inl (omega arith)
      apart_t (inr m) = inr (omega arith)

  carry-le : (k : ℕ) → carry_at b left right table z k ≤ 1
  unfolding carry_at
  carry-le zero = w z
  carry-le (suc k) = w _

  -- The entry that round `k` looks up.
  same_place :
      (k : ℕ) (b' : BitSpace)
      → k < 32
      → Rippled k b'
      → chosen b' (left + k) (right + k) z table ≡ place_at b left right table z k
  unfolding place_at
  same_place k b' h r = omega (
    arith,
    operand left k b' h r v.left_place v.left_carry v.left_temporary v.left_dest,
    operand right k b' h r v.right_place v.right_carry v.right_temporary v.right_dest,
    r.carry,
  )

  looked_up :
      (k i : ℕ) (b' : BitSpace)
      → k < 32
      → i ≤ 1
      → Rippled k b'
      → b' (chosen b' (left + k) (right + k) z table + i) ≡ b (place_at b left right table z k + i)
  unfolding place_at
  looked_up k i b' h l r =
      let x = w (left + k) in
      let y = w (right + k) in
      let carry = carry-le k in
      let o = place_at b left right table z k - table in
      ap (λ p. b' (p + i)) (same_place k b' h r)
      ∙ same_bit b' {p = place_at b left right table z k + i} {q = table + (o + i)} (omega arith)
      ∙ entry_same k (o + i) b' (omega arith) (omega arith) r
      ∙ same_bit b {p = table + (o + i)} {q = place_at b left right table z k + i} (omega arith)

  ripple_step :
      (k : ℕ) (b' b'' : BitSpace)
      → k < 32
      → Rippled k b'
      → Added code
          (slot_at c (j + 6 * k))
          (left + k)
          (right + k)
          z
          t
          table
          (dest + k)
          (address_size c)
          b'
          b''
      → Rippled (suc k) b''
  unfolding carry_at place_at
  ripple_step k b' b'' h r s = record {
    bits = s.bits;
    sums = λ i l. elim (Bool-cases (i == k)) [
      | inl e ↦
          let same : i ≡ k = ground arith in
          let zero_more = looked_up k 0 b' h (omega arith) r in
          rw same (
            s.result
            ∙ same_bit b' {p = chosen b' (left + k) (right + k) z table}
                {q = chosen b' (left + k) (right + k) z table + 0} (omega arith)
            ∙ zero_more
            ∙ same_bit b {p = place_at b left right table z k + 0}
                {q = place_at b left right table z k} (omega arith))
      | inr e ↦
          let less : i < k = ground arith in
          s.behind (dest + i) (omega (arith, v.d_place.after_code)) (omega arith)
            (not_carry i (omega arith) v.dest_carry)
            (not_temporary i (omega arith) v.dest_temporary)
          ∙ r.sums i less
    ];
    carry = s.carry ∙ looked_up k 1 b' h (omega arith) r;
    behind = λ p l o nz nt. s.behind p l (not_next p o) nz nt ∙ r.behind p l (not_before p o) nz nt;
    ahead = λ p l m.
        s.ahead p (omega (arith, six_slots k)) m ∙ r.ahead p (omega (arith, six_slots k)) m;
  }
    where
      not_carry : (i : ℕ) → i < 32 → Apart dest 32 z 1 → dest + i ≢ z
      not_carry i l (inl m) = omega arith
      not_carry i l (inr m) = omega arith

      not_temporary : (i : ℕ) → i < 32 → Apart dest 32 t 2 → Outside t 2 (dest + i)
      not_temporary i l (inl m) = inl (omega arith)
      not_temporary i l (inr m) = inr (omega arith)

      not_next : (p : ℕ) → Outside dest (suc k) p → p ≢ dest + k
      not_next p (inl m) = omega arith
      not_next p (inr m) = omega arith

      not_before : (p : ℕ) → Outside dest (suc k) p → Outside dest k p
      not_before p (inl m) = inl m
      not_before p (inr m) = inr (omega arith)

  ripple :
      (todo k : ℕ) (b' : BitSpace)
      → k + todo ≡ 32
      → Rippled k b'
      → (b'' : BitSpace) × Steps c (6 * todo) (j + 6 * k) b' b'' × Rippled 32 b''
  ripple zero k b' e r = (
    b',
    subst (λ n. Steps c n (j + 6 * k) b' b') {x = 0} {y = 6 * 0} (omega arith) halt,
    subst (λ n. Rippled n b') {x = k} {y = 32} (omega arith) r,
  )
  ripple (suc todo) k b' e r =
      let here =
        AddRows-kept (address_size c) b b' (slot_at c (j + 6 * k)) (left + k) (right + k) z t table
          (dest + k) code (omega (arith, v.wide)) (room k (omega arith)) r.ahead
          (rows k (omega arith)) in
      let (b1, s, d) =
        add_bit_runs c (j + 6 * k) code (left + k) (right + k) z t table (dest + k) u b' r.bits here
          (places k (omega arith)) in
      let (b2, s', r') =
        ripple todo (suc k) b1 (omega arith) (ripple_step k b' b1 (omega arith) r d) in
      (
        b2,
        subst (λ n. Steps c n (j + 6 * k) b' b2) {x = 6 + 6 * todo} {y = 6 * suc todo} (omega arith)
            (Steps-append c 6 (6 * todo) (j + 6 * k) (j + 6 * suc k) b' b1 b2 (omega arith) s s'),
        r',
      )

  start : Rippled 0 b
  unfolding carry_at
  start = record {
    bits = w;
    sums = λ i l. absurd (omega arith);
    carry = refl;
    behind = λ p l o nz nt. refl;
    ahead = λ p l m. refl;
  }

  -- The 192 rows: every bit of the result is the entry of the table that the operand bits and the
  -- carry choose.
  pub record Summed (b' : BitSpace) : Type 0 where
    pub all_bits : Bits b'
    pub sums : (i : ℕ) → i < 32 → b' (dest + i) ≡ b (place_at b left right table z i)
    pub kept : (p : ℕ) → code ≤ p → Outside dest 32 p → p ≢ z → Outside t 2 p → b' p ≡ b p

  pub ripple_runs : (b' : BitSpace) × Steps c 192 j b b' × Summed b'
  ripple_runs =
      let (b', s, r) = ripple 32 0 b (omega arith) start in
      (
        b',
        subst (λ i. Steps c 192 i b b') {x = j + 6 * 0} {y = j} (omega arith) s,
        record { all_bits = r.bits; sums = r.sums; kept = r.behind },
      )
