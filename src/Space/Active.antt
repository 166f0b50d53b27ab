-- ===== src/Space/Active.antt =====
-- `space_active` tells whether some instruction of space is active.
use copy_space.Base.{
  ℕ, zero, suc, ◌+◌, ◌<◌, ◌≤◌, ◌≡◌, refl, ap, ap₂, ◌∙◌, arith, length, List, [], ◌∷◌, get_elem?,
  take,
}
use copy_space.Base.{
  some, ◌>>=◌, ◌||◌, ◌==◌, not, get_elem?-set_self, get_elem?-set_ne, Bool-cases, inl, inr,
}
use copy_space.Memory.{Bytes}
use copy_space.BitCopy.Spec.{Returns}
use copy_space.Config.{Config, IsConfig}
use copy_space.Space.{
  Machine, Instruction, read_from, space_read_processor, any_active, space_active,
}
use copy_space.Space.Valid.{IsMachine, decode, fetched, fetch_instruction-eq, fetched-IsMachine}
use copy_space.Space.Model
use copy_space.Space.Model.{bits_of}
use copy_space.Space.Compute.{instruction-decode}

-- What reading the slots from `i` on leaves in `processor`.
record Loaded (c : Config) (left i : ℕ) (m m' : Machine) : Type 0 where
  sizes : IsMachine c m'
  same_space : m'.space ≡ m.space
  rows : (j : ℕ) → i ≤ j → j < i + left → get_elem? m'.processor j ≡ some (decode c m.space j)
  others : (j : ℕ) → j < i → get_elem? m'.processor j ≡ get_elem? m.processor j

row_eq : (r s : Instruction) → some r ≡ some s → r ≡ s
row_eq r s h = cc

module _ (c : Config) (v : IsConfig c) where
  Loaded-step :
      (left i : ℕ) (m m' : Machine)
      → i < c.processor_n
      → IsMachine c m
      → Loaded c left (i + 1) (fetched c i m) m'
      → Loaded c (suc left) i m m'
  Loaded-step left i m m' h w k = record {
    sizes = k.sizes;
    same_space = k.same_space;
    rows = λ j p q. elim (Bool-cases (j == i)) [
      | inl e ↦
          let e' : j ≡ i = ground arith in
          rw e' (
            k.others i (omega arith)
            ∙ get_elem?-set_self m.processor i (decode c m.space i)
                (omega (arith, w.processor_length)))
      | inr ne ↦ k.rows j (ground arith) (omega arith)
    ];
    others = λ j p.
        k.others j (omega arith)
        ∙ get_elem?-set_ne m.processor i j (decode c m.space i) (omega arith);
  }

  read_from-Loaded :
      (left i : ℕ) (m : Machine)
      → i + left ≤ c.processor_n
      → IsMachine c m
      → Returns (read_from c left i m) (Loaded c left i m)
  unfolding read_from
  read_from-Loaded zero i m h w = (
    m,
    refl,
    record {
      sizes = w;
      same_space = refl;
      rows = λ j p q. absurd (omega arith);
      others = λ j p. refl;
    },
  )
  read_from-Loaded (suc left) i m h w =
      let (m', e, k) =
        read_from-Loaded left (i + 1) (fetched c i m) (omega arith) (fetched-IsMachine c v i m w) in
      (
        m',
        ap (λ t. t >>= read_from c left (i + 1)) (fetch_instruction-eq c v i m (omega arith) w) ∙ e,
        Loaded-step left i m m' (omega arith) w k,
      )

  any_rows :
      (space : Bytes) (rows : List Instruction) (i : ℕ)
      → ((j : ℕ) → j < length rows → get_elem? rows j ≡ some (decode c space (i + j)))
      → any_active rows ≡ Model.active_from c (length rows) i (bits_of space)
  unfolding any_active Model.active_from
  any_rows space [] i h = refl
  any_rows space (r ∷ rows) i h =
      let first : some r ≡ some (decode c space (i + 0)) = h 0 (omega arith) in
      let at : i + 0 ≡ i = omega arith in
      ap₂ (λ t b. not (t.n == 0) || b)
        (row_eq r (decode c space (i + 0)) first
          ∙ ap (decode c space) at
          ∙ instruction-decode c space i)
        (any_rows space rows (i + 1) λ j p.
          h (suc j) (omega arith)
          ∙ ap (λ t. some (decode c space t)) {x = i + suc j} {y = i + 1 + j} (omega arith))

  take_all : (rows : List Instruction) (n : ℕ) → length rows ≡ n → take n rows ≡ rows
  take_all [] zero h = refl
  take_all [] (suc n) h = absurd (omega arith)
  take_all (r ∷ rows) zero h = absurd (omega arith)
  take_all (r ∷ rows) (suc n) h = ap (λ t. r ∷ t) (take_all rows n (omega arith))

  -- `space_active` returns on every machine of a valid configuration, leaves space alone, and its
  -- answer is whether the number of bits is not zero in some instruction of space.
  pub space_active-Active :
      (m : Machine)
      → IsMachine c m
      → Returns
          (space_active c m)
          (λ r. IsMachine c r.0 × (r.0.space ≡ m.space) × (r.1 ≡ Model.active c (bits_of m.space)))
  unfolding space_active space_read_processor Model.active
  space_active-Active m w =
      let (m', e, k) = read_from-Loaded c.processor_n 0 m (omega arith) w in
      let all : any_active (take c.processor_n m'.processor)
          ≡ Model.active_from c c.processor_n 0 (bits_of m.space) =
        ap any_active (take_all m'.processor c.processor_n k.sizes.processor_length)
        ∙ any_rows m.space m'.processor 0 (λ j p.
          k.rows j (omega arith) (omega (arith, k.sizes.processor_length))
          ∙ ap (λ t. some (decode c m.space t)) {x = j} {y = 0 + j} (omega arith))
        ∙ ap (λ t. Model.active_from c t 0 (bits_of m.space)) k.sizes.processor_length in
      (
        (m', any_active (take c.processor_n m'.processor)),
        ap (λ t. t >>= λ x. some (x, any_active (take c.processor_n x.processor))) e,
        (k.sizes, k.same_space, all),
      )
