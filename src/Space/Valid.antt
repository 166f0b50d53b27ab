-- ===== src/Space/Valid.antt =====
-- The sizes that the emulator keeps, and that its fetches stay inside space.
use copy_space.Base.{
  ℕ, zero, suc, ◌+◌, ◌*◌, ◌<◌, ◌≤◌, ◌≡◌, refl, ap, ◌∙◌, arith, length, set, length-set,
}
use copy_space.Base.{some, ◌>>=◌}
use copy_space.Memory.{Bytes}
use copy_space.BitCopy.Spec.{Returns}
use copy_space.Config.{
  Config, IsConfig, char_bit, space_size, address_size, n_size, instruction_size, n_offset,
  dst_offset, src_offset,
}
use copy_space.Field.{read_field}
use copy_space.Field.Argument.{get_argument-eq-read_field}
use copy_space.Space.{
  Machine, Instruction, slot_start, fetch_instruction, read_from, space_read_processor,
}

pub record IsMachine (c : Config) (m : Machine) : Type 0 where
  pub space_length : length m.space ≡ c.vm_space_bytes
  pub processor_length : length m.processor ≡ c.processor_n

pub slot-le : (i n k : ℕ) → i < n → i * k + k ≤ n * k
slot-le i n k h = grind arith

module _ (c : Config) (v : IsConfig c) where
  pub space_size-eq : space_size c ≡ c.vm_space_bytes * char_bit
  space_size-eq = omega (arith, v.is_int)

  -- The whole instruction of a slot lies in space.
  pub slot_fits : (i : ℕ) → i < c.processor_n → slot_start c i + instruction_size c ≤ space_size c
  unfolding slot_start
  slot_fits i h = omega (arith, v.processor_fits, slot-le i c.processor_n (instruction_size c) h)

  pub size_parts :
      (n_size c ≤ 31)
      × (address_size c ≤ 31)
      × (src_offset c + address_size c ≡ instruction_size c)
      × (dst_offset c + address_size c ≡ src_offset c)
      × (n_offset c + n_size c ≡ dst_offset c)
  size_parts = omega (arith, v.address_high, v.address_low)

-- The instruction that a slot of space spells.
abbrev pub decode : Config → Bytes → ℕ → Instruction
decode c space i = record {
  n = read_field space (slot_start c i + n_offset c) (n_size c);
  dst = read_field space (slot_start c i + dst_offset c) (address_size c);
  src = read_field space (slot_start c i + src_offset c) (address_size c);
}

abbrev pub fetched : Config → ℕ → Machine → Machine
fetched c i m = record m { processor = set m.processor i (decode c m.space i) }

module _ (c : Config) (v : IsConfig c) where
  pub fetch_instruction-eq :
      (i : ℕ) (m : Machine)
      → i < c.processor_n
      → IsMachine c m
      → fetch_instruction c i m ≡ some (fetched c i m)
  unfolding fetch_instruction
  fetch_instruction-eq i m h w =
      let fits = slot_fits c v i h in
      let sizes = size_parts c v in
      let total = space_size-eq c v in
      let inside : slot_start c i + instruction_size c ≤ 8 * length m.space =
        omega (arith, w.space_length) in
      rw (
        get_argument-eq-read_field m.space (slot_start c i + n_offset c) (n_size c) (omega arith)
            (omega arith),
        get_argument-eq-read_field m.space (slot_start c i + dst_offset c) (address_size c)
            (omega arith) (omega arith),
        get_argument-eq-read_field m.space (slot_start c i + src_offset c) (address_size c)
            (omega arith) (omega arith),
      )

  pub fetched-IsMachine : (i : ℕ) (m : Machine) → IsMachine c m → IsMachine c (fetched c i m)
  fetched-IsMachine i m w = record {
    space_length = w.space_length;
    processor_length = length-set m.processor i (decode c m.space i) ∙ w.processor_length;
  }

  -- Reading the processor leaves space alone and never reads past its end.
  pub read_from-IsMachine :
      (left i : ℕ) (m : Machine)
      → i + left ≤ c.processor_n
      → IsMachine c m
      → Returns (read_from c left i m) (λ m'. IsMachine c m' × (m'.space ≡ m.space))
  unfolding read_from
  read_from-IsMachine zero i m h w = (m, refl, (w, refl))
  read_from-IsMachine (suc left) i m h w =
      let (m', e, p) =
        read_from-IsMachine left (i + 1) (fetched c i m) (omega arith) (fetched-IsMachine i m w) in
      (
        m',
        ap (λ t. t >>= read_from c left (i + 1)) (fetch_instruction-eq i m (omega arith) w) ∙ e,
        p,
      )

  pub space_read_processor-IsMachine :
      (m : Machine)
      → IsMachine c m
      → Returns (space_read_processor c m) (λ m'. IsMachine c m' × (m'.space ≡ m.space))
  unfolding space_read_processor
  space_read_processor-IsMachine m w = read_from-IsMachine c.processor_n 0 m (omega arith) w
