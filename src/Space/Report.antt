-- ===== src/Space/Report.antt =====
-- The status field that `channel` writes, and the event that reports it.
use copy_space.Base.{ℕ, ◌+◌, ◌*◌, ◌%◌, ◌^◌, ◌<◌, ◌≤◌, ◌≡◌, refl, ap, ◌∙◌, arith, length, [], ◌∷◌}
use copy_space.Base.{some, ◌>>=◌, true, false, Bool, if◌then◌else◌, bit_or, bit_or-even}
use native.Mathlib.Nat.{mod-eq_of_lt}
use copy_space.Memory.{Bytes}
use copy_space.Memory.Bits.{bit_at}
use copy_space.BitCopy.Spec.{Returns}
use copy_space.Config.{
  Config, IsConfig, space_size, address_size, src_offset, char_bit, instruction_size,
}
use copy_space.Config.Laws.{space_size-le, ceil_log2_u32_least}
use copy_space.Field.{u32, get_argument}
use copy_space.Field.Encode.{write_field_bits-FieldWritten, read_field-written}
use copy_space.Field.Argument.{get_argument-eq-read_field}
use copy_space.Space.{Machine, Instruction, Port, Transfer, slot_start, report, channel_event}
use copy_space.Space.Valid.{IsMachine, slot_fits, size_parts, space_size-eq}

abbrev pub error_bit : Bool → ℕ
error_bit bad = if bad then 1 else 0

-- What a served channel leaves after `copied` bits went through: sizes kept, the stream as given,
-- one event, and space as given but for the status field, which holds twice the number of bits
-- moved, plus 1 on an error.
pub record Served (c : Config) (slot : ℕ) (r : Instruction) (port : Port) (space : Bytes)
    (copied : ℕ) (bad : Bool) (t : Transfer) : Type 0 where
  pub sizes : IsMachine c t.machine
  pub stream : t.port ≡ port
  pub events : t.events ≡ channel_event slot r copied bad ∷ []
  pub status :
      get_argument t.machine.space (slot_start c slot + src_offset c) (address_size c)
      ≡ some (2 * copied + error_bit bad)
  pub others_low :
      (q : ℕ) → q < slot_start c slot + src_offset c → bit_at t.machine.space q ≡ bit_at space q
  pub others_high :
      (q : ℕ)
      → slot_start c slot + instruction_size c ≤ q
      → bit_at t.machine.space q ≡ bit_at space q

error_bit-le : (bad : Bool) → error_bit bad ≤ 1
error_bit-le true = omega arith
error_bit-le false = omega arith

-- The status word that `channel` computes.
abbrev status_word : ℕ → Bool → ℕ
status_word copied bad = bit_or (u32 (copied * char_bit * 2)) (error_bit bad)

status_word-eq :
    (copied : ℕ) (bad : Bool)
    → copied * 16 < 2 ^ 32
    → status_word copied bad ≡ 2 * (8 * copied) + error_bit bad
status_word-eq copied bad h =
    let e : u32 (copied * char_bit * 2) ≡ 2 * (8 * copied) = omega arith in
    rw e (bit_or-even (8 * copied) (error_bit bad) (error_bit-le bad))

module _ (c : Config) (v : IsConfig c) where
  pub some_space : 2 < space_size c
  some_space = (ceil_log2_u32_least (space_size c) (omega (arith, v.is_int))).1 1 v.address_low

  pub report-Served :
      (port : Port) (slot : ℕ) (r : Instruction) (copied : ℕ) (bad : Bool) (m : Machine)
      → slot < c.processor_n
      → IsMachine c m
      → 2 * (8 * copied) + 1 < space_size c
      → Returns (report c port slot r copied bad m) (Served c slot r port m.space (8 * copied) bad)
  unfolding report
  report-Served port slot r copied bad m h w q =
      let at = slot_start c slot + src_offset c in
      let sizes = size_parts c v in
      let total = space_size-eq c v in
      let inside : at + address_size c ≤ 8 * length m.space =
        omega (arith, slot_fits c v slot h, w.space_length) in
      let small : copied * 16 < 2 ^ 32 = omega (arith, v.is_int) in
      let (space', e, f) =
        write_field_bits-FieldWritten m.space at (status_word copied bad) (address_size c) inside in
      let fits : 2 * (8 * copied) + error_bit bad < 2 ^ address_size c =
        omega (arith, space_size-le c v, error_bit-le bad) in
      (
        reported space',
        ap (λ t. t >>= λ s. some (reported s)) e,
        record {
          sizes = record {
            space_length = f.same_length ∙ w.space_length;
            processor_length = w.processor_length;
          };
          stream = refl;
          events = ap (λ t. channel_event slot r t bad ∷ []) (omega arith);
          others_low = λ x b. f.below x (omega arith);
          others_high = λ x b. f.above x (omega arith);
          status =
              get_argument-eq-read_field space' at (address_size c) (omega arith)
                (omega (arith, f.same_length))
              ∙ ap some (
                  read_field-written m.space space' at (status_word copied bad) (address_size c) f
                  ∙ ap (λ t. t % 2 ^ address_size c) (status_word-eq copied bad small)
                  ∙ mod-eq_of_lt fits);
        },
      )
    where
      reported : Bytes → Transfer
      reported space' = record {
        port = port;
        machine = record m { space = space' };
        events = channel_event slot r (u32 (copied * char_bit)) bad ∷ [];
      }
