-- ===== src/Space/Model.antt =====
-- The abstract copy machine: space is a function from positions to bits, with no bytes, no fast
-- paths and no processor registers, and an instruction moves a whole range at once.
use copy_space.Base.{ℕ, zero, suc, ◌+◌, ◌-◌, ◌*◌, List, [], ◌∷◌, ◌++◌, Bool, true, false, not}
use copy_space.Base.{◌&&◌, ◌||◌, ltb, leb, ◌==◌, if◌then◌else◌}
use copy_space.Memory.{Bytes}
use copy_space.Memory.Bits.{bit_at}
use copy_space.Config.{Config, processor_start, space_size, address_size, n_size, instruction_size}
use copy_space.Config.{n_offset, dst_offset, src_offset}
use copy_space.Space.{Event, Instruction, Round, copy_event}

abbrev pub BitSpace : Type 0
BitSpace = ℕ → ℕ

-- A number in `n` bits from `p` on, the least significant bit first.
unfoldable pub number : BitSpace → ℕ → ℕ → ℕ
number b p zero = 0
number b p (suc n) = b p + 2 * number b (p + 1) n

-- All bits of the destination range at once.
abbrev pub moved : ℕ → ℕ → ℕ → BitSpace → BitSpace
moved n src dst b p = if leb dst p && ltb p (dst + n) then b (src + (p - dst)) else b p

pub record BitRound : Type 0 where
  pub bits : BitSpace
  pub events : List Event
  pub failed : Bool

abbrev pub bits_of : Bytes → BitSpace
bits_of m p = bit_at m p

-- What the abstract machine sees of a round of the emulator.
abbrev pub view : Round → BitRound
view r = record { bits = bits_of r.machine.space; events = r.events; failed = r.failed }

unfoldable pub resume : Bool → (BitSpace → BitRound) → BitRound → BitRound
resume true next r = r
resume false next r = let s = next r.bits in record s { events = r.events ++ s.events }

module _ (c : Config) where
  -- Instructions lie one after the other.
  unfoldable pub instruction : BitSpace → ℕ → Instruction
  instruction b i =
      let at = processor_start + i * instruction_size c in
      record {
        n = number b (at + n_offset c) (n_size c);
        dst = number b (at + dst_offset c) (address_size c);
        src = number b (at + src_offset c) (address_size c);
      }

  -- Whether a range starts and ends in space.
  abbrev pub inside : ℕ → ℕ → Bool
  inside a n = ltb a (space_size c) && leb (a + n) (space_size c)

  unfoldable pub perform : ℕ → Instruction → BitSpace → BitRound
  perform i r b =
      if r.n == 0
      then record { bits = b; events = []; failed = false }
      else if inside r.dst r.n && inside r.src r.n
      then record { bits = moved r.n r.src r.dst b; events = copy_event i r ∷ []; failed = false }
      else record { bits = b; events = copy_event i r ∷ []; failed = true }

  unfoldable pub execute : ℕ → BitSpace → BitRound
  execute i b = perform i (instruction b i) b

  -- Slots 1 and 2 are the channels.
  unfoldable pub visit : Bool → (BitSpace → BitRound) → ℕ → BitSpace → BitRound
  visit true next i b = next b
  visit false next i b = let r = execute i b in resume r.failed next r

  -- The slots from `i` on, in order. The machine stops at the first instruction that leaves space.
  unfoldable pub run : ℕ → ℕ → BitSpace → BitRound
  run zero i b = record { bits = b; events = []; failed = false }
  run (suc left) i b = visit (i == 1 || i == 2) (run left (i + 1)) i b

  -- Whether one of `left` instructions from slot `i` on has anything to copy.
  unfoldable pub active_from : ℕ → ℕ → BitSpace → Bool
  active_from zero i b = false
  active_from (suc left) i b = not ((instruction b i).n == 0) || active_from left (i + 1) b

  unfoldable pub active : BitSpace → Bool
  active b = active_from c.processor_n 0 b
