-- ===== src/Space/Tests.antt =====
-- A machine of four slots over 64 bytes, and the theorems on the emulator at concrete inputs.
use copy_space.Base.{
  some, none, ◌≡◌, ◌*◌, ◌==◌, ◌&&◌, ◌++◌, refl, arith, true, false, not, [], ◌∷◌, replicate, length,
  min, take,
}
use copy_space.Memory.{Bytes, read}
use copy_space.Memory.Stored.{Stored}
use copy_space.BitCopy.Spec.{Returns}
use copy_space.Config.{Config, IsConfig, ceil_log2_u32}
use copy_space.Stream.{Input, Output, byte, fread}
use copy_space.Space.{
  Machine, Instruction, reading, writing, channel, computation, space_active, space_step,
  bad_channel,
}
use copy_space.Space.{space_init}
use copy_space.Space.Valid.{IsMachine}
use copy_space.Space.Model
use copy_space.Space.Model.{bits_of, view}
use copy_space.Space.Compute.{computation-Refines}
use copy_space.Space.Report.{Served}
use copy_space.Space.Channel.{channel_bad, channel_out, channel_in}
use copy_space.Space.Active.{space_active-Active}
use copy_space.Space.Step.{Steps, space_step-Steps}

abbrev tiny : Config
tiny = record { vm_space_bytes = 64; processor_n = 4 }

tiny-IsConfig : IsConfig tiny
unfolding ceil_log2_u32
tiny-IsConfig = omega arith

abbrev off : Instruction
off = record { n = 0; dst = 0; src = 0 }

abbrev two_bytes : Instruction
two_bytes = record { n = 16; dst = 256; src = 0 }

abbrev askew : Instruction
askew = record { n = 12; dst = 256; src = 0 }

-- A space in which slot 0 and others hold some instruction.
abbrev machine : Machine
machine = record {
  space = 0x08 ∷ 0x04 ∷ 0x20 ∷ 0x81 ∷ 0x55 ∷ replicate 59 0x11;
  processor = off ∷ two_bytes ∷ askew ∷ off ∷ [];
}

machine-IsMachine : IsMachine tiny machine
machine-IsMachine = record { space_length = refl; processor_length = refl }

abbrev source : Input
source = record { pending = byte 0x41 ∷ byte 0x42 ∷ byte 0x43 ∷ []; failed = false }

abbrev sink : Output
sink = record { written = []; room = 1 ∷ 2 ∷ []; failed = false }

computation-Refines_example :
    Returns
      (computation tiny machine)
      (λ r. IsMachine tiny r.machine × (view r ≡ Model.run tiny 4 0 (bits_of machine.space)))
computation-Refines_example = computation-Refines tiny tiny-IsConfig machine machine-IsMachine

askew_is_bad : bad_channel tiny askew ≡ true
unfolding bad_channel ceil_log2_u32
askew_is_bad = refl

two_bytes_are_good : bad_channel tiny two_bytes ≡ false
unfolding bad_channel ceil_log2_u32
two_bytes_are_good = refl

channel_bad_example :
    Returns
      (channel tiny (writing sink) 2 machine)
      (Served tiny 2 askew (writing sink) machine.space 0 true)
channel_bad_example =
    channel_bad tiny tiny-IsConfig (writing sink) 2 askew machine (omega arith) machine-IsMachine
      refl (omega arith) askew_is_bad

channel_out_example :
    let k = min 2 1 in
    Returns (channel tiny (writing sink) 1 machine) (
      Served tiny 1 two_bytes
        (writing (record {
          written = [] ++ take k (read machine.space 32 2);
          room = 2 ∷ [];
          failed = false;
        }))
        machine.space
        (8 * k)
        (not (k == 2)))
channel_out_example =
    channel_out tiny tiny-IsConfig sink 1 two_bytes machine (omega arith) machine-IsMachine refl
      (omega arith) two_bytes_are_good

channel_in_example :
    let (bytes, f') = fread 2 source in
    (space' : Bytes) × Stored 32 bytes machine.space space'
    × Returns (channel tiny (reading source) 1 machine) (
        Served tiny 1 two_bytes
          (reading f')
          space'
          (8 * length bytes)
          (not (length bytes == 2) && f'.failed))
channel_in_example =
    channel_in tiny tiny-IsConfig source 1 two_bytes machine (omega arith) machine-IsMachine refl
      (omega arith) two_bytes_are_good

space_active-Active_example : Returns (space_active tiny machine) (λ r.
    IsMachine tiny r.0
    × (r.0.space ≡ machine.space)
    × (r.1 ≡ Model.active tiny (bits_of machine.space)))
space_active-Active_example = space_active-Active tiny tiny-IsConfig machine machine-IsMachine

space_step-Steps_example : Returns (space_step tiny (reading source) (writing sink) machine) (
    Steps tiny tiny-IsConfig
      (Model.active tiny (bits_of machine.space))
      (reading source)
      (writing sink)
      machine)
space_step-Steps_example =
    space_step-Steps tiny tiny-IsConfig (reading source) (writing sink) machine machine-IsMachine

-- A byte of a null pointer is refused.
null_refused : space_init tiny none 1 machine ≡ some none
unfolding space_init
null_refused = refl
