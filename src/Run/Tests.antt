-- ===== src/Run/Tests.antt =====
-- A run of a few ticks on a machine of four slots.
use copy_space.Base.{refl, arith, some, false, [], ◌∷◌, replicate}
use copy_space.Config.{Config, IsConfig, ceil_log2_u32}
use copy_space.Stream.{byte, broken, ended}
use copy_space.Space.{Machine, Instruction, Port, reading, writing}
use copy_space.Space.Valid.{IsMachine}
use copy_space.Run.{space_run}
use copy_space.Run.Ends.{Ends}
use copy_space.Run.Laws.{space_run-Ends}

abbrev tiny : Config
tiny = record { vm_space_bytes = 64; processor_n = 4 }

tiny-IsConfig : IsConfig tiny
unfolding ceil_log2_u32
tiny-IsConfig = omega arith

abbrev off : Instruction
off = record { n = 0; dst = 0; src = 0 }

abbrev machine : Machine
machine = record {
  space = 0x08 ∷ 0x04 ∷ 0x20 ∷ 0x81 ∷ 0x55 ∷ replicate 59 0x11;
  processor = off ∷ off ∷ off ∷ off ∷ [];
}

machine-IsMachine : IsMachine tiny machine
machine-IsMachine = record { space_length = refl; processor_length = refl }

abbrev input : Port
input = reading (record { pending = byte 0x41 ∷ ended ∷ broken ∷ []; failed = false })

abbrev output : Port
output = writing (record { written = []; room = 3 ∷ 0 ∷ 1 ∷ []; failed = false })

space_run-Ends_example :
    Ends tiny 9
      (record { ticks = 0; input = input; output = output; machine = machine; events = [] })
      (space_run tiny 10 input output (some 9) machine)
space_run-Ends_example =
    space_run-Ends tiny tiny-IsConfig 10 9 input output machine machine-IsMachine (omega arith)
      (omega arith)
