-- ===== src/Config/Tests.antt =====
-- The default configuration, and the theorem on CEIL_LOG2_U32 at its size.
use copy_space.Base.{ℕ, ◌≡◌, ◌≤◌, ◌<◌, ◌^◌, refl, arith}
use copy_space.Config.{Config, ceil_log2_u32, address_size, n_size, instruction_size, IsConfig}
use copy_space.Config.Laws.{ceil_log2_u32_least}

-- VM_SPACE_BYTES and PROCESSOR_N as src/space.h sets them.
abbrev default : Config
default = record { vm_space_bytes = 2097152; processor_n = 256 }

default_sizes :
    (address_size default ≡ 24) × (n_size default ≡ 23) × (instruction_size default ≡ 71)
unfolding ceil_log2_u32
default_sizes = (refl, refl, refl)

default-IsConfig : IsConfig default
unfolding ceil_log2_u32
default-IsConfig = omega arith

ceil_log2_u32_least_example :
    (1000 ≤ 2 ^ ceil_log2_u32 1000) × ((j : ℕ) → j < ceil_log2_u32 1000 → 2 ^ j < 1000)
ceil_log2_u32_least_example = ceil_log2_u32_least 1000 (omega arith)
