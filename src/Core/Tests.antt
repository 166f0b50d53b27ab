-- ===== src/Core/Tests.antt =====
-- A row encoded into an image of zeros.
use copy_space.Base.{
  ◌+◌, refl, arith, List, [], ◌∷◌, replicate, every_entry, every_entry-at, ==_iff, ◌==◌,
}
use copy_space.Memory.{Bytes}
use copy_space.Memory.Bits.{bit_at}
use copy_space.BitCopy.Spec.{Returns}
use copy_space.Config.{Config, IsConfig, ceil_log2_u32}
use copy_space.Space.{Instruction}
use copy_space.Core.{encode}
use copy_space.Core.Fields.{Blank}
use copy_space.Core.Rows.{Encoded, encode-Encoded}

abbrev tiny : Config
tiny = record { vm_space_bytes = 64; processor_n = 4 }

tiny-IsConfig : IsConfig tiny
unfolding ceil_log2_u32
tiny-IsConfig = omega arith

abbrev image : Bytes
image = replicate 64 0

abbrev rows : List Instruction
rows = record { n = 26; dst = 0; src = 300 } ∷ record { n = 8; dst = 1000; src = 0 } ∷ []

image-Blank : Blank image 12 52
unfolding every_entry
image-Blank k h = (==_iff _ _).0 (every_entry-at 52 (λ j. bit_at image (12 + j) == 0) k refl h)

encode-Encoded_example :
    Returns (encode tiny image 12 rows) (Encoded tiny tiny-IsConfig 12 0 rows image)
unfolding ceil_log2_u32
encode-Encoded_example = encode-Encoded tiny tiny-IsConfig 12 rows image (omega arith) image-Blank
