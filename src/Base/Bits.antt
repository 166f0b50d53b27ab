-- ===== src/Base/Bits.antt =====
-- Binary digits of native numbers, and how `&`, `|`, `^`, `<<`, `>>` and casts act on them.
mod Step
pub mod Digits
mod Digitwise
pub use Step.{bit_and_step, bit_or_step}
pub use Digits.*
pub use Digitwise.*
