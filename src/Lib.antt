-- ===== src/Lib.antt =====
-- Copy Space: a computer whose only instruction copies a range of bits. The state is one array of
-- bits, `space`; at its start lie PROCESSOR_N instructions (n, dst, src), each three number fields,
-- the least significant bit first. A step serves the two channel instructions (slot 2 is the
-- output, slot 1 the input) and then runs the other slots in order, each fetched when its turn
-- comes, since a copy may change the instructions after it.
--
-- Files, and the code that they follow:
--   Memory    byte buffers, `memmove`, the accesses of C through `unsigned char *`
--   BitCopy   src/bitcopy.c: `bitcpy`, path by path
--   Config    src/support.h and src/space.h: the constants
--   Field     src/space.c: `reverse_bits_in_bytes`, `get_argument`, `write_field_bits`
--   Stream    the `FILE` objects that the channels read and write, as `fread` and `fwrite` show them
--   Space     src/space.c: `space_init`, `computation`, `channel`, `channels`, `space_active`,
--             `space_step`; Space/Model is the abstract machine on bits
--   Run       src/space_run.c: `space_run`
--   Core      src/core.c: `encode`, which writes the rows of a core image
--   Assembler src/assembler.c: tokens, symbols, expressions and the rows of a line
--   Integer64 runtime/copy_c/integer64_fold.h: 64-bit constants folded on pairs of 32-bit cells for
--             the compiler; Integer64/Meaning is the same on 64-bit numbers
--   CopyEmit  runtime/gcc/copy_emit.c: copy rows written into an image, and the copy code of 32-bit
--             arithmetic. Field, Rows and Emission are about writing, AddBit to Sum about running
--             such code on the abstract machine of Space/Model, Sums joins the two. CopyEmit/Program
--             has the chains of layers
--   Rv32      legacy/src/vm/rv32.c: the RV32I executor; Rv32/Guest is the guest as a program counter,
--             registers and bytes, with the fields and the arithmetic of RV32I as it lays them out
--   VmSpace   legacy/src/vm/space.c: `vm_bit_get`, `vm_read_uint` and `vm_write_uint`
--   Base      lists, Boolean tests and the binary digits of numbers
-- A file calls what the C file calls: Run steps Space, which reads its instructions through Field,
-- copies through BitCopy and talks to the ports of Stream. The globals `space` and `processor` are
-- the record `Machine`, passed from call to call. A call returns `none` where C leaves the behaviour
-- undefined, which here is an access out of range; a theorem that a call `Returns` excludes that.
--
-- Numbers: `x >> 3` is `x / 8` and `x & 7` is `x % 8`. Sums of `size_t` are taken modulo 2 ^ 64 and
-- shifts to the left modulo 2 ^ 32. Bit positions inside space are below 2 ^ 31, since SPACE_SIZE
-- is an enumeration constant; the sums of a position and an index below a field's width that
-- `get_argument` and `write_field_bits` make do not reach 2 ^ 32, and are written as plain sums.
-- Buffers hold `unsigned char`: a value is cut to 8 bits when it is loaded and when it is stored.
--
-- In CopyEmit the operands passed `fits`, so that positions stay below 2 ^ 32; the sums that `overlaps`
-- forms before that wrap. In Rv32 addresses are 64-bit and no sum of a 32-bit one wraps; sums of
-- `uint32_t` wrap at 2 ^ 32, signed numbers are given by their two's complement, and a sum of two
-- `int32_t` that is none is undefined, so that the call has no result.
--
-- Bounds: the loops with a known number of rounds are recursions on that number. `space_run` may
-- run for ever without a tick limit and takes fuel, one unit for each tick; with a limit, one unit
-- more than the limit is enough.
--
-- An input is the bytes, failures and ends of the file that are still to come; since `clearerr`
-- comes before each read, there may be bytes behind an end. An output is the bytes taken and how
-- many each call to come takes. The observer's calls are a list of events. An observer is taken not to change the emulator.
--
-- Not modelled: the vendored third_party/pforth, the host scripts, the rest of runtime/, the rest of
-- the legacy machine and its tools, the rest of src/core.c, and the command lines of the programs.
-- Of src/assembler.c the files are left out: what an `include` makes of the state is a parameter.
pub mod Base
pub mod Memory
pub mod BitCopy
pub mod Config
pub mod Field
pub mod Stream
pub mod Space
pub mod Run
pub mod Core
pub mod Integer64
pub mod CopyEmit
pub mod Rv32
pub mod VmSpace
pub mod Assembler
