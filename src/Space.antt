-- ===== src/Space.antt =====
-- The emulator of src/space.c: the space, the processor's copy of its instructions, and a step.
-- A `none` is an access out of range, which C leaves undefined. The calls of an observer are a list
-- of events, in their order; an observer is given no way to change the emulator.
pub mod Valid
pub mod Init
pub mod Model
pub mod Compute
mod Report
pub mod Channel
pub mod Active
pub mod Step
mod Tests
use copy_space.Base.{
  ℕ, zero, suc, ◌+◌, ◌-◌, ◌*◌, ◌/◌, ◌%◌, ◌^◌, Option, none, some, List, [], ◌∷◌, ◌++◌,
}
use copy_space.Base.{Bool, true, false, not, ◌&&◌, ◌||◌, ◌>>=◌, ltb, leb, ◌==◌, if◌then◌else◌}
use copy_space.Base.{bit_or, get_elem?, set, length, replicate, take}
use copy_space.Memory.{Bytes, load_bytes, store_bytes}
use copy_space.BitCopy.{same, bitcpy}
use copy_space.Config.{
  Config, char_bit, processor_start, space_size, address_size, n_size, instruction_size,
}
use copy_space.Config.{n_offset, dst_offset, src_offset}
use copy_space.Field.{u32, get_argument, write_field_bits}
use copy_space.Stream.{Input, Output, fread, fwrite}

-- A row of `processor`.
pub record Instruction : Type 0 where
  pub n : ℕ
  pub dst : ℕ
  pub src : ℕ

-- The globals `space` and `processor`.
pub record Machine : Type 0 where
  pub space : Bytes
  pub processor : List Instruction

-- `space_event`.
pub record Event : Type 0 where
  pub channel : Bool
  pub slot : ℕ
  pub n : ℕ
  pub dst : ℕ
  pub src : ℕ
  pub copied : ℕ
  pub error : Bool

-- The state of the loop of `computation`; `failed` is the result -1.
pub record Round : Type 0 where
  pub machine : Machine
  pub events : List Event
  pub failed : Bool

abbrev pub after : List Event → Round → Round
after events r = record r { events = events ++ r.events }

abbrev pub copy_event : ℕ → Instruction → Event
copy_event i r = record {
  channel = false;
  slot = i;
  n = r.n;
  dst = r.dst;
  src = r.src;
  copied = 0;
  error = false;
}

-- What follows the round `r` of a slot: nothing after a failure, else the slots `next`.
pub resume : Bool → (Machine → Option Round) → Round → Option Round
resume true next r = some r
resume false next r = do s ← next r.machine; some (after r.events s)

-- What the pointer `image` points to; a null pointer points to nothing.
abbrev pub pointed_to : Option Bytes → Bytes
pointed_to none = []
pointed_to (some image) = image

abbrev pub is_null : Option Bytes → Bool
is_null none = true
is_null (some image) = false

-- `space_init(image, bytes)`: the inner `none` is the result -1, the outer a read past the image.
pub space_init : Config → Option Bytes → ℕ → Machine → Option (Option Machine)
space_init c image bytes m =
    if ltb c.vm_space_bytes bytes || not (bytes == 0) && is_null image then some none else (do
      loaded ← load_bytes (pointed_to image) 0 bytes
      some (some (record m { space = loaded ++ replicate (c.vm_space_bytes - bytes) 0 })))

-- A stream of either kind, for the argument `output` of `channel`.
pub data Port : Type 0 where
  reading : Input → Port
  writing : Output → Port

-- What `fread` or `fwrite` does at byte `a` for `count` bytes. `is_error` is `ferror(f) || output`.
pub record Moved : Type 0 where
  pub port : Port
  pub space : Bytes
  pub copied : ℕ
  pub is_error : Bool

pub move_bytes : Port → ℕ → ℕ → Bytes → Option Moved
move_bytes (writing f) a count space = do
  bytes ← load_bytes space a count
  let (k, f') = fwrite bytes f
  some (record { port = writing f'; space = space; copied = k; is_error = true })
move_bytes (reading f) a count space = do
  let (bytes, f') = fread count f
  space' ← store_bytes space a bytes
  some (record { port = reading f'; space = space'; copied = length bytes; is_error = f'.failed })

pub record Transfer : Type 0 where
  pub port : Port
  pub machine : Machine
  pub events : List Event

-- Both channels have been served: the ports are the output's and the input's.
pub record Transfers : Type 0 where
  pub input : Port
  pub output : Port
  pub machine : Machine
  pub events : List Event

-- `space_step_result`.
pub data StepResult : Type 0 where
  done idle error : StepResult

pub record Stepped : Type 0 where
  pub input : Port
  pub output : Port
  pub machine : Machine
  pub events : List Event
  pub result : StepResult

abbrev pub channel_event : ℕ → Instruction → ℕ → Bool → Event
channel_event slot r copied bad = record {
  channel = true;
  slot = slot;
  n = r.n;
  dst = r.dst;
  src = r.src;
  copied = copied;
  error = bad;
}

-- The loop of `space_active` over the instructions read.
pub any_active : List Instruction → Bool
any_active [] = false
any_active (r ∷ rs) = not (r.n == 0) || any_active rs

module _ (c : Config) where
  pub slot_start : ℕ → ℕ
  slot_start i = processor_start + i * instruction_size c

  pub fetch_instruction : ℕ → Machine → Option Machine
  fetch_instruction i m = do
    n ← get_argument m.space (slot_start i + n_offset c) (n_size c)
    dst ← get_argument m.space (slot_start i + dst_offset c) (address_size c)
    src ← get_argument m.space (slot_start i + src_offset c) (address_size c)
    some (record m { processor = set m.processor i (record { n = n; dst = dst; src = src }) })

  -- `for (i = ...; i < PROCESSOR_N; ++i)`, with `left` slots to go.
  pub read_from : ℕ → ℕ → Machine → Option Machine
  read_from zero i m = some m
  read_from (suc left) i m = do m' ← fetch_instruction i m; read_from left (i + 1) m'

  pub space_read_processor : Machine → Option Machine
  space_read_processor m = read_from c.processor_n 0 m

  -- The test after which `computation` gives up.
  pub out_of_space : Instruction → Bool
  out_of_space r =
      leb (space_size c) r.dst
      || leb (space_size c) r.src
      || ltb (space_size c - r.dst) r.n
      || ltb (space_size c - r.src) r.n

  -- The body of the loop after the fetch, for the instruction `r` of slot `i`.
  pub perform : ℕ → Instruction → Machine → Option Round
  perform i r m =
      if r.n == 0
      then some (record { machine = m; events = []; failed = false })
      else if out_of_space r
      then some (record { machine = m; events = copy_event i r ∷ []; failed = true })
      else (do
        space' ← bitcpy same r.n r.src r.dst m.space
        some (record {
          machine = record m { space = space' };
          events = copy_event i r ∷ [];
          failed = false;
        }))

  -- The body of the loop at a slot that is not a channel.
  pub execute_slot : ℕ → Machine → Option Round
  execute_slot i m = do m' ← fetch_instruction i m; r ← get_elem? m'.processor i; perform i r m'

  -- One round of the loop: slots 1 and 2, the channels, are passed over.
  pub visit : Bool → (Machine → Option Round) → ℕ → Machine → Option Round
  visit true next i m = next m
  visit false next i m = do r ← execute_slot i m; resume r.failed next r

  -- The loop from slot `i` on, with `left` slots to go.
  pub compute_from : ℕ → ℕ → Machine → Option Round
  compute_from zero i m = some (record { machine = m; events = []; failed = false })
  compute_from (suc left) i m = visit (i == 1 || i == 2) (compute_from left (i + 1)) i m

  pub computation : Machine → Option Round
  computation m = compute_from c.processor_n 0 m

  -- The test of `channel` for code 2 before anything is transferred.
  pub bad_channel : Instruction → Bool
  bad_channel r =
      not (r.n % char_bit == 0)
      || not (r.dst % char_bit == 0)
      || leb (space_size c / 2) r.n
      || leb (space_size c) r.dst
      || ltb (space_size c - r.dst) r.n

  -- The status field of a channel, and the event that reports it.
  pub report : Port → ℕ → Instruction → ℕ → Bool → Machine → Option Transfer
  report port slot r copied bad m = do
    let status = bit_or (u32 (copied * char_bit * 2)) (if bad then 1 else 0)
    space' ← write_field_bits m.space (slot_start slot + src_offset c) status (address_size c)
    some (record {
      port = port;
      machine = record m { space = space' };
      events = channel_event slot r (u32 (copied * char_bit)) bad ∷ [];
    })

  pub channel : Port → ℕ → Machine → Option Transfer
  channel port slot m = do
    r ← get_elem? m.processor slot
    if r.n == 0
        then some (record { port = port; machine = m; events = [] })
        else if bad_channel r
        then report port slot r 0 true m
        else (do
          t ← move_bytes port (r.dst / char_bit) (r.n / char_bit) m.space
          let short = not (t.copied == r.n / char_bit)
          report t.port slot r t.copied (short && t.is_error) (record m { space = t.space }))

  pub channels : Port → Port → Machine → Option Transfers
  channels input output m = do
    m' ← fetch_instruction 2 m
    m'' ← fetch_instruction 1 m'
    out ← channel output 2 m''
    in' ← channel input 1 out.machine
    some (record {
      input = in'.port;
      output = out.port;
      machine = in'.machine;
      events = out.events ++ in'.events;
    })

  -- The result is the machine with `processor` read anew, and whether an instruction is active.
  pub space_active : Machine → Option (Machine × Bool)
  space_active m = do
    m' ← space_read_processor m
    some (m', any_active (take c.processor_n m'.processor))

  -- A step of an active processor.
  pub serve : Port → Port → Machine → Option Stepped
  serve input output m = do
    t ← channels input output m
    r ← computation t.machine
    some (record {
      input = t.input;
      output = t.output;
      machine = r.machine;
      events = t.events ++ r.events;
      result = if r.failed then error else done;
    })

  pub step_if : Bool → Port → Port → Machine → Option Stepped
  step_if false input output m =
      some (record { input = input; output = output; machine = m; events = []; result = idle })
  step_if true input output m = serve input output m

  pub space_step : Port → Port → Machine → Option Stepped
  space_step input output m = do r ← space_active m; step_if r.1 input output r.0
