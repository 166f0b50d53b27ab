-- ===== src/Space/Channel.antt =====
-- `channel` serves one channel instruction; the program inside space learns the outcome from the
-- status field.
use copy_space.Base.{ℕ, ◌+◌, ◌*◌, ◌/◌, ◌%◌, ◌<◌, ◌≤◌, ◌≡◌, ◌≢◌, refl, ◌∙◌, arith, length, ◌++◌, min}
use copy_space.Base.{some, true, false, Bool, ◌==◌, ◌&&◌, not, get_elem?, take}
use copy_space.Memory.{Bytes, load_bytes-eq, read, store_bytes}
use copy_space.Memory.Stored.{Stored, store_bytes-Stored, length-read}
use copy_space.BitCopy.Spec.{Returns}
use copy_space.Config.{Config, IsConfig, space_size}
use copy_space.Stream.{Input, Output, fread, fwrite, now, later}
use copy_space.Stream.Laws.{length-fread}
use copy_space.Space.{
  Machine, Instruction, Port, reading, writing, Moved, move_bytes, bad_channel, channel,
}
use copy_space.Space.Valid.{IsMachine, space_size-eq}
use copy_space.Space.Report.{Served, report-Served, some_space}

and-true : (b : Bool) → (b && true) ≡ b
and-true true = refl
and-true false = refl

write_bytes-eq :
    (f : Output) (a count : ℕ) (space : Bytes)
    → a + count ≤ length space
    → let k = min count (now f.room) in
      move_bytes (writing f) a count space
      ≡ some (record {
        port = writing (record {
          written = f.written ++ take k (read space a count);
          room = later f.room;
          failed = false;
        });
        space = space;
        copied = k;
        is_error = true;
      })
unfolding move_bytes fwrite
write_bytes-eq f a count space h = rw (load_bytes-eq space a count h, length-read space a count)

read_bytes-eq :
    (f : Input) (a count : ℕ) (space space' : Bytes)
    → let (bytes, f') = fread count f in
      store_bytes space a bytes ≡ some space'
      → move_bytes (reading f) a count space
        ≡ some (record {
          port = reading f';
          space = space';
          copied = length bytes;
          is_error = f'.failed;
        })
unfolding move_bytes
read_bytes-eq f a count space space' e = rw e

module _ (c : Config) (v : IsConfig c) where
  -- A transfer that passes the test lies in space and is short enough for its status.
  good_channel :
      (r : Instruction)
      → bad_channel c r ≡ false
      → (r.n % 8 ≡ 0) × (r.dst % 8 ≡ 0) × (r.n < space_size c / 2) × (r.dst + r.n ≤ space_size c)
  unfolding bad_channel
  good_channel r h = ground arith

  -- A channel instruction that is not byte-aligned, is too long or leaves space moves nothing:
  -- the call returns with the stream and all of space but the status field as they were, and the
  -- status is that of an error with no bits moved.
  pub channel_bad :
      (port : Port) (slot : ℕ) (r : Instruction) (m : Machine)
      → slot < c.processor_n
      → IsMachine c m
      → get_elem? m.processor slot ≡ some r
      → r.n ≢ 0
      → bad_channel c r ≡ true
      → Returns (channel c port slot m) (Served c slot r port m.space 0 true)
  unfolding channel
  channel_bad port slot r m h w row on bad =
      let active : (r.n == 0) ≡ false = ground arith in
      rw (row, active, bad)
        (report-Served c v port slot r 0 true m h w (omega (arith, some_space c v)))

  channel_moves :
      (port : Port) (slot : ℕ) (r : Instruction) (m : Machine) (t : Moved)
      → slot < c.processor_n
      → IsMachine c m
      → get_elem? m.processor slot ≡ some r
      → r.n ≢ 0
      → bad_channel c r ≡ false
      → move_bytes port (r.dst / 8) (r.n / 8) m.space ≡ some t
      → length t.space ≡ length m.space
      → t.copied ≤ r.n / 8
      → Returns
          (channel c port slot m)
          (Served c slot r t.port t.space (8 * t.copied) (not (t.copied == r.n / 8) && t.is_error))
  unfolding channel
  channel_moves port slot r m t h w row on good e same_length at_most =
      let active : (r.n == 0) ≡ false = ground arith in
      let g = good_channel r good in
      rw (row, active, good, e)
        (report-Served c v t.port slot r t.copied (not (t.copied == r.n / 8) && t.is_error)
          (record m { space = t.space }) h
          (record {
            space_length = same_length ∙ w.space_length;
            processor_length = w.processor_length;
          })
          (omega (arith, g)))

  -- The bytes of a transfer that passes the test lie in space.
  transfer_fits :
      (r : Instruction) (m : Machine)
      → IsMachine c m
      → bad_channel c r ≡ false
      → r.dst / 8 + r.n / 8 ≤ length m.space
  transfer_fits r m w good =
      let total = space_size-eq c v in omega (arith, good_channel r good, w.space_length)

  -- An OUT channel whose instruction is accepted hands the bytes of its range, in order and as many
  -- as the output takes, to the output. Space but for the status field is as it was; the status
  -- gives the number of bits taken, with the error bit exactly when the output took too few.
  pub channel_out :
      (f : Output) (slot : ℕ) (r : Instruction) (m : Machine)
      → slot < c.processor_n
      → IsMachine c m
      → get_elem? m.processor slot ≡ some r
      → r.n ≢ 0
      → bad_channel c r ≡ false
      → let bytes = read m.space (r.dst / 8) (r.n / 8) in
        let k = min (r.n / 8) (now f.room) in
        Returns (channel c (writing f) slot m) (
          Served c slot r
            (writing
              (record { written = f.written ++ take k bytes; room = later f.room; failed = false }))
            m.space
            (8 * k)
            (not (k == r.n / 8)))
  unfolding fwrite
  channel_out f slot r m h w row on good =
      let bytes = read m.space (r.dst / 8) (r.n / 8) in
      let k = min (r.n / 8) (now f.room) in
      let port =
        writing
          (record { written = f.written ++ take k bytes; room = later f.room; failed = false }) in
      let t : Moved = record { port = port; space = m.space; copied = k; is_error = true } in
      rw (← and-true (not (k == r.n / 8))) (
        channel_moves (writing f) slot r m t h w row on good
          (write_bytes-eq f (r.dst / 8) (r.n / 8) m.space (transfer_fits r m w good)) refl
          (omega arith))

  -- An IN channel whose instruction is accepted stores the bytes that the input gives, in order and
  -- at most as many as asked for, at its address. The rest of space but for the status field is as
  -- it was; the status gives the number of bits stored, with the error bit exactly when they are
  -- too few and the input failed, so that the end of the input is no error.
  pub channel_in :
      (f : Input) (slot : ℕ) (r : Instruction) (m : Machine)
      → slot < c.processor_n
      → IsMachine c m
      → get_elem? m.processor slot ≡ some r
      → r.n ≢ 0
      → bad_channel c r ≡ false
      → let (bytes, f') = fread (r.n / 8) f in
        (space' : Bytes) × Stored (r.dst / 8) bytes m.space space'
        × Returns (channel c (reading f) slot m) (
            Served c slot r
              (reading f')
              space'
              (8 * length bytes)
              (not (length bytes == r.n / 8) && f'.failed))
  channel_in f slot r m h w row on good =
      let bytes = (fread (r.n / 8) f).0 in
      let f' = (fread (r.n / 8) f).1 in
      let fits = transfer_fits r m w good in
      let (space', e, s) =
        store_bytes-Stored m.space (r.dst / 8) bytes (omega (arith, length-fread (r.n / 8) f)) in
      let t : Moved = record {
        port = reading f';
        space = space';
        copied = length bytes;
        is_error = f'.failed;
      } in
      (
        space',
        s,
        channel_moves (reading f) slot r m t h w row on good
            (read_bytes-eq f (r.dst / 8) (r.n / 8) m.space space' e) s.same_length
            (length-fread (r.n / 8) f),
      )
