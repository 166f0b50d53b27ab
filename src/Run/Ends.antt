-- ===== src/Run/Ends.antt =====
-- What `space_run` promises: how a result comes from the session in which the run began.
use copy_space.Base.{ℕ, ◌+◌, ◌<◌, ◌≤◌, ◌≡◌, some, Bool, true, false}
use copy_space.Config.{Config}
use copy_space.Space.{Machine, Stepped, done, error, space_step}
use copy_space.Space.Valid.{IsMachine}
use copy_space.Space.Model
use copy_space.Space.Model.{bits_of}
use copy_space.Run.{
  Stop, stop_idle, stop_limit, stop_error, Final, Outcome, stopped, Session, session_after,
}

-- Whether the bits of space hold an active instruction.
abbrev pub is_active : Config → Machine → Bool
is_active c m = Model.active c (bits_of m.space)

-- A run that stopped for a reason left what a session held.
pub record Leaves (reason : Stop) (s : Session) (f : Final) : Type 0 where
  pub reason_is : f.reason ≡ reason
  pub ticks_is : f.ticks ≡ s.ticks
  pub space_is : f.machine.space ≡ s.machine.space
  pub input_is : f.input ≡ s.input
  pub output_is : f.output ≡ s.output
  pub events_is : f.events ≡ s.events

-- How a run with a tick limit comes from a session to its result: by steps that are done, each of
-- which counts one tick, up to the limit, an idle space or a step that fails.
pub data Ran (c : Config) (limit : ℕ) (f : Final) : Session → Type 0 where
  limit_stop :
      {s : Session}
      → s.ticks ≡ limit
      → is_active c s.machine ≡ true
      → Leaves stop_limit s f
      → Ran c limit f s
  idle_stop :
      {s : Session}
      → s.ticks ≤ limit
      → is_active c s.machine ≡ false
      → Leaves stop_idle s f
      → Ran c limit f s
  error_stop :
      {s : Session} {r : Stepped}
      → s.ticks < limit
      → is_active c s.machine ≡ true
      → space_step c s.input s.output s.machine ≡ some r
      → r.result ≡ error
      → Leaves stop_error (session_after s r) f
      → Ran c limit f s
  done_step :
      {s : Session} {r : Stepped}
      → s.ticks < limit
      → is_active c s.machine ≡ true
      → space_step c s.input s.output s.machine ≡ some r
      → r.result ≡ done
      → Ran c limit f (record (session_after s r) { ticks = s.ticks + 1 })
      → Ran c limit f s

-- A run from a session that stopped as it should.
pub record Ends (c : Config) (limit : ℕ) (s : Session) (out : Outcome) : Type 0 where
  pub final : Final
  pub stops : out ≡ stopped final
  pub sizes : IsMachine c final.machine
  pub within : final.ticks ≤ limit
  pub at_the_limit : final.reason ≡ stop_limit → final.ticks ≡ limit
  pub idle_inactive : final.reason ≡ stop_idle → is_active c final.machine ≡ false
  pub limit_active : final.reason ≡ stop_limit → is_active c final.machine ≡ true
  pub ran : Ran c limit final s
