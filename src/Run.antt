-- ===== src/Run.antt =====
-- `space_run` of src/space_run.c. The loop takes fuel: without a tick limit it need not end.
pub mod Ends
pub mod Laws
mod Tests
use copy_space.Base.{ℕ, zero, suc, ◌+◌, ◌-◌, ◌^◌, Option, none, some, List, [], ◌∷◌, ◌++◌}
use copy_space.Base.{Bool, true, false, ◌==◌, if◌then◌else◌}
use mathlib.Core.List.{map}
use copy_space.Config.{Config}
use copy_space.Space.{Machine, Port, Event, Stepped, StepResult, done, idle, error}
use copy_space.Space.{space_active, space_read_processor, space_step}

-- `space_stop`.
pub data Stop : Type 0 where
  stop_idle stop_limit stop_error : Stop

-- `space_result`, and what the run leaves. An event comes with the tick at which it is reported, as
-- `forward_event` hands it on.
pub record Final : Type 0 where
  pub ticks : ℕ
  pub reason : Stop
  pub input : Port
  pub output : Port
  pub machine : Machine
  pub events : List (ℕ × Event)

-- `faulted` is an access out of range; `unfinished`, that the fuel ran out.
pub data Outcome : Type 0 where
  stopped : Final → Outcome
  faulted unfinished : Outcome

-- What the loop carries.
pub record Session : Type 0 where
  pub ticks : ℕ
  pub input : Port
  pub output : Port
  pub machine : Machine
  pub events : List (ℕ × Event)

-- `if (result.ticks != UINT64_MAX) ++result.ticks`.
abbrev pub tick : ℕ → ℕ
tick n = if n == 2 ^ 64 - 1 then n else n + 1

abbrev pub at_tick : ℕ → Event → ℕ × Event
at_tick n e = (n, e)

abbrev pub session_after : Session → Stepped → Session
session_after s r = record {
  ticks = s.ticks;
  input = r.input;
  output = r.output;
  machine = r.machine;
  events = s.events ++ map (at_tick s.ticks) r.events;
}

-- `limit && result.ticks == *limit`.
pub at_limit : Option ℕ → ℕ → Bool
at_limit none ticks = false
at_limit (some limit) ticks = ticks == limit

-- The value of a call that returned.
abbrev pub or_fault {ℓ} : {A : Type ℓ} → Option A → (A → Outcome) → Outcome
or_fault none k = faulted
or_fault (some a) k = k a

-- The result for a session that has ended, with the processor as it was read last.
abbrev pub final_of : Stop → Session → Machine → Final
final_of reason s m = record {
  ticks = s.ticks;
  reason = reason;
  input = s.input;
  output = s.output;
  machine = m;
  events = s.events;
}

module _ (c : Config) where
  -- After the loop: the processor is read once more.
  pub finish : Stop → Session → Outcome
  finish reason s = or_fault (space_read_processor c s.machine) λ m. stopped (final_of reason s m)

  -- At the limit an idle processor takes precedence.
  pub limit_reached : Session → Outcome
  limit_reached s =
      or_fault (space_active c s.machine)
        λ r. finish (if r.1 then stop_limit else stop_idle) (record s { machine = r.0 })

  -- What follows a step that returned, `next` being the rest of the loop.
  pub follow : StepResult → (Session → Outcome) → Session → Outcome
  follow idle next s = finish stop_idle s
  follow error next s = finish stop_error s
  follow done next s = next (record s { ticks = tick s.ticks })

  pub step_session : (Session → Outcome) → Session → Outcome
  step_session next s =
      or_fault (space_step c s.input s.output s.machine)
        λ r. follow r.result next (session_after s r)

  pub one_tick : Bool → (Session → Outcome) → Session → Outcome
  one_tick true next s = limit_reached s
  one_tick false next s = step_session next s

  pub loop : ℕ → Option ℕ → Session → Outcome
  loop zero limit s = unfinished
  loop (suc fuel) limit s = one_tick (at_limit limit s.ticks) (loop fuel limit) s

  pub space_run : ℕ → Port → Port → Option ℕ → Machine → Outcome
  space_run fuel input output limit m =
      loop fuel limit
        (record { ticks = 0; input = input; output = output; machine = m; events = [] })
